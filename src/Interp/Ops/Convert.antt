-- ===== src/Interp/Ops/Convert.antt =====
-- The conversions of `Thread::Run` (src/interp.cc).
use wasm_sandboxing.Interp.State.{M}
use wasm_sandboxing.Interp.Operators.{unop, unop_trap}
use wasm_sandboxing.Interp.Floats.{
  float_traits, double_traits, int_trunc, int_trunc_sat, demote_f64,
}
use wasm_sandboxing.Interp.Ints.{sign_extend}
use wasm_sandboxing.Interp.Host.{uint32, int32, uint64, int64, Host}

pub data ConvertOp : Type 0 where
  i32_trunc_s_f32 i32_trunc_s_sat_f32 i32_trunc_s_f64 i32_trunc_s_sat_f64 i32_trunc_u_f32 :
      ConvertOp
  i32_trunc_u_sat_f32 i32_trunc_u_f64 i32_trunc_u_sat_f64 i32_wrap_i64 i64_trunc_s_f32 : ConvertOp
  i64_trunc_s_sat_f32 i64_trunc_s_f64 i64_trunc_s_sat_f64 i64_trunc_u_f32 i64_trunc_u_sat_f32 :
      ConvertOp
  i64_trunc_u_f64 i64_trunc_u_sat_f64 i64_extend_s_i32 i64_extend_u_i32 f32_convert_s_i32 :
      ConvertOp
  f32_convert_u_i32 f32_convert_s_i64 f32_convert_u_i64 f32_demote_f64 f32_reinterpret_i32 :
      ConvertOp
  f64_convert_s_i32 f64_convert_u_i32 f64_convert_s_i64 f64_convert_u_i64 f64_promote_f32 :
      ConvertOp
  f64_reinterpret_i64 i32_reinterpret_f32 i64_reinterpret_f64 : ConvertOp

unfoldable pub run_convert : Host → ConvertOp → M (Unit {0})
unfolding unop unop_trap
run_convert host i32_trunc_s_f32 = unop_trap 32 32 (int_trunc host float_traits int32)
run_convert host i32_trunc_s_sat_f32 = unop 32 32 (int_trunc_sat host float_traits int32)
run_convert host i32_trunc_s_f64 = unop_trap 32 64 (int_trunc host double_traits int32)
run_convert host i32_trunc_s_sat_f64 = unop 32 64 (int_trunc_sat host double_traits int32)
run_convert host i32_trunc_u_f32 = unop_trap 32 32 (int_trunc host float_traits uint32)
run_convert host i32_trunc_u_sat_f32 = unop 32 32 (int_trunc_sat host float_traits uint32)
run_convert host i32_trunc_u_f64 = unop_trap 32 64 (int_trunc host double_traits uint32)
run_convert host i32_trunc_u_sat_f64 = unop 32 64 (int_trunc_sat host double_traits uint32)
run_convert host i32_wrap_i64 = unop 32 64 (λ v. v)
run_convert host i64_trunc_s_f32 = unop_trap 64 32 (int_trunc host float_traits int64)
run_convert host i64_trunc_s_sat_f32 = unop 64 32 (int_trunc_sat host float_traits int64)
run_convert host i64_trunc_s_f64 = unop_trap 64 64 (int_trunc host double_traits int64)
run_convert host i64_trunc_s_sat_f64 = unop 64 64 (int_trunc_sat host double_traits int64)
run_convert host i64_trunc_u_f32 = unop_trap 64 32 (int_trunc host float_traits uint64)
run_convert host i64_trunc_u_sat_f32 = unop 64 32 (int_trunc_sat host float_traits uint64)
run_convert host i64_trunc_u_f64 = unop_trap 64 64 (int_trunc host double_traits uint64)
run_convert host i64_trunc_u_sat_f64 = unop 64 64 (int_trunc_sat host double_traits uint64)
run_convert host i64_extend_s_i32 = unop 64 32 (sign_extend 64 32)
run_convert host i64_extend_u_i32 = unop 64 32 (λ v. v)
run_convert host f32_convert_s_i32 = unop 32 32 (host.of_int int32 32)
run_convert host f32_convert_u_i32 = unop 32 32 (host.of_int uint32 32)
run_convert host f32_convert_s_i64 = unop 32 64 (host.of_int int64 32)
run_convert host f32_convert_u_i64 = unop 32 64 (host.of_int uint64 32)
run_convert host f32_demote_f64 = unop 32 64 (demote_f64 host)
run_convert host f32_reinterpret_i32 = unop 32 32 (λ v. v)
run_convert host f64_convert_s_i32 = unop 64 32 (host.of_int int32 64)
run_convert host f64_convert_u_i32 = unop 64 32 (host.of_int uint32 64)
run_convert host f64_convert_s_i64 = unop 64 64 (host.of_int int64 64)
run_convert host f64_convert_u_i64 = unop 64 64 (host.of_int uint64 64)
run_convert host f64_promote_f32 = unop 64 32 host.promote
run_convert host f64_reinterpret_i64 = unop 64 64 (λ v. v)
run_convert host i32_reinterpret_f32 = unop 32 32 (λ v. v)
run_convert host i64_reinterpret_f64 = unop 64 64 (λ v. v)

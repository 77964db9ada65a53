-- ===== src/Interp/Ops/SimdFloats.antt =====
-- The lane-wise float arithmetic and conversions of `Thread::Run` (src/interp.cc).
use wasm_sandboxing.Interp.State.{M}
use wasm_sandboxing.Interp.Operators.{simd_unop, simd_binop}
use wasm_sandboxing.Interp.Floats.{
  float_traits, double_traits, float_div, float_min, float_max_of, float_sqrt, float_abs, float_neg,
  int_trunc_sat,
}
use wasm_sandboxing.Interp.Host.{uint32, int32, uint64, int64, Host}

pub data SimdFloatOp : Type 0 where
  f32x4_neg f64x2_neg f32x4_abs f64x2_abs f32x4_min : SimdFloatOp
  f64x2_min f32x4_max f64x2_max f32x4_add f64x2_add : SimdFloatOp
  f32x4_sub f64x2_sub f32x4_div f64x2_div f32x4_mul : SimdFloatOp
  f64x2_mul f32x4_sqrt f64x2_sqrt f32x4_convert_s_i32x4 f32x4_convert_u_i32x4 : SimdFloatOp
  f64x2_convert_s_i64x2 f64x2_convert_u_i64x2 i32x4_trunc_s_f32x4_sat i32x4_trunc_u_f32x4_sat
        i64x2_trunc_s_f64x2_sat :
      SimdFloatOp
  i64x2_trunc_u_f64x2_sat : SimdFloatOp

unfoldable pub run_simd_float : Host → SimdFloatOp → M (Unit {0})
unfolding simd_unop simd_binop
run_simd_float host f32x4_neg = simd_unop int32 32 (float_neg float_traits)
run_simd_float host f64x2_neg = simd_unop int64 64 (float_neg double_traits)
run_simd_float host f32x4_abs = simd_unop int32 32 (float_abs float_traits)
run_simd_float host f64x2_abs = simd_unop int64 64 (float_abs double_traits)
run_simd_float host f32x4_min = simd_binop int32 32 (float_min host float_traits)
run_simd_float host f64x2_min = simd_binop int64 64 (float_min host double_traits)
run_simd_float host f32x4_max = simd_binop int32 32 (float_max_of host float_traits)
run_simd_float host f64x2_max = simd_binop int64 64 (float_max_of host double_traits)
run_simd_float host f32x4_add = simd_binop int32 32 (host.float_add 32)
run_simd_float host f64x2_add = simd_binop int64 64 (host.float_add 64)
run_simd_float host f32x4_sub = simd_binop int32 32 (host.float_sub 32)
run_simd_float host f64x2_sub = simd_binop int64 64 (host.float_sub 64)
run_simd_float host f32x4_div = simd_binop int32 32 (float_div host float_traits)
run_simd_float host f64x2_div = simd_binop int64 64 (float_div host double_traits)
run_simd_float host f32x4_mul = simd_binop int32 32 (host.float_mul 32)
run_simd_float host f64x2_mul = simd_binop int64 64 (host.float_mul 64)
run_simd_float host f32x4_sqrt = simd_unop int32 32 (float_sqrt host float_traits)
run_simd_float host f64x2_sqrt = simd_unop int64 64 (float_sqrt host double_traits)
run_simd_float host f32x4_convert_s_i32x4 = simd_unop int32 32 (host.of_int int32 32)
run_simd_float host f32x4_convert_u_i32x4 = simd_unop uint32 32 (host.of_int uint32 32)
run_simd_float host f64x2_convert_s_i64x2 = simd_unop int64 64 (host.of_int int64 64)
run_simd_float host f64x2_convert_u_i64x2 = simd_unop uint64 64 (host.of_int uint64 64)
run_simd_float host i32x4_trunc_s_f32x4_sat =
    simd_unop int32 32 (int_trunc_sat host float_traits int32)
run_simd_float host i32x4_trunc_u_f32x4_sat =
    simd_unop uint32 32 (int_trunc_sat host float_traits uint32)
run_simd_float host i64x2_trunc_s_f64x2_sat =
    simd_unop int64 64 (int_trunc_sat host double_traits int64)
run_simd_float host i64x2_trunc_u_f64x2_sat =
    simd_unop uint64 64 (int_trunc_sat host double_traits uint64)

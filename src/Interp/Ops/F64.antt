-- ===== src/Interp/Ops/F64.antt =====
-- The operations of `f64` of `Thread::Run` (src/interp.cc).
use wasm_sandboxing.Interp.State.{M}
use wasm_sandboxing.Interp.Operators.{unop, binop}
use wasm_sandboxing.Interp.Compare.{eq, ne, lt, le, gt, ge}
use wasm_sandboxing.Interp.Floats.{
  double_traits, float_div, float_min, float_max_of, float_ceil, float_floor, float_trunc,
  float_nearest, float_sqrt, float_abs, float_neg, float_copy_sign,
}
use wasm_sandboxing.Interp.Host.{double, Host}

pub data F64Op : Type 0 where
  f64_add f64_sub f64_mul f64_div f64_min : F64Op
  f64_max f64_abs f64_neg f64_copysign f64_ceil : F64Op
  f64_floor f64_trunc f64_nearest f64_sqrt f64_eq : F64Op
  f64_ne f64_lt f64_le f64_gt f64_ge : F64Op

unfoldable pub run_f64 : Host → F64Op → M (Unit {0})
unfolding unop binop
run_f64 host f64_add = binop 64 64 (host.float_add 64)
run_f64 host f64_sub = binop 64 64 (host.float_sub 64)
run_f64 host f64_mul = binop 64 64 (host.float_mul 64)
run_f64 host f64_div = binop 64 64 (float_div host double_traits)
run_f64 host f64_min = binop 64 64 (float_min host double_traits)
run_f64 host f64_max = binop 64 64 (float_max_of host double_traits)
run_f64 host f64_abs = unop 64 64 (float_abs double_traits)
run_f64 host f64_neg = unop 64 64 (float_neg double_traits)
run_f64 host f64_copysign = binop 64 64 (float_copy_sign double_traits)
run_f64 host f64_ceil = unop 64 64 (float_ceil host double_traits)
run_f64 host f64_floor = unop 64 64 (float_floor host double_traits)
run_f64 host f64_trunc = unop 64 64 (float_trunc host double_traits)
run_f64 host f64_nearest = unop 64 64 (float_nearest host double_traits)
run_f64 host f64_sqrt = unop 64 64 (float_sqrt host double_traits)
run_f64 host f64_eq = binop 32 64 (eq host double)
run_f64 host f64_ne = binop 32 64 (ne host double)
run_f64 host f64_lt = binop 32 64 (lt host double)
run_f64 host f64_le = binop 32 64 (le host double)
run_f64 host f64_gt = binop 32 64 (gt host double)
run_f64 host f64_ge = binop 32 64 (ge host double)

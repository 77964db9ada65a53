-- ===== src/Interp/Ops/F32.antt =====
-- The operations of `f32` of `Thread::Run` (src/interp.cc).
use wasm_sandboxing.Interp.State.{M}
use wasm_sandboxing.Interp.Operators.{unop, binop}
use wasm_sandboxing.Interp.Compare.{eq, ne, lt, le, gt, ge}
use wasm_sandboxing.Interp.Floats.{
  float_traits, float_div, float_min, float_max_of, float_ceil, float_floor, float_trunc,
  float_nearest, float_sqrt, float_abs, float_neg, float_copy_sign,
}
use wasm_sandboxing.Interp.Host.{float, Host}

pub data F32Op : Type 0 where
  f32_add f32_sub f32_mul f32_div f32_min : F32Op
  f32_max f32_abs f32_neg f32_copysign f32_ceil : F32Op
  f32_floor f32_trunc f32_nearest f32_sqrt f32_eq : F32Op
  f32_ne f32_lt f32_le f32_gt f32_ge : F32Op

unfoldable pub run_f32 : Host → F32Op → M (Unit {0})
unfolding unop binop
run_f32 host f32_add = binop 32 32 (host.float_add 32)
run_f32 host f32_sub = binop 32 32 (host.float_sub 32)
run_f32 host f32_mul = binop 32 32 (host.float_mul 32)
run_f32 host f32_div = binop 32 32 (float_div host float_traits)
run_f32 host f32_min = binop 32 32 (float_min host float_traits)
run_f32 host f32_max = binop 32 32 (float_max_of host float_traits)
run_f32 host f32_abs = unop 32 32 (float_abs float_traits)
run_f32 host f32_neg = unop 32 32 (float_neg float_traits)
run_f32 host f32_copysign = binop 32 32 (float_copy_sign float_traits)
run_f32 host f32_ceil = unop 32 32 (float_ceil host float_traits)
run_f32 host f32_floor = unop 32 32 (float_floor host float_traits)
run_f32 host f32_trunc = unop 32 32 (float_trunc host float_traits)
run_f32 host f32_nearest = unop 32 32 (float_nearest host float_traits)
run_f32 host f32_sqrt = unop 32 32 (float_sqrt host float_traits)
run_f32 host f32_eq = binop 32 32 (eq host float)
run_f32 host f32_ne = binop 32 32 (ne host float)
run_f32 host f32_lt = binop 32 32 (lt host float)
run_f32 host f32_le = binop 32 32 (le host float)
run_f32 host f32_gt = binop 32 32 (gt host float)
run_f32 host f32_ge = binop 32 32 (ge host float)

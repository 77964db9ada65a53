-- ===== src/Interp/Ops/I32.antt =====
-- The operations of `i32` of `Thread::Run` (src/interp.cc).
use wasm_sandboxing.Interp.State.{M}
use wasm_sandboxing.Interp.Operators.{unop, binop, binop_trap}
use wasm_sandboxing.Interp.Compare.{eq, ne, lt, le, gt, ge}
use wasm_sandboxing.Interp.Ints.{
  int_add, int_sub, int_mul, int_div_s, int_div_u, int_rem_s, int_rem_u, int_and, int_or, int_xor,
  int_shl, int_shr, int_eqz, clz, ctz, popcount,
}
use wasm_sandboxing.Interp.Host.{uint32, int32, Host}

pub data I32Op : Type 0 where
  i32_add i32_sub i32_mul i32_div_s i32_div_u : I32Op
  i32_rem_s i32_rem_u i32_and i32_or i32_xor : I32Op
  i32_shl i32_shr_u i32_shr_s i32_eq i32_ne : I32Op
  i32_lt_s i32_le_s i32_lt_u i32_le_u i32_gt_s : I32Op
  i32_ge_s i32_gt_u i32_ge_u i32_clz i32_ctz : I32Op
  i32_popcnt i32_eqz : I32Op

unfoldable pub run_i32 : Host → I32Op → M (Unit {0})
unfolding unop binop binop_trap
run_i32 host i32_add = binop 32 32 (int_add 32)
run_i32 host i32_sub = binop 32 32 (int_sub 32)
run_i32 host i32_mul = binop 32 32 (int_mul 32)
run_i32 host i32_div_s = binop_trap 32 32 (int_div_s 32)
run_i32 host i32_div_u = binop_trap 32 32 (int_div_u 32)
run_i32 host i32_rem_s = binop_trap 32 32 (int_rem_s 32)
run_i32 host i32_rem_u = binop_trap 32 32 (int_rem_u 32)
run_i32 host i32_and = binop 32 32 (int_and 32)
run_i32 host i32_or = binop 32 32 (int_or 32)
run_i32 host i32_xor = binop 32 32 (int_xor 32)
run_i32 host i32_shl = binop 32 32 (int_shl 32)
run_i32 host i32_shr_u = binop 32 32 (int_shr uint32)
run_i32 host i32_shr_s = binop 32 32 (int_shr int32)
run_i32 host i32_eq = binop 32 32 (eq host uint32)
run_i32 host i32_ne = binop 32 32 (ne host uint32)
run_i32 host i32_lt_s = binop 32 32 (lt host int32)
run_i32 host i32_le_s = binop 32 32 (le host int32)
run_i32 host i32_lt_u = binop 32 32 (lt host uint32)
run_i32 host i32_le_u = binop 32 32 (le host uint32)
run_i32 host i32_gt_s = binop 32 32 (gt host int32)
run_i32 host i32_ge_s = binop 32 32 (ge host int32)
run_i32 host i32_gt_u = binop 32 32 (gt host uint32)
run_i32 host i32_ge_u = binop 32 32 (ge host uint32)
run_i32 host i32_clz = unop 32 32 (clz host 32)
run_i32 host i32_ctz = unop 32 32 (ctz host 32)
run_i32 host i32_popcnt = unop 32 32 (popcount host 32)
run_i32 host i32_eqz = unop 32 32 int_eqz

-- ===== src/Interp/Ops/I64.antt =====
-- The operations of `i64` of `Thread::Run` (src/interp.cc).
use wasm_sandboxing.Interp.State.{M}
use wasm_sandboxing.Interp.Operators.{unop, binop, binop_trap}
use wasm_sandboxing.Interp.Compare.{eq, ne, lt, le, gt, ge}
use wasm_sandboxing.Interp.Ints.{
  int_add, int_sub, int_mul, int_div_s, int_div_u, int_rem_s, int_rem_u, int_and, int_or, int_xor,
  int_shl, int_shr, clz, ctz, popcount,
}
use wasm_sandboxing.Interp.Host.{uint64, int64, Host}

pub data I64Op : Type 0 where
  i64_add i64_sub i64_mul i64_div_s i64_div_u : I64Op
  i64_rem_s i64_rem_u i64_and i64_or i64_xor : I64Op
  i64_shl i64_shr_u i64_shr_s i64_eq i64_ne : I64Op
  i64_lt_s i64_le_s i64_lt_u i64_le_u i64_gt_s : I64Op
  i64_ge_s i64_gt_u i64_ge_u i64_clz i64_ctz : I64Op
  i64_popcnt : I64Op

unfoldable pub run_i64 : Host → I64Op → M (Unit {0})
unfolding unop binop binop_trap
run_i64 host i64_add = binop 64 64 (int_add 64)
run_i64 host i64_sub = binop 64 64 (int_sub 64)
run_i64 host i64_mul = binop 64 64 (int_mul 64)
run_i64 host i64_div_s = binop_trap 64 64 (int_div_s 64)
run_i64 host i64_div_u = binop_trap 64 64 (int_div_u 64)
run_i64 host i64_rem_s = binop_trap 64 64 (int_rem_s 64)
run_i64 host i64_rem_u = binop_trap 64 64 (int_rem_u 64)
run_i64 host i64_and = binop 64 64 (int_and 64)
run_i64 host i64_or = binop 64 64 (int_or 64)
run_i64 host i64_xor = binop 64 64 (int_xor 64)
run_i64 host i64_shl = binop 64 64 (int_shl 64)
run_i64 host i64_shr_u = binop 64 64 (int_shr uint64)
run_i64 host i64_shr_s = binop 64 64 (int_shr int64)
run_i64 host i64_eq = binop 32 64 (eq host uint64)
run_i64 host i64_ne = binop 32 64 (ne host uint64)
run_i64 host i64_lt_s = binop 32 64 (lt host int64)
run_i64 host i64_le_s = binop 32 64 (le host int64)
run_i64 host i64_lt_u = binop 32 64 (lt host uint64)
run_i64 host i64_le_u = binop 32 64 (le host uint64)
run_i64 host i64_gt_s = binop 32 64 (gt host int64)
run_i64 host i64_ge_s = binop 32 64 (ge host int64)
run_i64 host i64_gt_u = binop 32 64 (gt host uint64)
run_i64 host i64_ge_u = binop 32 64 (ge host uint64)
run_i64 host i64_clz = unop 64 64 (clz host 64)
run_i64 host i64_ctz = unop 64 64 (ctz host 64)
run_i64 host i64_popcnt = unop 64 64 (popcount host 64)

-- ===== src/Interp/Ops/Rotate.antt =====
-- The rotations, `i64.eqz` and the sign extensions of `Thread::Run` (src/interp.cc).
use wasm_sandboxing.Interp.State.{M}
use wasm_sandboxing.Interp.Operators.{unop, binop}
use wasm_sandboxing.Interp.Ints.{int_rotl, int_rotr, int_eqz, int_extend_s}

pub data RotateOp : Type 0 where
  i32_rotr i32_rotl i64_rotr i64_rotl i64_eqz : RotateOp
  i32_extend8_s i32_extend16_s i64_extend8_s i64_extend16_s i64_extend32_s : RotateOp

unfoldable pub run_rotate : RotateOp → M (Unit {0})
unfolding unop binop
run_rotate i32_rotr = binop 32 32 (int_rotr 32)
run_rotate i32_rotl = binop 32 32 (int_rotl 32)
run_rotate i64_rotr = binop 64 64 (int_rotr 64)
run_rotate i64_rotl = binop 64 64 (int_rotl 64)
run_rotate i64_eqz = unop 32 64 int_eqz
run_rotate i32_extend8_s = unop 32 32 (int_extend_s 32 8)
run_rotate i32_extend16_s = unop 32 32 (int_extend_s 32 16)
run_rotate i64_extend8_s = unop 64 64 (int_extend_s 64 8)
run_rotate i64_extend16_s = unop 64 64 (int_extend_s 64 16)
run_rotate i64_extend32_s = unop 64 64 (int_extend_s 64 32)

-- ===== src/Interp/Ops/Loads.antt =====
-- The loads of `Thread::Run` (src/interp.cc).
use wasm_sandboxing.Interp.State.{M}
use wasm_sandboxing.Interp.Memory.{load}
use wasm_sandboxing.Interp.Host.{uint8, int8, uint16, int16, uint32, int32, uint64, float, double}

pub data LoadOp : Type 0 where
  i32_load8_s i32_load8_u i32_load16_s i32_load16_u i64_load8_s : LoadOp
  i64_load8_u i64_load16_s i64_load16_u i64_load32_s i64_load32_u : LoadOp
  i32_load i64_load f32_load f64_load : LoadOp

unfoldable pub run_load : LoadOp → M (Unit {0})
unfolding load
run_load i32_load8_s = load int8 32
run_load i32_load8_u = load uint8 32
run_load i32_load16_s = load int16 32
run_load i32_load16_u = load uint16 32
run_load i64_load8_s = load int8 64
run_load i64_load8_u = load uint8 64
run_load i64_load16_s = load int16 64
run_load i64_load16_u = load uint16 64
run_load i64_load32_s = load int32 64
run_load i64_load32_u = load uint32 64
run_load i32_load = load uint32 32
run_load i64_load = load uint64 64
run_load f32_load = load float 32
run_load f64_load = load double 64

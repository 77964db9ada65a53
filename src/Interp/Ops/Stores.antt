-- ===== src/Interp/Ops/Stores.antt =====
-- The stores of `Thread::Run` (src/interp.cc).
use wasm_sandboxing.Interp.State.{M}
use wasm_sandboxing.Interp.Memory.{store}
use wasm_sandboxing.Interp.Host.{uint8, uint16, uint32, uint64, float, double}

pub data StoreOp : Type 0 where
  i32_store8 i32_store16 i64_store8 i64_store16 i64_store32 : StoreOp
  i32_store i64_store f32_store f64_store : StoreOp

unfoldable pub run_store : StoreOp → M (Unit {0})
unfolding store
run_store i32_store8 = store uint8 32
run_store i32_store16 = store uint16 32
run_store i64_store8 = store uint8 64
run_store i64_store16 = store uint16 64
run_store i64_store32 = store uint32 64
run_store i32_store = store uint32 32
run_store i64_store = store uint64 64
run_store f32_store = store float 32
run_store f64_store = store double 64

-- ===== src/Interp/Ops/Atomics.antt =====
-- The atomic loads; the atomic stores of `Thread::Run` (src/interp.cc).
use wasm_sandboxing.Interp.State.{M}
use wasm_sandboxing.Interp.Memory.{atomic_load, atomic_store}
use wasm_sandboxing.Interp.Host.{uint8, uint16, uint32, uint64}

pub data AtomicLoadOp : Type 0 where
  i32_atomic_load8_u i32_atomic_load16_u i64_atomic_load8_u i64_atomic_load16_u
        i64_atomic_load32_u :
      AtomicLoadOp
  i32_atomic_load i64_atomic_load : AtomicLoadOp

unfoldable pub run_atomic_load : AtomicLoadOp → M (Unit {0})
unfolding atomic_load
run_atomic_load i32_atomic_load8_u = atomic_load uint8 32
run_atomic_load i32_atomic_load16_u = atomic_load uint16 32
run_atomic_load i64_atomic_load8_u = atomic_load uint8 64
run_atomic_load i64_atomic_load16_u = atomic_load uint16 64
run_atomic_load i64_atomic_load32_u = atomic_load uint32 64
run_atomic_load i32_atomic_load = atomic_load uint32 32
run_atomic_load i64_atomic_load = atomic_load uint64 64

pub data AtomicStoreOp : Type 0 where
  i32_atomic_store8 i32_atomic_store16 i64_atomic_store8 i64_atomic_store16 i64_atomic_store32 :
      AtomicStoreOp
  i32_atomic_store i64_atomic_store : AtomicStoreOp

unfoldable pub run_atomic_store : AtomicStoreOp → M (Unit {0})
unfolding atomic_store
run_atomic_store i32_atomic_store8 = atomic_store uint8 32
run_atomic_store i32_atomic_store16 = atomic_store uint16 32
run_atomic_store i64_atomic_store8 = atomic_store uint8 64
run_atomic_store i64_atomic_store16 = atomic_store uint16 64
run_atomic_store i64_atomic_store32 = atomic_store uint32 64
run_atomic_store i32_atomic_store = atomic_store uint32 32
run_atomic_store i64_atomic_store = atomic_store uint64 64

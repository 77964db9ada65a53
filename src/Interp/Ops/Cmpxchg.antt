-- ===== src/Interp/Ops/Cmpxchg.antt =====
-- The compare-and-exchange operations of `Thread::Run` (src/interp.cc).
use wasm_sandboxing.Interp.State.{M}
use wasm_sandboxing.Interp.Memory.{atomic_rmw_cmpxchg}
use wasm_sandboxing.Interp.Host.{uint8, uint16, uint32, uint64}

pub data CmpxchgOp : Type 0 where
  i32_atomic_rmw_cmpxchg i64_atomic_rmw_cmpxchg i32_atomic_rmw8_u_cmpxchg i32_atomic_rmw16_u_cmpxchg
        i64_atomic_rmw8_u_cmpxchg :
      CmpxchgOp
  i64_atomic_rmw16_u_cmpxchg i64_atomic_rmw32_u_cmpxchg : CmpxchgOp

unfoldable pub run_cmpxchg : CmpxchgOp → M (Unit {0})
unfolding atomic_rmw_cmpxchg
run_cmpxchg i32_atomic_rmw_cmpxchg = atomic_rmw_cmpxchg uint32 32
run_cmpxchg i64_atomic_rmw_cmpxchg = atomic_rmw_cmpxchg uint64 64
run_cmpxchg i32_atomic_rmw8_u_cmpxchg = atomic_rmw_cmpxchg uint8 32
run_cmpxchg i32_atomic_rmw16_u_cmpxchg = atomic_rmw_cmpxchg uint16 32
run_cmpxchg i64_atomic_rmw8_u_cmpxchg = atomic_rmw_cmpxchg uint8 64
run_cmpxchg i64_atomic_rmw16_u_cmpxchg = atomic_rmw_cmpxchg uint16 64
run_cmpxchg i64_atomic_rmw32_u_cmpxchg = atomic_rmw_cmpxchg uint32 64

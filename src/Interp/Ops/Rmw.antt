-- ===== src/Interp/Ops/Rmw.antt =====
-- The atomic read-modify-write instructions of `Thread::Run` (src/interp.cc), an operation at one
-- of seven pairs of a type in memory and a type on the stack; `memory.size` and `memory.grow`.
use wasm_sandboxing.Base.{ℕ}
use wasm_sandboxing.Interp.State.{M}
use wasm_sandboxing.Interp.Host.{uint8, uint16, uint32, uint64}
use wasm_sandboxing.Interp.Ints.{int_add, int_sub, int_and, int_or, int_xor, xchg}
use wasm_sandboxing.Interp.Memory.{atomic_rmw, memory_size, memory_grow}

pub data RmwFunc : Type 0 where
  add sub and or xor exchange : RmwFunc

pub data RmwSize : Type 0 where
  i32_full i64_full i32_8_u i32_16_u i64_8_u i64_16_u i64_32_u : RmwSize

-- The function at type `T` of `w` bits.
unfoldable pub rmw_func : RmwFunc → ℕ → ℕ → ℕ → ℕ
unfolding int_add int_sub int_and int_or int_xor xchg
rmw_func add = int_add
rmw_func sub = int_sub
rmw_func and = int_and
rmw_func or = int_or
rmw_func xor = int_xor
rmw_func exchange = xchg

unfoldable pub run_rmw : RmwFunc → RmwSize → M (Unit {0})
unfolding rmw_func atomic_rmw
run_rmw func i32_full = atomic_rmw (rmw_func func 32) uint32 32
run_rmw func i64_full = atomic_rmw (rmw_func func 64) uint64 64
run_rmw func i32_8_u = atomic_rmw (rmw_func func 32) uint8 32
run_rmw func i32_16_u = atomic_rmw (rmw_func func 32) uint16 32
run_rmw func i64_8_u = atomic_rmw (rmw_func func 64) uint8 64
run_rmw func i64_16_u = atomic_rmw (rmw_func func 64) uint16 64
run_rmw func i64_32_u = atomic_rmw (rmw_func func 64) uint32 64

pub data MemoryOp : Type 0 where
  size grow : MemoryOp

unfoldable pub run_memory : MemoryOp → M (Unit {0})
unfolding memory_size memory_grow
run_memory size = memory_size
run_memory grow = memory_grow

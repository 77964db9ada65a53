-- ===== src/Interp/Run.antt =====
-- `Thread::Run` (src/interp.cc): an instruction, and a given number of them.
use wasm_sandboxing.Base.{ℕ, zero, suc, Option, none, some}
use wasm_sandboxing.Interp.State
use wasm_sandboxing.Interp.State.{
  Result, ok, returned, Thread, Flow, next, stop, M, ◌>>=◌, ◌>>◌, pure,
}
use wasm_sandboxing.Interp.Host.{Host}
use wasm_sandboxing.Interp.Control.{run_flow, run_stack, run_var}
use wasm_sandboxing.Interp.Calls.{run_call}
use wasm_sandboxing.Interp.Ops.Atomics.{run_atomic_load, run_atomic_store}
use wasm_sandboxing.Interp.Ops.Bitwise.{run_bitwise, run_truth}
use wasm_sandboxing.Interp.Ops.Cmpxchg.{run_cmpxchg}
use wasm_sandboxing.Interp.Ops.Convert.{run_convert}
use wasm_sandboxing.Interp.Ops.F32.{run_f32}
use wasm_sandboxing.Interp.Ops.F64.{run_f64}
use wasm_sandboxing.Interp.Ops.I32.{run_i32}
use wasm_sandboxing.Interp.Ops.I64.{run_i64}
use wasm_sandboxing.Interp.Ops.Lanes.{run_lane}
use wasm_sandboxing.Interp.Ops.Loads.{run_load}
use wasm_sandboxing.Interp.Ops.Rmw.{run_rmw, run_memory}
use wasm_sandboxing.Interp.Ops.Rotate.{run_rotate}
use wasm_sandboxing.Interp.Ops.Shifts.{run_shift}
use wasm_sandboxing.Interp.Ops.SimdCompare.{run_simd_eq, run_simd_order}
use wasm_sandboxing.Interp.Ops.SimdFloats.{run_simd_float}
use wasm_sandboxing.Interp.Ops.SimdInts.{run_simd_int}
use wasm_sandboxing.Interp.Ops.Stores.{run_store}
use wasm_sandboxing.Interp.Ops.Vectors.{run_vector}
use wasm_sandboxing.Interp.Opcode.{
  Opcode, flow, stack, var, call, load, store, atomic_load, atomic_store, cmpxchg, i32, i64, f32,
  f64, convert, rotate, lane, simd_int, shift, bitwise, truth, simd_eq, simd_order, simd_float,
  memory, vector, never, rmw,
}
use wasm_sandboxing.Interp.Decode.{read_opcode}

-- `WABT_UNREACHABLE`
abbrev pub abort : {A : Type 0} → M A
abort t = (State.aborted, t)

-- The `switch`.
unfoldable pub run_opcode : Host → Opcode → M (Unit {0})
unfolding run_flow run_stack run_var run_call run_load run_store run_atomic_load run_atomic_store
    run_cmpxchg run_rmw run_memory run_i32 run_i64 run_f32 run_f64 run_convert run_rotate run_lane
    run_simd_int run_shift run_bitwise run_truth run_simd_eq run_simd_order run_simd_float
    run_vector
run_opcode host (flow o) = run_flow o
run_opcode host (stack o) = run_stack o
run_opcode host (var o) = run_var o
run_opcode host (call o) = run_call host o
run_opcode host (load o) = run_load o
run_opcode host (store o) = run_store o
run_opcode host (atomic_load o) = run_atomic_load o
run_opcode host (atomic_store o) = run_atomic_store o
run_opcode host (cmpxchg o) = run_cmpxchg o
run_opcode host (rmw func size) = run_rmw func size
run_opcode host (memory o) = run_memory o
run_opcode host (i32 o) = run_i32 host o
run_opcode host (i64 o) = run_i64 host o
run_opcode host (f32 o) = run_f32 host o
run_opcode host (f64 o) = run_f64 host o
run_opcode host (convert o) = run_convert host o
run_opcode host (rotate o) = run_rotate o
run_opcode host (lane o) = run_lane o
run_opcode host (simd_int o) = run_simd_int o
run_opcode host (shift o) = run_shift o
run_opcode host (bitwise o) = run_bitwise o
run_opcode host (truth o) = run_truth o
run_opcode host (simd_eq o) = run_simd_eq host o
run_opcode host (simd_order o) = run_simd_order host o
run_opcode host (simd_float o) = run_simd_float host o
run_opcode host (vector o) = run_vector host.beyond_array o
run_opcode host (never o) = abort

abbrev pub run_valid : Host → Option Opcode → M (Unit {0})
run_valid host none = abort
run_valid host (some opcode) = run_opcode host opcode

-- A round of the loop.
unfoldable pub instruction : Host → M (Unit {0})
unfolding read_opcode run_opcode
instruction host = do opcode ← read_opcode; run_valid host opcode

unfoldable pub instructions : Host → ℕ → M (Unit {0})
unfolding instruction
instructions host zero = pure tt
instructions host (suc n) = do instruction host; instructions host n

-- The local `pc` is saved in `pc_` at the end of the loop and on `Return`; a trap leaves `pc_` as
-- it was when the call began.
abbrev pub exit_loop : ℕ → Flow (Unit {0}) × Thread → Flow Result × Thread
exit_loop saved (next x, t) = (next ok, t)
exit_loop saved (stop returned, t) = (next returned, t)
exit_loop saved (stop r, t) = (next r, record t { pc = saved })
exit_loop saved (State.aborted, t) = (State.aborted, t)

unfoldable pub run : Host → ℕ → M Result
unfolding instructions
run host num_instructions t = exit_loop t.pc (instructions host num_instructions t)

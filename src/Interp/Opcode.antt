-- ===== src/Interp/Opcode.antt =====
-- The opcodes (src/opcode.h, src/opcode.def), by the family of `Thread::Run` that executes them.
pub mod Core
pub mod Math
pub mod Simd
pub mod Threads
use wasm_sandboxing.Interp.Control.{FlowOp, StackOp, VarOp}
use wasm_sandboxing.Interp.Calls.{CallOp}
use wasm_sandboxing.Interp.Ops.Atomics.{AtomicLoadOp, AtomicStoreOp}
use wasm_sandboxing.Interp.Ops.Bitwise.{BitwiseOp, TruthOp}
use wasm_sandboxing.Interp.Ops.Cmpxchg.{CmpxchgOp}
use wasm_sandboxing.Interp.Ops.Convert.{ConvertOp}
use wasm_sandboxing.Interp.Ops.F32.{F32Op}
use wasm_sandboxing.Interp.Ops.F64.{F64Op}
use wasm_sandboxing.Interp.Ops.I32.{I32Op}
use wasm_sandboxing.Interp.Ops.I64.{I64Op}
use wasm_sandboxing.Interp.Ops.Lanes.{LaneOp}
use wasm_sandboxing.Interp.Ops.Loads.{LoadOp}
use wasm_sandboxing.Interp.Ops.Rmw.{MemoryOp, RmwFunc, RmwSize}
use wasm_sandboxing.Interp.Ops.Rotate.{RotateOp}
use wasm_sandboxing.Interp.Ops.Shifts.{ShiftOp}
use wasm_sandboxing.Interp.Ops.SimdCompare.{SimdEqOp, SimdOrderOp}
use wasm_sandboxing.Interp.Ops.SimdFloats.{SimdFloatOp}
use wasm_sandboxing.Interp.Ops.SimdInts.{SimdIntOp}
use wasm_sandboxing.Interp.Ops.Stores.{StoreOp}
use wasm_sandboxing.Interp.Ops.Vectors.{VectorOp}

-- The opcodes that are never generated or never executed.
pub data NeverOp : Type 0 where
  block_ catch_ else_ end_ if_ if_except interp_data loop_ rethrow_ throw_ try_ : NeverOp

pub data Opcode : Type 0 where
  flow : FlowOp → Opcode
  stack : StackOp → Opcode
  var : VarOp → Opcode
  call : CallOp → Opcode
  load : LoadOp → Opcode
  store : StoreOp → Opcode
  atomic_load : AtomicLoadOp → Opcode
  atomic_store : AtomicStoreOp → Opcode
  cmpxchg : CmpxchgOp → Opcode
  i32 : I32Op → Opcode
  i64 : I64Op → Opcode
  f32 : F32Op → Opcode
  f64 : F64Op → Opcode
  convert : ConvertOp → Opcode
  rotate : RotateOp → Opcode
  lane : LaneOp → Opcode
  simd_int : SimdIntOp → Opcode
  shift : ShiftOp → Opcode
  bitwise : BitwiseOp → Opcode
  truth : TruthOp → Opcode
  simd_eq : SimdEqOp → Opcode
  simd_order : SimdOrderOp → Opcode
  simd_float : SimdFloatOp → Opcode
  memory : MemoryOp → Opcode
  vector : VectorOp → Opcode
  never : NeverOp → Opcode
  rmw : RmwFunc → RmwSize → Opcode

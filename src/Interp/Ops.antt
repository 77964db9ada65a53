-- ===== src/Interp/Ops.antt =====
-- The families of instructions that `Thread::Run` of src/interp.cc tells apart.
pub mod Atomics
pub mod Bitwise
pub mod Cmpxchg
pub mod Convert
pub mod F32
pub mod F64
pub mod I32
pub mod I64
pub mod Lanes
pub mod Loads
pub mod Rmw
pub mod Rotate
pub mod Shifts
pub mod SimdCompare
pub mod SimdFloats
pub mod SimdInts
pub mod Stores
pub mod Vectors

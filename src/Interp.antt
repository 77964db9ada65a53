-- ===== src/Interp.antt =====
-- The interpreter (src/interp.h, src/interp.cc) and the table of opcodes it decodes with.
pub mod State
pub mod Host
pub mod Ints
pub mod Floats
pub mod Memory
pub mod Operators
pub mod Compare
pub mod Lanewise
pub mod Control
pub mod Calls
pub mod Ops
pub mod Opcode
pub mod Decode
pub mod Emit
pub mod Reader
pub mod Run
pub mod Executor
mod Runs

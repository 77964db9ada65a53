-- ===== src/TypeChecker.antt =====
-- The operand and control stacks of src/type-checker.cc.
pub mod State
pub mod Check
pub mod Ops
pub mod Simple
pub mod Calls
pub mod Frame
pub mod Bounded
pub mod Pops
pub mod Blocks
mod Runs

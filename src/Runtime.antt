-- ===== src/Runtime.antt =====
-- The runtime that is linked with a sandboxed module: wasm2c/wasm-rt-impl.cpp.
pub mod Memory
pub mod Layout
pub mod FuncTypes
pub mod FuncTable
mod Runs

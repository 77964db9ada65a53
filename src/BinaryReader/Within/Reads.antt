-- ===== src/BinaryReader/Within/Reads.antt =====
-- The reads of texts, types and limits stay within the section (src/binary-reader.cc).
use wasm_sandboxing.Base.{ℕ, Bool}
use wasm_sandboxing.BinaryReader.State.{Counts}
use wasm_sandboxing.BinaryReader.Read.{
  check_count, read_count_into, read_t, read_opcode, read_str, read_bytes, read_count,
  is_concrete_type, is_block_type, read_concrete_type, read_table_max, read_table, read_memory_max,
  read_memory, read_global_header, read_exception_type,
}
use wasm_sandboxing.BinaryReader.Within.Primitives.{Safe-weaken, steps, read_t-Safe}
use wasm_sandboxing.BinaryReader.Within.{Safe, Safe-bind}

module _ (n : ℕ) where
  pub read_opcode-moves : Safe n 1 read_opcode
  unfolding read_opcode
  read_opcode-moves = Safe-bind n 1 (read_t 1) _ (read_t-Safe n 1) (λ value. search steps)

  pub read_opcode-Safe : Safe n 0 read_opcode
  read_opcode-Safe = Safe-weaken n 1 read_opcode read_opcode-moves

  pub read_str-Safe : Safe n 0 read_str
  unfolding read_str
  read_str-Safe = search steps

  pub read_bytes-Safe : Safe n 0 read_bytes
  unfolding read_bytes
  read_bytes-Safe = search steps

  check_count-Safe : (count : ℕ) → Safe n 0 (check_count count)
  unfolding check_count
  check_count-Safe count = search steps

  pub read_count-Safe : Safe n 0 read_count
  unfolding read_count
  read_count-Safe = search (steps, check_count-Safe)

  pub read_count_into-Safe : (store : ℕ → Counts → Counts) → Safe n 0 (read_count_into store)
  unfolding read_count_into
  read_count_into-Safe store = search (steps, check_count-Safe)

  pub is_concrete_type-Safe : (t : ℕ) → Safe n 0 (is_concrete_type t)
  unfolding is_concrete_type
  is_concrete_type-Safe t = search steps

  pub is_block_type-Safe : (t : ℕ) → Safe n 0 (is_block_type t)
  unfolding is_block_type
  is_block_type-Safe t = search (steps, is_concrete_type-Safe)

  pub read_concrete_type-Safe : Safe n 0 read_concrete_type
  unfolding read_concrete_type
  read_concrete_type-Safe = search (steps, is_concrete_type-Safe)

  read_table_max-Safe : (b : Bool) (i : ℕ) → Safe n 0 (read_table_max b i)
  unfolding read_table_max
  read_table_max-Safe b i = search steps

  pub read_table-Safe : Safe n 0 read_table
  unfolding read_table
  read_table-Safe = search (steps, read_table_max-Safe) depth 16

  read_memory_max-Safe : (b : Bool) (i : ℕ) → Safe n 0 (read_memory_max b i)
  unfolding read_memory_max
  read_memory_max-Safe b i = search steps

  pub read_memory-Safe : Safe n 0 read_memory
  unfolding read_memory
  read_memory-Safe = search (steps, read_memory_max-Safe) depth 16

  pub read_global_header-Safe : Safe n 0 read_global_header
  unfolding read_global_header
  read_global_header-Safe = search (steps, read_concrete_type-Safe)

  pub read_exception_type-Safe : Safe n 0 read_exception_type
  unfolding read_exception_type
  read_exception_type-Safe = search (steps, read_count-Safe, read_concrete_type-Safe)

pub ruleset reads = (
  steps, read_opcode-Safe, read_str-Safe, read_bytes-Safe, read_count-Safe, read_count_into-Safe,
  is_concrete_type-Safe, is_block_type-Safe, read_concrete_type-Safe, read_table-Safe,
  read_memory-Safe, read_global_header-Safe, read_exception_type-Safe,
)

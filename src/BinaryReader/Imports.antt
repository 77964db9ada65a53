-- ===== src/BinaryReader/Imports.antt =====
-- The import section (src/binary-reader.cc).
use wasm_sandboxing.Base.{ℕ, ◌+◌, ◌%◌, ◌^◌, ltb, ◌==◌, if◌then◌else◌}
use wasm_sandboxing.BinaryReader.State
use wasm_sandboxing.BinaryReader.State.{
  ◌>>=◌, ◌>>◌, Text, M, pure, error_unless, callback, get_counts, set_counts, get_options, repeat,
  on_count,
}
use wasm_sandboxing.BinaryReader.Read.{
  read_u8, read_t, read_u32_leb, read_index, read_str, read_count_into, read_table, read_memory,
  read_global_header, read_exception_type,
}
use wasm_sandboxing.BinaryReader.Subsections.{bracketed}

abbrev pub add32 : ℕ → ℕ → ℕ
add32 a b = (a + b) % 2 ^ 32

unfoldable pub read_import_func : ℕ → Text → Text → M (Unit {0})
unfolding read_u32_leb get_counts error_unless callback set_counts
read_import_func i module_name field_name = do
  sig_index ← read_index
  counts ← get_counts
  error_unless (ltb sig_index counts.num_signatures)
  callback (State.on_import i module_name field_name)
  callback (State.on_import_func i module_name field_name counts.num_func_imports sig_index)
  set_counts (λ c. record c { num_func_imports = add32 c.num_func_imports 1 })

unfoldable pub read_import_table : ℕ → Text → Text → M (Unit {0})
unfolding read_table get_counts callback set_counts
read_import_table i module_name field_name = do
  (elem_type, limits) ← read_table
  callback (State.on_import i module_name field_name)
  counts ← get_counts
  callback
      (State.on_import_table i module_name field_name counts.num_table_imports elem_type limits)
  set_counts (λ c. record c { num_table_imports = add32 c.num_table_imports 1 })

unfoldable pub read_import_memory : ℕ → Text → Text → M (Unit {0})
unfolding read_memory get_counts callback set_counts
read_import_memory i module_name field_name = do
  page_limits ← read_memory
  callback (State.on_import i module_name field_name)
  counts ← get_counts
  callback (State.on_import_memory i module_name field_name counts.num_memory_imports page_limits)
  set_counts (λ c. record c { num_memory_imports = add32 c.num_memory_imports 1 })

unfoldable pub read_import_global : ℕ → Text → Text → M (Unit {0})
unfolding read_global_header get_counts callback set_counts
read_import_global i module_name field_name = do
  (type, mutable_) ← read_global_header
  callback (State.on_import i module_name field_name)
  counts ← get_counts
  callback (State.on_import_global i module_name field_name counts.num_global_imports type mutable_)
  set_counts (λ c. record c { num_global_imports = add32 c.num_global_imports 1 })

unfoldable pub read_import_exception : ℕ → Text → Text → M (Unit {0})
unfolding get_options error_unless read_exception_type get_counts callback set_counts
read_import_exception i module_name field_name = do
  options ← get_options
  error_unless options.features.exceptions
  sig ← read_exception_type
  callback (State.on_import i module_name field_name)
  counts ← get_counts
  callback (State.on_import_exception i module_name field_name counts.num_exception_imports sig)
  set_counts (λ c. record c { num_exception_imports = add32 c.num_exception_imports 1 })

-- The `switch` has no case for a kind above 4, and no default.
unfoldable pub read_import_item : ℕ → ℕ → Text → Text → M (Unit {0})
unfolding read_import_func read_import_table read_import_memory read_import_global
    read_import_exception
read_import_item kind i module_name field_name =
    if kind == 0
    then read_import_func i module_name field_name
    else if kind == 1
    then read_import_table i module_name field_name
    else if kind == 2
    then read_import_memory i module_name field_name
    else if kind == 3
    then read_import_global i module_name field_name
    else if kind == 4
    then read_import_exception i module_name field_name
    else pure tt

unfoldable pub read_import : ℕ → M (Unit {0})
unfolding read_str read_t read_import_item
read_import i = do
  module_name ← read_str
  field_name ← read_str
  kind ← read_u8
  read_import_item kind i module_name field_name

unfoldable pub read_import_section : ℕ → M (Unit {0})
unfolding bracketed read_count_into callback repeat read_import
read_import_section section_size = bracketed State.import_ section_size (do
  num_imports ← read_count_into (λ n c. record c { num_imports = n })
  callback (on_count State.imports num_imports)
  repeat 0 num_imports read_import)

-- ===== src/BinaryReader/Sections.antt =====
-- The known sections of a module but for the imports (src/binary-reader.cc).
use wasm_sandboxing.Base.{
  ℕ, zero, suc, ◌+◌, ◌-◌, ◌%◌, ◌^◌, Bool, true, false, ◌||◌, ltb, leb, ◌==◌, if◌then◌else◌,
}
use wasm_sandboxing.BinaryReader.State
use wasm_sandboxing.BinaryReader.State.{
  ◌>>=◌, ◌>>◌, M, pure, ok, error_unless, callback, get_counts, set_counts, get_options, repeat,
  collect, on_count, Counts,
}
use wasm_sandboxing.BinaryReader.Read.{
  read_u8, read_t, read_u32_leb, read_type, read_index, read_str, read_bytes, read_count,
  read_count_into, read_s32_leb, read_concrete_type, read_table, read_memory, read_global_header,
  type_func, num_total_funcs, num_total_tables, num_total_memories, num_total_globals,
}
use wasm_sandboxing.BinaryReader.Body.{read_function_body}
use wasm_sandboxing.BinaryReader.Init.{read_init_expr}
use wasm_sandboxing.BinaryReader.Subsections.{bracketed}
use wasm_sandboxing.BinaryReader.Imports.{add32}

unfoldable pub read_signature : ℕ → M (Unit {0})
unfolding read_s32_leb error_unless read_count collect read_concrete_type get_options callback
read_signature i = do
  form ← read_type
  error_unless (form == type_func)
  num_params ← read_count
  param_types ← collect num_params read_concrete_type
  num_results ← read_count
  options ← get_options
  error_unless (leb num_results 1 || options.features.multi_value)
  result_types ← collect num_results read_concrete_type
  callback (State.on_type i param_types result_types)

unfoldable pub read_type_section : ℕ → M (Unit {0})
unfolding bracketed read_count_into callback repeat read_signature
read_type_section section_size = bracketed State.type_ section_size (do
  num_signatures ← read_count_into (λ n c. record c { num_signatures = n })
  callback (on_count State.types num_signatures)
  repeat 0 num_signatures read_signature)

unfoldable pub read_function : ℕ → M (Unit {0})
unfolding read_u32_leb get_counts error_unless callback
read_function i = do
  sig_index ← read_index
  counts ← get_counts
  error_unless (ltb sig_index counts.num_signatures)
  callback (State.on_function (add32 counts.num_func_imports i) sig_index)

unfoldable pub read_function_section : ℕ → M (Unit {0})
unfolding bracketed read_count_into callback repeat read_function
read_function_section section_size = bracketed State.function_ section_size (do
  count ← read_count_into (λ n c. record c { num_function_signatures = n })
  callback (on_count State.functions count)
  repeat 0 count read_function)

unfoldable pub read_table_item : ℕ → M (Unit {0})
unfolding read_table get_counts callback
read_table_item i = do
  (elem_type, limits) ← read_table
  counts ← get_counts
  callback (State.on_table (add32 counts.num_table_imports i) elem_type limits)

unfoldable pub read_table_section : ℕ → M (Unit {0})
unfolding bracketed read_count_into error_unless callback repeat read_table_item
read_table_section section_size = bracketed State.table_ section_size (do
  num_tables ← read_count_into (λ n c. record c { num_tables = n })
  error_unless (leb num_tables 1)
  callback (on_count State.tables num_tables)
  repeat 0 num_tables read_table_item)

unfoldable pub read_memory_item : ℕ → M (Unit {0})
unfolding read_memory get_counts callback
read_memory_item i = do
  page_limits ← read_memory
  counts ← get_counts
  callback (State.on_memory (add32 counts.num_memory_imports i) page_limits)

unfoldable pub read_memory_section : ℕ → M (Unit {0})
unfolding bracketed read_count_into error_unless callback repeat read_memory_item
read_memory_section section_size = bracketed State.memory_ section_size (do
  num_memories ← read_count_into (λ n c. record c { num_memories = n })
  error_unless (leb num_memories 1)
  callback (on_count State.memories num_memories)
  repeat 0 num_memories read_memory_item)

unfoldable pub read_global : ℕ → M (Unit {0})
unfolding get_counts read_global_header callback read_init_expr
read_global i = do
  counts ← get_counts
  let global_index = add32 counts.num_global_imports i
  (global_type, mutable_) ← read_global_header
  callback (State.begin_global global_index global_type mutable_)
  callback (State.begin_global_init_expr global_index)
  read_init_expr global_index false
  callback (State.end_global_init_expr global_index)
  callback (State.end_global global_index)

unfoldable pub read_global_section : ℕ → M (Unit {0})
unfolding bracketed read_count_into callback repeat read_global
read_global_section section_size = bracketed State.global_ section_size (do
  num_globals ← read_count_into (λ n c. record c { num_globals = n })
  callback (on_count State.globals num_globals)
  repeat 0 num_globals read_global)

-- What an exported item's kind asks of its index.
abbrev pub is_exportable : Bool → Counts → ℕ → ℕ → Bool
is_exportable exceptions counts kind item_index =
    if kind == 0
    then ltb item_index (num_total_funcs counts)
    else if kind == 1
    then ltb item_index (num_total_tables counts)
    else if kind == 2
    then ltb item_index (num_total_memories counts)
    else if kind == 3
    then ltb item_index (num_total_globals counts)
    else exceptions

unfoldable pub read_export : ℕ → M (Unit {0})
unfolding read_str read_t error_unless read_u32_leb get_counts get_options callback
read_export i = do
  name ← read_str
  kind ← read_u8
  error_unless (ltb kind 5)
  item_index ← read_index
  counts ← get_counts
  options ← get_options
  error_unless (is_exportable options.features.exceptions counts kind item_index)
  callback (State.on_export i kind item_index name)

unfoldable pub read_export_section : ℕ → M (Unit {0})
unfolding bracketed read_count_into callback repeat read_export
read_export_section section_size = bracketed State.export_ section_size (do
  num_exports ← read_count_into (λ n c. record c { num_exports = n })
  callback (on_count State.exports num_exports)
  repeat 0 num_exports read_export)

unfoldable pub read_start_section : ℕ → M (Unit {0})
unfolding bracketed read_u32_leb get_counts error_unless callback
read_start_section section_size = bracketed State.start_ section_size (do
  func_index ← read_index
  counts ← get_counts
  error_unless (ltb func_index (num_total_funcs counts))
  callback (State.on_start_function func_index))

unfoldable pub read_elem_function : ℕ → M (Unit {0})
unfolding read_u32_leb callback
read_elem_function i = do
  func_index ← read_index
  callback (State.on_elem_segment_function_index i func_index)

unfoldable pub read_elem_segment : ℕ → M (Unit {0})
unfolding read_u32_leb callback read_init_expr read_count repeat read_elem_function
read_elem_segment i = do
  table_index ← read_index
  callback (State.begin_elem_segment i table_index)
  callback (State.begin_elem_segment_init_expr i)
  read_init_expr i true
  callback (State.end_elem_segment_init_expr i)
  num_function_indexes ← read_count
  callback (State.on_elem_segment_function_index_count i num_function_indexes)
  repeat 0 num_function_indexes (λ j. read_elem_function i)
  callback (State.end_elem_segment i)

unfoldable pub read_elem_section : ℕ → M (Unit {0})
unfolding bracketed read_count callback get_counts error_unless repeat read_elem_segment
read_elem_section section_size = bracketed State.elem_ section_size (do
  num_elem_segments ← read_count
  callback (on_count State.elem_segments num_elem_segments)
  counts ← get_counts
  error_unless (num_elem_segments == 0 || ltb 0 (num_total_tables counts))
  repeat 0 num_elem_segments read_elem_segment)

-- The declarations of locals from the `k`-th on, `n` of them, after a total of locals.
unfoldable pub read_local_decls : ℕ → ℕ → ℕ → M (Unit {0})
unfolding read_u32_leb error_unless read_concrete_type callback
read_local_decls k zero total_locals = pure tt
read_local_decls k (suc n) total_locals = do
  num_local_types ← read_index
  error_unless (ltb 0 num_local_types)
  let total = (total_locals + num_local_types) % 2 ^ 64
  error_unless (ltb total (2 ^ 32 - 1))
  local_type ← read_concrete_type
  callback (State.on_local_decl k num_local_types local_type)
  read_local_decls (k + 1) n total

abbrev pub end_after : ℕ → M ℕ
end_after body_size r = (ok (r.offset + body_size), r)

unfoldable pub read_body : ℕ → ℕ → M (Unit {0})
unfolding get_counts callback read_u32_leb read_count read_local_decls read_function_body
read_body fuel i = do
  counts ← get_counts
  let func_index = add32 counts.num_func_imports i
  callback (State.begin_function_body func_index)
  body_size ← read_u32_leb
  end_offset ← end_after body_size
  num_local_decls ← read_count
  callback (on_count State.local_decls num_local_decls)
  read_local_decls 0 num_local_decls 0
  read_function_body fuel end_offset
  callback (State.end_function_body func_index)

unfoldable pub read_code_section : ℕ → ℕ → M (Unit {0})
unfolding bracketed read_count_into get_counts error_unless callback repeat read_body
read_code_section fuel section_size = bracketed State.code_ section_size (do
  num_function_bodies ← read_count_into (λ n c. record c { num_function_bodies = n })
  counts ← get_counts
  error_unless (counts.num_function_signatures == num_function_bodies)
  callback (on_count State.function_bodies num_function_bodies)
  repeat 0 num_function_bodies (read_body fuel))

unfoldable pub read_data_segment : ℕ → M (Unit {0})
unfolding read_u32_leb callback read_init_expr read_bytes
read_data_segment i = do
  memory_index ← read_index
  callback (State.begin_data_segment i memory_index)
  callback (State.begin_data_segment_init_expr i)
  read_init_expr i true
  callback (State.end_data_segment_init_expr i)
  bytes ← read_bytes
  callback (State.on_data_segment_data i bytes)
  callback (State.end_data_segment i)

unfoldable pub read_data_section : ℕ → M (Unit {0})
unfolding bracketed read_count callback get_counts error_unless repeat read_data_segment
read_data_section section_size = bracketed State.data_ section_size (do
  num_data_segments ← read_count
  callback (on_count State.data_segments num_data_segments)
  counts ← get_counts
  error_unless (num_data_segments == 0 || ltb 0 (num_total_memories counts))
  repeat 0 num_data_segments read_data_segment)

-- ===== src/BinaryReader/Within/Sections.antt =====
-- The known sections stay within the section (src/binary-reader.cc).
use wasm_sandboxing.Base.{ℕ, zero, suc, ◌+◌}
use wasm_sandboxing.BinaryReader.State.{Text}
use wasm_sandboxing.BinaryReader.Sections.{
  read_signature, read_type_section, read_function, read_function_section, read_table_item,
  read_table_section, read_memory_item, read_memory_section, read_global, read_global_section,
  read_export, read_export_section, read_start_section, read_elem_function, read_elem_segment,
  read_elem_section, read_local_decls, read_body, read_code_section, read_data_segment,
  read_data_section, end_after,
}
use wasm_sandboxing.BinaryReader.Imports.{
  read_import_func, read_import_table, read_import_memory, read_import_global,
  read_import_exception, read_import_item, read_import, read_import_section,
}
use wasm_sandboxing.BinaryReader.Within.{Safe}
use wasm_sandboxing.BinaryReader.Within.Primitives.{steps, asks-Safe}
use wasm_sandboxing.BinaryReader.Within.Reads.{reads}
use wasm_sandboxing.BinaryReader.Within.Body.{read_init_expr-Safe, read_function_body-Safe}
use wasm_sandboxing.BinaryReader.Within.Names.{bracketed-Safe}

ruleset sections = (reads, bracketed-Safe)

module _ (n : ℕ) where
  read_signature-Safe : (i : ℕ) → Safe n 0 (read_signature i)
  unfolding read_signature
  read_signature-Safe i = search (sections) depth 20

  pub read_type_section-Safe : (size : ℕ) → Safe n 0 (read_type_section size)
  unfolding read_type_section
  read_type_section-Safe size = search (sections, read_signature-Safe) depth 20

  read_import_func-Safe : (i : ℕ) (m : Text) (f : Text) → Safe n 0 (read_import_func i m f)
  unfolding read_import_func
  read_import_func-Safe i m f = search (sections) depth 20

  read_import_table-Safe : (i : ℕ) (m : Text) (f : Text) → Safe n 0 (read_import_table i m f)
  unfolding read_import_table
  read_import_table-Safe i m f = search (sections) depth 20

  read_import_memory-Safe : (i : ℕ) (m : Text) (f : Text) → Safe n 0 (read_import_memory i m f)
  unfolding read_import_memory
  read_import_memory-Safe i m f = search (sections) depth 20

  read_import_global-Safe : (i : ℕ) (m : Text) (f : Text) → Safe n 0 (read_import_global i m f)
  unfolding read_import_global
  read_import_global-Safe i m f = search (sections) depth 20

  read_import_exception-Safe :
      (i : ℕ) (m : Text) (f : Text) → Safe n 0 (read_import_exception i m f)
  unfolding read_import_exception
  read_import_exception-Safe i m f = search (sections) depth 20

  read_import_item-Safe :
      (kind : ℕ) (i : ℕ) (m : Text) (f : Text) → Safe n 0 (read_import_item kind i m f)
  unfolding read_import_item
  read_import_item-Safe kind i m f =
      search
        (
          sections, read_import_func-Safe, read_import_table-Safe, read_import_memory-Safe,
          read_import_global-Safe, read_import_exception-Safe,
        )
        depth 20

  read_import-Safe : (i : ℕ) → Safe n 0 (read_import i)
  unfolding read_import
  read_import-Safe i = search (sections, read_import_item-Safe) depth 20

  pub read_import_section-Safe : (size : ℕ) → Safe n 0 (read_import_section size)
  unfolding read_import_section
  read_import_section-Safe size = search (sections, read_import-Safe) depth 20

  read_function-Safe : (i : ℕ) → Safe n 0 (read_function i)
  unfolding read_function
  read_function-Safe i = search (sections) depth 20

  pub read_function_section-Safe : (size : ℕ) → Safe n 0 (read_function_section size)
  unfolding read_function_section
  read_function_section-Safe size = search (sections, read_function-Safe) depth 20

  read_table_item-Safe : (i : ℕ) → Safe n 0 (read_table_item i)
  unfolding read_table_item
  read_table_item-Safe i = search (sections) depth 20

  pub read_table_section-Safe : (size : ℕ) → Safe n 0 (read_table_section size)
  unfolding read_table_section
  read_table_section-Safe size = search (sections, read_table_item-Safe) depth 20

  read_memory_item-Safe : (i : ℕ) → Safe n 0 (read_memory_item i)
  unfolding read_memory_item
  read_memory_item-Safe i = search (sections) depth 20

  pub read_memory_section-Safe : (size : ℕ) → Safe n 0 (read_memory_section size)
  unfolding read_memory_section
  read_memory_section-Safe size = search (sections, read_memory_item-Safe) depth 20

  read_global-Safe : (i : ℕ) → Safe n 0 (read_global i)
  unfolding read_global
  read_global-Safe i = search (sections, read_init_expr-Safe) depth 20

  pub read_global_section-Safe : (size : ℕ) → Safe n 0 (read_global_section size)
  unfolding read_global_section
  read_global_section-Safe size = search (sections, read_global-Safe) depth 20

  read_export-Safe : (i : ℕ) → Safe n 0 (read_export i)
  unfolding read_export
  read_export-Safe i = search (sections) depth 20

  pub read_export_section-Safe : (size : ℕ) → Safe n 0 (read_export_section size)
  unfolding read_export_section
  read_export_section-Safe size = search (sections, read_export-Safe) depth 20

  pub read_start_section-Safe : (size : ℕ) → Safe n 0 (read_start_section size)
  unfolding read_start_section
  read_start_section-Safe size = search (sections) depth 20

  read_elem_function-Safe : (i : ℕ) → Safe n 0 (read_elem_function i)
  unfolding read_elem_function
  read_elem_function-Safe i = search (sections) depth 20

  read_elem_segment-Safe : (i : ℕ) → Safe n 0 (read_elem_segment i)
  unfolding read_elem_segment
  read_elem_segment-Safe i =
      search (sections, read_init_expr-Safe, read_elem_function-Safe) depth 20

  pub read_elem_section-Safe : (size : ℕ) → Safe n 0 (read_elem_section size)
  unfolding read_elem_section
  read_elem_section-Safe size = search (sections, read_elem_segment-Safe) depth 20

  read_local_decls-Safe : (k rounds total : ℕ) → Safe n 0 (read_local_decls k rounds total)
  unfolding read_local_decls
  read_local_decls-Safe k zero total = search steps
  read_local_decls-Safe k (suc rounds) total =
      search (sections, read_local_decls-Safe (k + 1) rounds) depth 20

  end_after-Safe : (size : ℕ) → Safe n 0 (end_after size)
  end_after-Safe size = asks-Safe n _

  read_body-Safe : (i : ℕ) → Safe n 0 (read_body (suc n) i)
  unfolding read_body
  read_body-Safe i =
      search (sections, end_after-Safe, read_local_decls-Safe, read_function_body-Safe) depth 20

  pub read_code_section-Safe : (size : ℕ) → Safe n 0 (read_code_section (suc n) size)
  unfolding read_code_section
  read_code_section-Safe size = search (sections, read_body-Safe) depth 20

  read_data_segment-Safe : (i : ℕ) → Safe n 0 (read_data_segment i)
  unfolding read_data_segment
  read_data_segment-Safe i = search (sections, read_init_expr-Safe) depth 20

  pub read_data_section-Safe : (size : ℕ) → Safe n 0 (read_data_section size)
  unfolding read_data_section
  read_data_section-Safe size = search (sections, read_data_segment-Safe) depth 20

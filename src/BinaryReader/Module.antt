-- ===== src/BinaryReader/Module.antt =====
-- `ReadSections` and `ReadModule` (src/binary-reader.cc).
use wasm_sandboxing.Base.{
  ℕ, zero, suc, ◌+◌, Bool, true, false, ◌&&◌, ◌||◌, not, Option, none, some, List, [], ltb, leb,
  ◌==◌, if◌then◌else◌, length,
}
use wasm_sandboxing.BinaryReader.State
use wasm_sandboxing.BinaryReader.State.{
  Reader, M, Outcome, ◌>>=◌, ◌>>◌, pure, ok, failed, no_fuel, error_unless, answered, callback,
  fail, begin_section, Call, Options, Counts, get_options, with_read_end,
}
use wasm_sandboxing.BinaryReader.Read.{read_t, read_u32, read_u32_leb, read_offset}
use wasm_sandboxing.BinaryReader.Names.{read_custom_section}
use wasm_sandboxing.BinaryReader.Subsections.{at_end, skip_to_end}
use wasm_sandboxing.BinaryReader.Sections.{
  read_type_section, read_function_section, read_table_section, read_memory_section,
  read_global_section, read_export_section, read_start_section, read_elem_section,
  read_code_section, read_data_section,
}
use wasm_sandboxing.BinaryReader.Imports.{read_import_section}

-- The section with a given code, which is below 12.
unfoldable pub read_section : ℕ → ℕ → ℕ → M (Unit {0})
unfolding read_custom_section read_type_section read_import_section read_function_section
    read_table_section read_memory_section read_global_section read_export_section
    read_start_section read_elem_section read_code_section read_data_section
read_section fuel section section_size =
    if section == 0
    then read_custom_section fuel section_size
    else if section == 1
    then read_type_section section_size
    else if section == 2
    then read_import_section section_size
    else if section == 3
    then read_function_section section_size
    else if section == 4
    then read_table_section section_size
    else if section == 5
    then read_memory_section section_size
    else if section == 6
    then read_global_section section_size
    else if section == 7
    then read_export_section section_size
    else if section == 8
    then read_start_section section_size
    else if section == 9
    then read_elem_section section_size
    else if section == 10
    then read_code_section fuel section_size
    else read_data_section section_size

abbrev pub caught : Outcome (Unit {0}) × Reader → Outcome Bool × Reader
caught (ok x, r) = (ok true, r)
caught (failed, r) = (ok false, r)
caught (no_fuel, r) = (no_fuel, r)

-- Whether a method succeeds.
abbrev pub succeeds : M (Unit {0}) → M Bool
succeeds m r = caught (m r)

abbrev pub follows : ℕ → Option ℕ → Bool
follows section none = true
follows section (some last) = section == 0 || ltb last section

unfoldable pub set_last_section : ℕ → M (Unit {0})
set_last_section section r =
    (ok tt, if section == 0 then r else record r { last_known_section = some section })

-- A section whose contents failed: the end of the loop, or a skip to its end.
unfoldable pub after_section : ℕ → Bool → M (Unit {0})
unfolding get_options skip_to_end
after_section section success = do
  options ← get_options
  if success
      then pure tt
      else if options.stop_on_first_error
          && (not (section == 0) || options.fail_on_custom_section_error)
      then (λ r. (failed, r))
      else skip_to_end

-- What the section's outcome adds to `result`.
abbrev pub counts_as : ℕ → Options → Bool → Bool
counts_as section options success =
    success || (section == 0 && not options.fail_on_custom_section_error)

-- What is checked of a section, with `read_end_` at its end.
unfoldable pub section_checks : ℕ → M (Unit {0})
unfolding error_unless
section_checks section r =
    (do
      error_unless (ltb section 12)
      error_unless (leb r.read_end (length r.bytes))
      error_unless (follows section r.last_known_section)
      error_unless (not r.did_read_names_section || section == 0))
      r

-- Whether the contents succeed, at the section's end.
unfoldable pub section_contents : ℕ → ℕ → ℕ → M Bool
unfolding read_section after_section error_unless
section_contents fuel section section_size = do
  success ← succeeds (read_section fuel section section_size)
  after_section section success
  finished ← at_end
  error_unless finished
  pure success

-- What a section adds to `result`.
unfoldable pub section_body : ℕ → ℕ → ℕ → M Bool
unfolding section_checks answered section_contents set_last_section get_options
section_body fuel section section_size = do
  section_checks section
  answered (begin_section section section_size)
  success ← section_contents fuel section section_size
  set_last_section section
  options ← get_options
  pure (counts_as section options success)

abbrev pub end_of_section : ℕ → M ℕ
end_of_section section_size r = (ok (r.offset + section_size), r)

unfoldable pub section_round : ℕ → M Bool
unfolding read_u32_leb section_body with_read_end
section_round fuel = do
  section_code ← read_u32_leb
  section_size ← read_offset
  section_end ← end_of_section section_size
  with_read_end section_end (section_body fuel section_code section_size)

-- Whether all sections succeeded. The fuel of the loops inside is `inner`.
unfoldable pub section_loop : ℕ → ℕ → Bool → M Bool
unfolding section_round
section_loop zero inner result r = (no_fuel, r)
section_loop (suc fuel) inner result r =
    let more = (section_round inner >>= λ success. section_loop fuel inner (result && success)) r in
    if ltb r.offset (length r.bytes) then more else (ok result, r)

abbrev pub returned : Bool → M (Unit {0})
returned true r = (ok tt, r)
returned false r = (failed, r)

unfoldable pub read_sections : ℕ → M (Unit {0})
unfolding section_loop
read_sections fuel = section_loop fuel fuel true >>= returned

abbrev pub magic_number : ℕ
magic_number = 0x6d736100

unfoldable pub read_module : ℕ → M (Unit {0})
unfolding read_t error_unless callback read_sections
read_module fuel = do
  magic ← read_u32
  error_unless (magic == magic_number)
  version ← read_u32
  error_unless (version == 1)
  callback (State.begin_module version)
  read_sections fuel
  callback State.end_module

abbrev no_counts : Counts
no_counts = record {
  num_signatures = 0;
  num_imports = 0;
  num_func_imports = 0;
  num_table_imports = 0;
  num_memory_imports = 0;
  num_global_imports = 0;
  num_exception_imports = 0;
  num_function_signatures = 0;
  num_tables = 0;
  num_memories = 0;
  num_globals = 0;
  num_exports = 0;
  num_function_bodies = 0;
  num_exceptions = 0;
}

-- The constructor.
abbrev pub new_reader : List ℕ → (List Call → Bool) → Options → Reader
new_reader bytes answer options = record {
  bytes = bytes;
  read_end = length bytes;
  offset = 0;
  calls = [];
  answer = answer;
  options = options;
  last_known_section = none;
  did_read_names_section = false;
  reading_custom_section = false;
  counts = no_counts;
}

-- `ReadBinary`: the fuel of every loop is one more than the bytes of the file.
unfoldable pub read_binary : List ℕ → (List Call → Bool) → Options → Outcome (Unit {0}) × Reader
read_binary bytes answer options =
    read_module (suc (length bytes)) (new_reader bytes answer options)

-- ===== src/BinaryReader/Names.antt =====
-- The name section and the choice among the custom sections that `BinaryReader` knows
-- (src/binary-reader.cc). The fuel of a loop over subsections is one more than the bytes of the
-- file.
use wasm_sandboxing.Base.{
  [], ℕ, zero, suc, ◌+◌, ◌-◌, ◌^◌, Bool, true, false, ◌&&◌, ◌||◌, not, ◌∷◌, ltb, leb, ◌==◌,
  if◌then◌else◌,
}
use wasm_sandboxing.BinaryReader.State.{
  ◌>>=◌, ◌>>◌, Text, M, ◌>>=◌, pure, ok, no_fuel, error_unless, callback, get_counts, set_counts,
  get_options, with_custom_section, repeat, on_count, on_module_name_subsection,
  on_function_name_subsection, on_local_name_subsection, on_module_name, on_function_name,
  on_local_name_local_count, on_local_name, on_exception_type, begin_custom_section,
  end_custom_section,
}
use wasm_sandboxing.BinaryReader.State
use wasm_sandboxing.BinaryReader.Read.{
  read_u32_leb, read_index, read_offset, read_str, read_count, read_count_into, read_exception_type,
  num_total_funcs,
}
use wasm_sandboxing.BinaryReader.Subsections.{bracketed, skip_to_end, subsection}
use wasm_sandboxing.BinaryReader.Linking.{read_linking_section, read_reloc_section}

abbrev invalid_index : ℕ
invalid_index = 2 ^ 32 - 1

-- Whether an index is the first or above the last one.
abbrev in_order : ℕ → ℕ → Bool
in_order last index = last == invalid_index || ltb last index

unfoldable pub read_function_names : ℕ → ℕ → M (Unit {0})
unfolding read_u32_leb error_unless get_counts read_str callback
read_function_names zero last_function_index = pure tt
read_function_names (suc n) last_function_index = do
  function_index ← read_index
  error_unless (not (function_index == last_function_index))
  error_unless (in_order last_function_index function_index)
  counts ← get_counts
  error_unless (ltb function_index (num_total_funcs counts))
  function_name ← read_str
  callback (on_function_name function_index function_name)
  read_function_names n function_index

unfoldable pub read_local_names : ℕ → ℕ → ℕ → M (Unit {0})
unfolding read_u32_leb error_unless read_str callback
read_local_names function_index zero last_local_index = pure tt
read_local_names function_index (suc n) last_local_index = do
  local_index ← read_index
  error_unless (not (local_index == last_local_index))
  error_unless (in_order last_local_index local_index)
  local_name ← read_str
  callback (on_local_name function_index local_index local_name)
  read_local_names function_index n local_index

unfoldable pub read_funcs_local_names : ℕ → ℕ → M (Unit {0})
unfolding read_u32_leb error_unless get_counts read_count callback read_local_names
read_funcs_local_names zero last_function_index = pure tt
read_funcs_local_names (suc n) last_function_index = do
  function_index ← read_index
  counts ← get_counts
  error_unless (ltb function_index (num_total_funcs counts))
  error_unless (in_order last_function_index function_index)
  num_locals ← read_count
  callback (on_local_name_local_count function_index num_locals)
  read_local_names function_index num_locals invalid_index
  read_funcs_local_names n function_index

unfoldable pub name_subsection : ℕ → ℕ → ℕ → M (Unit {0})
unfolding callback read_str read_count read_function_names read_funcs_local_names skip_to_end
name_subsection i name_type subsection_size =
    if name_type == 0
    then (do
      callback (on_module_name_subsection i name_type subsection_size)
      if subsection_size == 0
          then pure tt
          else (do name ← read_str; callback (on_module_name name)))
    else if name_type == 1
    then (do
      callback (on_function_name_subsection i name_type subsection_size)
      if subsection_size == 0 then pure tt else (do
        num_names ← read_count
        callback (on_count State.function_names num_names)
        read_function_names num_names invalid_index))
    else if name_type == 2
    then (do
      callback (on_local_name_subsection i name_type subsection_size)
      if subsection_size == 0 then pure tt else (do
        num_funcs ← read_count
        callback (on_count State.local_name_functions num_funcs)
        read_funcs_local_names num_funcs invalid_index))
    else skip_to_end

unfoldable pub name_round : ℕ → ℕ → M ℕ
unfolding read_u32_leb error_unless subsection name_subsection
name_round i previous_subsection_type = do
  name_type ← read_u32_leb
  error_unless (i == 0 || not (name_type == previous_subsection_type))
  error_unless (i == 0 || leb previous_subsection_type name_type)
  subsection_size ← read_offset
  subsection subsection_size (name_subsection i name_type subsection_size)
  pure name_type

unfoldable pub name_loop : ℕ → ℕ → ℕ → M (Unit {0})
unfolding name_round
name_loop zero i previous r = (no_fuel, r)
name_loop (suc fuel) i previous r =
    let more = (name_round i previous >>= λ name_type. name_loop fuel (i + 1) name_type) r in
    if ltb r.offset r.read_end then more else (ok tt, r)

unfoldable pub read_name_section : ℕ → ℕ → M (Unit {0})
unfolding bracketed name_loop
read_name_section fuel section_size = bracketed State.names_ section_size (name_loop fuel 0 0)

unfoldable pub read_exception : ℕ → M (Unit {0})
unfolding read_exception_type callback
read_exception i = do sig ← read_exception_type; callback (on_exception_type i sig)

unfoldable pub read_exception_section : ℕ → M (Unit {0})
unfolding bracketed read_count_into callback repeat read_exception
read_exception_section section_size = bracketed State.exception_ section_size (do
  num_exceptions ← read_count_into (λ n c. record c { num_exceptions = n })
  callback (on_count State.exceptions num_exceptions)
  repeat 0 num_exceptions read_exception)

abbrev eq_text : Text → Text → Bool
eq_text [] [] = true
eq_text [] (y ∷ ys) = false
eq_text (x ∷ xs) [] = false
eq_text (x ∷ xs) (y ∷ ys) = x == y && eq_text xs ys

abbrev is_prefix : Text → Text → Bool
is_prefix [] ys = true
is_prefix (x ∷ xs) [] = false
is_prefix (x ∷ xs) (y ∷ ys) = x == y && is_prefix xs ys

abbrev name_text : Text
name_text = b'n' ∷ b'a' ∷ b'm' ∷ b'e' ∷ []

abbrev reloc_text : Text
reloc_text = b'r' ∷ b'e' ∷ b'l' ∷ b'o' ∷ b'c' ∷ []

abbrev linking_text : Text
linking_text = b'l' ∷ b'i' ∷ b'n' ∷ b'k' ∷ b'i' ∷ b'n' ∷ b'g' ∷ []

abbrev exception_text : Text
exception_text = b'e' ∷ b'x' ∷ b'c' ∷ b'e' ∷ b'p' ∷ b't' ∷ b'i' ∷ b'o' ∷ b'n' ∷ []

unfoldable pub set_did_read_names : M (Unit {0})
set_did_read_names r = (ok tt, record r { did_read_names_section = true })

unfoldable pub custom_contents : ℕ → ℕ → Text → M (Unit {0})
unfolding get_options read_name_section set_did_read_names read_reloc_section read_linking_section
    read_exception_section skip_to_end
custom_contents fuel section_size section_name = do
  options ← get_options
  if options.read_debug_names && eq_text section_name name_text
      then (do read_name_section fuel section_size; set_did_read_names)
      else if is_prefix reloc_text section_name
      then read_reloc_section section_size
      else if eq_text section_name linking_text
      then read_linking_section fuel section_size
      else if options.features.exceptions && eq_text section_name exception_text
      then read_exception_section section_size
      else skip_to_end

unfoldable pub read_custom_section : ℕ → ℕ → M (Unit {0})
unfolding read_str callback with_custom_section custom_contents
read_custom_section fuel section_size = do
  section_name ← read_str
  callback (begin_custom_section section_size section_name)
  with_custom_section
      (do custom_contents fuel section_size section_name; callback end_custom_section)

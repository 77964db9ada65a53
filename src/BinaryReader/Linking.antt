-- ===== src/BinaryReader/Linking.antt =====
-- The relocation and the linking sections (src/binary-reader.cc). The fuel of the loop over
-- subsections is one more than the bytes of the file.
use wasm_sandboxing.Base.{[], ℕ, zero, suc, Bool, ◌||◌, ltb, ◌==◌, if◌then◌else◌, bit_and}
use wasm_sandboxing.BinaryReader.State.{
  ◌>>=◌, ◌>>◌, M, ◌>>◌, pure, ok, no_fuel, error_unless, callback, repeat, on_count, Counted,
  on_reloc_count, on_reloc, on_symbol, on_function_symbol, on_global_symbol, on_data_symbol,
  on_section_symbol, on_segment_info, on_init_function,
}
use wasm_sandboxing.BinaryReader.State
use wasm_sandboxing.BinaryReader.Read.{
  read_u32_leb, read_s32_leb, read_index, read_offset, read_str, read_count,
}
use wasm_sandboxing.BinaryReader.Subsections.{bracketed, skip_to_end, subsection}

abbrev has_addend : ℕ → Bool
has_addend type = type == 3 || type == 4 || type == 5 || type == 8 || type == 9

unfoldable pub read_reloc : M (Unit {0})
unfolding read_u32_leb read_s32_leb callback
read_reloc = do
  reloc_type ← read_u32_leb
  offset ← read_offset
  index ← read_index
  addend ← if has_addend reloc_type then read_s32_leb else pure 0
  callback (on_reloc reloc_type offset index addend)

unfoldable pub read_reloc_section : ℕ → M (Unit {0})
unfolding bracketed read_u32_leb read_count callback repeat read_reloc
read_reloc_section section_size = bracketed State.reloc_ section_size (do
  section_index ← read_u32_leb
  num_relocs ← read_count
  callback (on_reloc_count num_relocs section_index)
  repeat 0 num_relocs (λ i. read_reloc))

abbrev is_defined : ℕ → Bool
is_defined flags = bit_and flags 0x10 == 0

unfoldable pub read_func_or_global_symbol : ℕ → ℕ → ℕ → M (Unit {0})
unfolding read_u32_leb read_str callback
read_func_or_global_symbol i kind flags = do
  index ← read_u32_leb
  name ← if is_defined flags then read_str else pure []
  callback ((if kind == 0 then on_function_symbol else on_global_symbol) i flags name index)

abbrev SymbolPlace : Type 0
SymbolPlace = ℕ × ℕ × ℕ

unfoldable pub read_symbol_place : ℕ → M SymbolPlace
unfolding read_u32_leb
read_symbol_place flags =
    if is_defined flags
    then (do
      segment ← read_u32_leb
      offset ← read_u32_leb
      size ← read_u32_leb
      pure (segment, offset, size))
    else pure (0, 0, 0)

unfoldable pub read_data_symbol : ℕ → ℕ → M (Unit {0})
unfolding read_str read_symbol_place callback
read_data_symbol i flags = do
  name ← read_str
  (segment, offset, size) ← read_symbol_place flags
  callback (on_data_symbol i flags name segment offset size)

-- A kind that is none of the four has nothing more.
unfoldable pub read_symbol : ℕ → M (Unit {0})
unfolding read_u32_leb callback read_func_or_global_symbol read_data_symbol
read_symbol i = do
  kind ← read_u32_leb
  flags ← read_u32_leb
  callback (on_symbol i kind flags)
  if kind == 0 || kind == 2
      then read_func_or_global_symbol i kind flags
      else if kind == 1
      then read_data_symbol i flags
      else if kind == 3
      then (do index ← read_u32_leb; callback (on_section_symbol i flags index))
      else pure tt

unfoldable pub read_segment_info : ℕ → M (Unit {0})
unfolding read_str read_u32_leb callback
read_segment_info i = do
  name ← read_str
  alignment ← read_u32_leb
  flags ← read_u32_leb
  callback (on_segment_info i name alignment flags)

unfoldable pub read_init_function : M (Unit {0})
unfolding read_u32_leb callback
read_init_function = do
  priority ← read_u32_leb
  func ← read_u32_leb
  callback (on_init_function priority func)

-- A count, and as many items.
unfoldable pub counted : Counted → (ℕ → M (Unit {0})) → M (Unit {0})
unfolding read_u32_leb callback repeat
counted what item = do count ← read_u32_leb; callback (on_count what count); repeat 0 count item

unfoldable pub linking_subsection : ℕ → M (Unit {0})
unfolding counted read_symbol read_segment_info read_init_function skip_to_end
linking_subsection linking_type =
    if linking_type == 8
    then counted State.symbols read_symbol
    else if linking_type == 5
    then counted State.segment_infos read_segment_info
    else if linking_type == 6
    then counted State.init_functions (λ i. read_init_function)
    else skip_to_end

unfoldable pub linking_round : M (Unit {0})
unfolding read_u32_leb subsection linking_subsection
linking_round = do
  linking_type ← read_u32_leb
  subsection_size ← read_offset
  subsection subsection_size (linking_subsection linking_type)

unfoldable pub linking_loop : ℕ → M (Unit {0})
unfolding linking_round
linking_loop zero r = (no_fuel, r)
linking_loop (suc fuel) r =
    let more = (linking_round >> linking_loop fuel) r in
    if ltb r.offset r.read_end then more else (ok tt, r)

unfoldable pub read_linking_section : ℕ → ℕ → M (Unit {0})
unfolding bracketed read_u32_leb error_unless linking_loop
read_linking_section fuel section_size =
    bracketed State.linking_ section_size
      (do version ← read_u32_leb; error_unless (version == 1); linking_loop fuel)

-- ===== src/BinaryReader/Read.antt =====
-- The primitives of `BinaryReader` that move the offset (src/binary-reader.cc). A `size_t` has 64
-- bits; the sum of an offset into a file in memory and a uint32_t does not wrap round. What a read
-- yields is computed from the bytes at the offset.
use wasm_sandboxing.Base.{
  ℕ, zero, suc, ◌+◌, ◌-◌, ◌*◌, ◌%◌, ◌^◌, Bool, false, ◌&&◌, ◌||◌, not, Option, none, some, List,
  ltb, leb, ◌==◌, if◌then◌else◌, get_or, take, drop, bit_and,
}
use wasm_sandboxing.Leb128.{ReadResult, read_u32_leb128, read_s32_leb128, read_s64_leb128}
use wasm_sandboxing.Utf8.{is_valid_utf8}
use wasm_sandboxing.Interp.Opcode.{Opcode}
use wasm_sandboxing.Interp.Decode.{is_prefix_byte, from_code}
use wasm_sandboxing.BinaryReader.State.{
  Text, Limits, Reader, M, ◌>>=◌, ◌>>◌, pure, ok, fail, error_unless, Counts, get_counts,
  set_counts, get_options, collect,
}

-- `n` bytes at the start of a list, lowest first.
abbrev little_endian : ℕ → List ℕ → ℕ
little_endian zero bs = 0
little_endian (suc n) bs = get_or bs 0 0 + 256 * little_endian n (drop 1 bs)

-- `ReadT` for a type of `n` bytes.
unfoldable pub read_t : ℕ → M ℕ
unfolding fail
read_t n r =
    if ltb r.read_end (r.offset + n)
    then fail r
    else (ok (little_endian n (drop r.offset r.bytes)), record r { offset = r.offset + n })

abbrev pub read_u8 : M ℕ
read_u8 = read_t 1

abbrev pub read_u32 : M ℕ
read_u32 = read_t 4

abbrev pub read_f32 : M ℕ
read_f32 = read_t 4

abbrev pub read_f64 : M ℕ
read_f64 = read_t 8

abbrev pub read_v128 : M ℕ
read_v128 = read_t 16

-- What lies from the offset to the end of the section.
abbrev pub window : Reader → List ℕ
window r = take (r.read_end - r.offset) (drop r.offset r.bytes)

abbrev value_or_zero : Option ℕ → ℕ
value_or_zero none = 0
value_or_zero (some v) = v

-- A number that one of the LEB128 readers reads.
unfoldable pub read_leb : (List ℕ → ReadResult) → M ℕ
unfolding fail
read_leb reader r =
    let result = reader (window r) in
    if ltb 0 result.size
    then (ok (value_or_zero result.out_value), record r { offset = r.offset + result.size })
    else fail r

unfoldable pub read_u32_leb : M ℕ
unfolding read_leb
read_u32_leb = read_leb read_u32_leb128

unfoldable pub read_s32_leb : M ℕ
unfolding read_leb
read_s32_leb = read_leb read_s32_leb128

unfoldable pub read_s64_leb : M ℕ
unfolding read_leb
read_s64_leb = read_leb read_s64_leb128

unfoldable pub read_opcode : M (Option Opcode)
unfolding read_t read_u32_leb
read_opcode = do
  value ← read_u8
  if is_prefix_byte value
      then (do code ← read_u32_leb; pure (from_code value code))
      else pure (from_code 0 value)

abbrev pub read_type : M ℕ
read_type = read_s32_leb

abbrev pub read_index : M ℕ
read_index = read_u32_leb

abbrev pub read_offset : M ℕ
read_offset = read_u32_leb

-- `n` bytes, if the section has them.
unfoldable pub read_span : ℕ → M (List ℕ)
unfolding fail
read_span n r =
    if leb (r.offset + n) r.read_end
    then (ok (take n (drop r.offset r.bytes)), record r { offset = r.offset + n })
    else fail r

abbrev is_text : Option Bool → Bool
is_text none = false
is_text (some b) = b

unfoldable pub read_str : M Text
unfolding read_u32_leb read_span error_unless
read_str = do
  str_len ← read_u32_leb
  str ← read_span str_len
  error_unless (is_text (is_valid_utf8 str))
  pure str

unfoldable pub read_bytes : M (List ℕ)
unfolding read_u32_leb read_span
read_bytes = do data_size ← read_u32_leb; read_span data_size

unfoldable pub section_remaining : M ℕ
section_remaining r = (ok ((r.read_end + 2 ^ 64 - r.offset) % 2 ^ 64), r)

unfoldable pub check_count : ℕ → M (Unit {0})
unfolding section_remaining error_unless
check_count count = do remaining ← section_remaining; error_unless (leb count remaining)

unfoldable pub read_count : M ℕ
unfolding read_u32_leb check_count
read_count = do count ← read_index; check_count count; pure count

-- `ReadCount` into a member, which it sets before the check.
unfoldable pub read_count_into : (ℕ → Counts → Counts) → M ℕ
unfolding read_u32_leb set_counts check_count
read_count_into store = do
  count ← read_index
  set_counts (store count)
  check_count count
  pure count

abbrev type_i32 : ℕ
type_i32 = 2 ^ 32 - 0x01

abbrev type_i64 : ℕ
type_i64 = 2 ^ 32 - 0x02

abbrev type_f32 : ℕ
type_f32 = 2 ^ 32 - 0x03

abbrev type_f64 : ℕ
type_f64 = 2 ^ 32 - 0x04

abbrev type_v128 : ℕ
type_v128 = 2 ^ 32 - 0x05

abbrev pub type_anyfunc : ℕ
type_anyfunc = 2 ^ 32 - 0x10

abbrev pub type_func : ℕ
type_func = 2 ^ 32 - 0x20

abbrev type_void : ℕ
type_void = 2 ^ 32 - 0x40

abbrev is_concrete : Bool → ℕ → Bool
is_concrete simd type =
    type == type_i32
    || type == type_i64
    || type == type_f32
    || type == type_f64
    || (type == type_v128 && simd)

unfoldable pub is_concrete_type : ℕ → M Bool
unfolding get_options
is_concrete_type type = do options ← get_options; pure (is_concrete options.features.simd type)

-- A type that is not negative is the index of a signature.
unfoldable pub is_block_type : ℕ → M Bool
unfolding is_concrete_type get_options get_counts
is_block_type type = do
  concrete ← is_concrete_type type
  options ← get_options
  counts ← get_counts
  pure (
      concrete
      || type == type_void
      || (options.features.multi_value && ltb type (2 ^ 31) && ltb type counts.num_signatures))

abbrev pub num_total_funcs : Counts → ℕ
num_total_funcs c = (c.num_func_imports + c.num_function_signatures) % 2 ^ 32

abbrev pub num_total_tables : Counts → ℕ
num_total_tables c = (c.num_table_imports + c.num_tables) % 2 ^ 32

abbrev pub num_total_memories : Counts → ℕ
num_total_memories c = (c.num_memory_imports + c.num_memories) % 2 ^ 32

abbrev pub num_total_globals : Counts → ℕ
num_total_globals c = (c.num_global_imports + c.num_globals) % 2 ^ 32

-- A type that `IsConcreteType` accepts.
unfoldable pub read_concrete_type : M ℕ
unfolding read_s32_leb is_concrete_type error_unless
read_concrete_type = do
  type ← read_type
  concrete ← is_concrete_type type
  error_unless concrete
  pure type

abbrev pub has_flag : ℕ → ℕ → Bool
has_flag flags flag = not (bit_and flags flag == 0)

unfoldable pub read_table_max : Bool → ℕ → M ℕ
unfolding read_u32_leb error_unless
read_table_max has_max initial =
    if has_max then (do max ← read_u32_leb; error_unless (leb initial max); pure max) else pure 0

unfoldable pub read_table : M (ℕ × Limits)
unfolding read_s32_leb read_u32_leb error_unless read_table_max
read_table = do
  elem_type ← read_type
  error_unless (elem_type == type_anyfunc)
  flags ← read_u32_leb
  initial ← read_u32_leb
  let has_max = has_flag flags 1
  error_unless (not (has_flag flags 2))
  max ← read_table_max has_max initial
  pure (elem_type, record { initial = initial; max = max; has_max = has_max; is_shared = false })

abbrev pub max_pages : ℕ
max_pages = 0x10000

unfoldable pub read_memory_max : Bool → ℕ → M ℕ
unfolding read_u32_leb error_unless
read_memory_max has_max initial =
    if has_max
    then (do
      max ← read_u32_leb
      error_unless (leb max max_pages)
      error_unless (leb initial max)
      pure max)
    else pure 0

unfoldable pub read_memory : M Limits
unfolding read_u32_leb error_unless read_memory_max
read_memory = do
  flags ← read_u32_leb
  initial ← read_u32_leb
  error_unless (leb initial max_pages)
  let has_max = has_flag flags 1
  let is_shared = has_flag flags 2
  error_unless (not is_shared || has_max)
  max ← read_memory_max has_max initial
  pure (record { initial = initial; max = max; has_max = has_max; is_shared = is_shared })

unfoldable pub read_global_header : M (ℕ × Bool)
unfolding read_concrete_type read_t error_unless
read_global_header = do
  global_type ← read_concrete_type
  mutable_ ← read_u8
  error_unless (leb mutable_ 1)
  pure (global_type, mutable_ == 1)

unfoldable pub read_exception_type : M (List ℕ)
unfolding read_count collect read_concrete_type
read_exception_type = do num_values ← read_count; collect num_values read_concrete_type

-- ===== src/BinaryReader/Runs.antt =====
-- Runs of the binary reader on small files.
use wasm_sandboxing.Base.{
  ℕ, ◌≤◌, ◌≡◌, ◌≢◌, refl, some, Bool, true, false, List, [], ◌∷◌, length, arith,
}
use wasm_sandboxing.Utf8.{is_valid_utf8}
use wasm_sandboxing.Leb128.{write_u32_leb128, read_u32_leb128, read_s32_leb128}
use wasm_sandboxing.Interp.Decode.{is_prefix_byte, from_code}
use wasm_sandboxing.BinaryReader.State.{Options, Limits, Outcome, ok, failed, no_fuel, Reader, Call}
use wasm_sandboxing.BinaryReader.Read.{read_memory, read_str}
use wasm_sandboxing.BinaryReader.Memories.{is_valid_memory, read_memory-is_valid}
use wasm_sandboxing.BinaryReader.Written.{read_str-written}
use wasm_sandboxing.BinaryReader.Module.{read_binary, read_module, new_reader}
use wasm_sandboxing.BinaryReader.Within.{errors, section_codes}
use wasm_sandboxing.BinaryReader.Within.Order.{Falls, sections_of}
use wasm_sandboxing.BinaryReader.Within.File.{read_binary-ends}
use wasm_sandboxing.BinaryReader.Errors.File.{Accounted, read_binary-Accounted}

abbrev default_options : Options
default_options = record {
  features = record {
    exceptions = false;
    mutable_globals = false;
    sat_float_to_int = false;
    sign_extension = false;
    threads = false;
    simd = false;
    multi_value = false;
  };
  read_debug_names = true;
  stop_on_first_error = true;
  fail_on_custom_section_error = true;
}

abbrev accepts : List Call → Bool
accepts calls = true

-- A module with one type, one function of that type, and its empty body.
abbrev one_function : List ℕ
one_function =
    0x00 ∷ 0x61 ∷ 0x73 ∷ 0x6d ∷ 1 ∷ 0 ∷ 0 ∷ 0 ∷ 1 ∷ 4 ∷ 1 ∷ 0x60 ∷ 0 ∷ 0 ∷ 3 ∷ 2 ∷ 1 ∷ 0 ∷ 10 ∷ 4
    ∷ 1 ∷ 2 ∷ 0 ∷ 0x0b ∷ []

-- The function section before the type section.
abbrev out_of_order : List ℕ
out_of_order = 0x00 ∷ 0x61 ∷ 0x73 ∷ 0x6d ∷ 1 ∷ 0 ∷ 0 ∷ 0 ∷ 3 ∷ 1 ∷ 0 ∷ 1 ∷ 4 ∷ 1 ∷ 0x60 ∷ 0 ∷ 0 ∷ []

abbrev summary : Outcome (Unit {0}) × Reader → Outcome (Unit {0}) × ℕ × List ℕ × ℕ
summary (o, r) = (o, r.offset, section_codes r.calls, errors r.calls)

one_function_is_read :
    summary (read_binary one_function accepts default_options) ≡ (ok tt, 24, 10 ∷ 3 ∷ 1 ∷ [], 0)
unfolding read_binary read_module read_u32_leb128 read_s32_leb128 is_prefix_byte from_code
one_function_is_read = refl

order_is_checked :
    summary (read_binary out_of_order accepts default_options) ≡ (failed, 13, 3 ∷ [], 1)
unfolding read_binary read_module read_u32_leb128
order_is_checked = refl

read_binary-ends_example :
    let x = read_binary one_function accepts default_options in
    (x.0 ≢ no_fuel) × (x.1.offset ≤ length one_function) × Falls 12 (sections_of x.1)
read_binary-ends_example = read_binary-ends one_function accepts default_options

read_binary-Accounted_example :
    let x = read_binary out_of_order accepts default_options in
    Accounted default_options x.0 (errors x.1.calls)
read_binary-Accounted_example = read_binary-Accounted out_of_order accepts default_options

abbrev reader_of : List ℕ → Reader
reader_of bytes = new_reader bytes accepts default_options

-- A shared memory of one to two pages.
abbrev shared_memory : Limits
shared_memory = record { initial = 1; max = 2; has_max = true; is_shared = true }

shared_memory_is_read :
    read_memory (reader_of (3 ∷ 1 ∷ 2 ∷ []))
    ≡ (ok shared_memory, record (reader_of (3 ∷ 1 ∷ 2 ∷ [])) { offset = 3 })
unfolding read_memory read_u32_leb128
shared_memory_is_read = refl

read_memory-is_valid_example : is_valid_memory shared_memory ≡ true
read_memory-is_valid_example =
    read_memory-is_valid (reader_of (3 ∷ 1 ∷ 2 ∷ []))
      (record (reader_of (3 ∷ 1 ∷ 2 ∷ [])) { offset = 3 }) shared_memory shared_memory_is_read

two_is_written : write_u32_leb128 2 ≡ some (2 ∷ [])
unfolding write_u32_leb128
two_is_written = refl

hi_is_valid : is_valid_utf8 (b'h' ∷ b'i' ∷ []) ≡ some true
unfolding is_valid_utf8
hi_is_valid = refl

read_str-written_example :
    read_str (reader_of (2 ∷ b'h' ∷ b'i' ∷ 0 ∷ []))
    ≡ (ok (b'h' ∷ b'i' ∷ []), record (reader_of (2 ∷ b'h' ∷ b'i' ∷ 0 ∷ [])) { offset = 3 })
read_str-written_example =
    read_str-written (reader_of (2 ∷ b'h' ∷ b'i' ∷ 0 ∷ [])) (2 ∷ []) (b'h' ∷ b'i' ∷ []) (0 ∷ [])
      (omega arith) two_is_written hi_is_valid refl (omega arith)

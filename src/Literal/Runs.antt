-- ===== src/Literal/Runs.antt =====
-- Concrete runs of the integer parsers.
use wasm_sandboxing.Literal.{parse_int64}
use wasm_sandboxing.Base.{
  ℕ, ◌≡◌, ◌%◌, ◌^◌, ◌-◌, refl, some, none, List, [], ◌∷◌, leb, ltb, if◌then◌else◌, arith,
}
use wasm_sandboxing.Literal.Integers.{parse_uint64-reads, parse_int32-reads, digits_value}
use wasm_sandboxing.Literal.{parse_uint64, parse_int32, signed_and_unsigned, unsigned_only}

-- "0xf_f"
grouped : parse_uint64 (b'0' ∷ b'x' ∷ b'f' ∷ b'_' ∷ b'f' ∷ []) ≡ some 255
unfolding parse_uint64
grouped = refl

-- "-1"
minus_one : parse_int32 (b'-' ∷ b'1' ∷ []) signed_and_unsigned ≡ some 0xffff_ffff
unfolding parse_int32
minus_one = refl

-- "0xg" is taken for 16.
not_a_digit : parse_uint64 (b'0' ∷ b'x' ∷ b'g' ∷ []) ≡ some 16
unfolding parse_uint64
not_a_digit = refl

-- "0x11111111111111111", of 65 bits, is taken for the number of its low 64.
too_wide :
    parse_uint64 (
      b'0' ∷ b'x' ∷ b'1' ∷ b'1' ∷ b'1' ∷ b'1' ∷ b'1' ∷ b'1' ∷ b'1' ∷ b'1' ∷ b'1' ∷ b'1' ∷ b'1'
      ∷ b'1' ∷ b'1' ∷ b'1' ∷ b'1' ∷ b'1' ∷ b'1' ∷ [])
    ≡ some 0x1111_1111_1111_1111
unfolding parse_uint64
too_wide = refl

-- "0x1_0"
abbrev sixteen : List ℕ
sixteen = b'0' ∷ b'x' ∷ b'1' ∷ b'_' ∷ b'0' ∷ []

parse_uint64-reads_example : parse_uint64 sixteen ≡ some 16
unfolding digits_value
parse_uint64-reads_example = parse_uint64-reads sixteen 16 refl (omega arith)

parse_int32-reads_example :
    let n : ℕ = 16 in
    (parse_int32 (b'-' ∷ sixteen) signed_and_unsigned
      ≡ (if leb n (2 ^ 31) then some ((2 ^ 32 - n) % 2 ^ 32) else none))
    × (parse_int32 (b'+' ∷ sixteen) signed_and_unsigned ≡ (if ltb n (2 ^ 32) then some n else none))
    × (parse_int32 (b'-' ∷ sixteen) unsigned_only ≡ none)
    × (parse_int32 (b'+' ∷ sixteen) unsigned_only ≡ none)
unfolding digits_value
parse_int32-reads_example = parse_int32-reads sixteen 16 refl (omega arith)

-- "-1"
minus_one_64 : parse_int64 (b'-' ∷ b'1' ∷ []) signed_and_unsigned ≡ some 0xffff_ffff_ffff_ffff
unfolding parse_int64
minus_one_64 = refl

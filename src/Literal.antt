-- ===== src/Literal.antt =====
-- The integer literals of src/literal.cc. A text is the list of its bytes from `s` to `end`;
-- `none` is `Result::Error`.
pub mod Integers
mod Runs
use wasm_sandboxing.Base.{
  ℕ, zero, suc, ◌+◌, ◌-◌, ◌*◌, ◌/◌, ◌%◌, ◌^◌, Bool, true, false, not, ◌&&◌, ◌||◌, Option, none,
  some, List, [], ◌∷◌, drop, ltb, leb, ◌==◌, get_or, if◌then◌else◌,
}

pub parse_hexdigit : ℕ → Option ℕ
parse_hexdigit c =
    if leb b'0' c && leb (c - b'0') 9
    then some (c - b'0')
    else if leb b'a' c && leb (c - b'a') 6
    then some (10 + (c - b'a'))
    else if leb b'A' c && leb (c - b'A') 6
    then some (10 + (c - b'A'))
    else none

-- `*s - '0'`, which as an unsigned number is above 9 for any other character.
parse_decimal_digit : ℕ → Option ℕ
parse_decimal_digit c = if leb b'0' c && leb (c - b'0') 9 then some (c - b'0') else none

-- The two loops of `ParseUint64`, over the base and its digits.
pub parse_digits : ℕ → (ℕ → Option ℕ) → ℕ → List ℕ → Option ℕ
parse_digits base digit value [] = some value
parse_digits base digit value (c ∷ cs) =
    let skipped = parse_digits base digit value cs in
    if c == b'_' then skipped else elim (digit c) [
      | none ↦ none
      | some d ↦
          let next = (value * base + d) % 2 ^ 64 in
          let rest = parse_digits base digit next cs in if ltb next value then none else rest
    ]

-- `*s == '0' && s + 1 < end && s[1] == 'x'`
abbrev is_hex : List ℕ → Bool
is_hex s = get_or s 0 0 == b'0' && get_or s 1 0 == b'x'

parse_some_digits : ℕ → (ℕ → Option ℕ) → List ℕ → Option ℕ
unfolding parse_digits
parse_some_digits base digit [] = none
parse_some_digits base digit (c ∷ cs) = parse_digits base digit 0 (c ∷ cs)

pub parse_uint64 : List ℕ → Option ℕ
unfolding parse_some_digits parse_hexdigit parse_decimal_digit
parse_uint64 s =
    if is_hex s
    then parse_some_digits 16 parse_hexdigit (drop 2 s)
    else parse_some_digits 10 parse_decimal_digit s

pub data ParseIntType : Type 0 where
  unsigned_only signed_and_unsigned : ParseIntType

-- What stands in front of the digits: `none` if it is a sign that is not allowed.
abbrev read_sign : ParseIntType → List ℕ → Option (Bool × List ℕ)
read_sign t [] = some (false, [])
read_sign unsigned_only (c ∷ cs) = if c == b'-' || c == b'+' then none else some (false, c ∷ cs)
read_sign signed_and_unsigned (c ∷ cs) =
    if c == b'-'
    then some (true, cs)
    else if c == b'+'
    then some (false, cs)
    else some (false, c ∷ cs)

-- The value as the two's complement of `w` bits.
abbrev finish : ℕ → Bool → ℕ → Option ℕ
finish w true value =
    if ltb (2 ^ (w - 1)) value then none else some ((2 ^ w - 1 - value + 1) % 2 ^ w)
finish w false value = if ltb (2 ^ w - 1) value then none else some value

parse_signed : ℕ → Bool → List ℕ → Option ℕ
unfolding parse_uint64
parse_signed w negative s = elim (parse_uint64 s) [
  | none ↦ none
  | some value ↦ finish w negative value
]

pub parse_int32 : List ℕ → ParseIntType → Option ℕ
unfolding parse_signed
parse_int32 s t = elim (read_sign t s) [
  | none ↦ none
  | some (negative, digits) ↦ parse_signed 32 negative digits
]

-- `ParseInt64` looks at the result of `ParseUint64` last, so that what it stores on an error
-- differs, and nothing else.
pub parse_int64 : List ℕ → ParseIntType → Option ℕ
unfolding parse_signed
parse_int64 s t = elim (read_sign t s) [
  | none ↦ none
  | some (negative, digits) ↦ parse_signed 64 negative digits
]

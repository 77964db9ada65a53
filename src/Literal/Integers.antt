-- ===== src/Literal/Integers.antt =====
-- What the integer parsers of src/literal.cc read, against the values of digits.
use wasm_sandboxing.Base.{
  ℕ, ◌+◌, ◌-◌, ◌*◌, ◌%◌, ◌^◌, ◌≤◌, ◌<◌, ◌≡◌, refl, sym, ap, ◌∙◌, ◌⊎◌, ◌↔◌, inl, inr, Bool, true,
  false, Bool-cases, ◌&&◌, Option, none, some, Option-cases, List, [], ◌∷◌, drop, ltb, leb, ◌==◌,
  if◌then◌else◌, arith,
}
use wasm_sandboxing.Literal.{
  parse_hexdigit, parse_decimal_digit, parse_digits, parse_some_digits, is_hex, parse_uint64,
  parse_signed, finish, parse_int32, signed_and_unsigned, unsigned_only,
}

-- What `ParseHexdigit` gives is at most 16, and is 16, which no digit stands for, exactly for `g`
-- and `G`.
parse_hexdigit-le :
    (c d : ℕ) → parse_hexdigit c ≡ some d → (d ≤ 16) × ((d ≡ 16) ↔ ((c ≡ b'g') ⊎ (c ≡ b'G')))
unfolding parse_hexdigit
parse_hexdigit-le c d e = (ground arith, (λ h. ground arith, λ h. ground arith))

-- The digits of a base up to 16.
abbrev pub digit_value : ℕ → ℕ → Option ℕ
digit_value base c =
    if leb b'0' c && ltb c (b'0' + 10)
    then some (c - b'0')
    else if base == 16 && leb b'a' c && ltb c (b'a' + 6)
    then some (c - b'a' + 10)
    else if base == 16 && leb b'A' c && ltb c (b'A' + 6)
    then some (c - b'A' + 10)
    else none

abbrev then_digit : (ℕ → Option ℕ) → Option ℕ → Option ℕ
then_digit f none = none
then_digit f (some d) = f d

-- The number that digits stand for, without a bound; `_` separates groups.
unfoldable pub digits_value : ℕ → ℕ → List ℕ → Option ℕ
digits_value base acc [] = some acc
digits_value base acc (c ∷ cs) =
    let skipped = digits_value base acc cs in
    let rest = then_digit (λ d. digits_value base (acc * base + d) cs) (digit_value base c) in
    if c == b'_' then skipped else rest

module _ (base : ℕ) (digit : ℕ → Option ℕ)
    (reads : (c d : ℕ) → digit_value base c ≡ some d → digit c ≡ some d)
    (grows : (a : ℕ) → a ≤ a * base) where
  abbrev digit_first : ℕ → ℕ → List ℕ → Option ℕ
  digit_first acc c cs =
      then_digit (λ d. digits_value base (acc * base + d) cs) (digit_value base c)

  digits_value-skip :
      (acc c : ℕ) (cs : List ℕ)
      → (c == b'_') ≡ true
      → digits_value base acc (c ∷ cs) ≡ digits_value base acc cs
  unfolding digits_value
  digits_value-skip acc c cs y = rw y refl

  digits_value-step :
      (acc c d : ℕ) (cs : List ℕ)
      → (c == b'_') ≡ false
      → digit_value base c ≡ some d
      → digits_value base acc (c ∷ cs) ≡ digits_value base (acc * base + d) cs
  unfolding digits_value
  digits_value-step acc c d cs y e =
      ap (λ b. if b then digits_value base acc cs else digit_first acc c cs) y
      ∙ ap (then_digit (λ d. digits_value base (acc * base + d) cs)) e

  digits_value-bad :
      (acc c : ℕ) (cs : List ℕ)
      → (c == b'_') ≡ false
      → digit_value base c ≡ none
      → digits_value base acc (c ∷ cs) ≡ none
  unfolding digits_value
  digits_value-bad acc c cs y e =
      ap (λ b. if b then digits_value base acc cs else digit_first acc c cs) y
      ∙ ap (then_digit (λ d. digits_value base (acc * base + d) cs)) e

  digits_value-le : (acc n : ℕ) (s : List ℕ) → digits_value base acc s ≡ some n → acc ≤ n
  unfolding digits_value
  digits_value-le acc n [] e = ground arith
  digits_value-le acc n (c ∷ cs) e = elim (Bool-cases (c == b'_')) [
    | inl y ↦ digits_value-le acc n cs (sym (digits_value-skip acc c cs y) ∙ e)
    | inr y ↦ elim (Option-cases (digit_value base c)) [
      | inl z ↦ absurd (ground (arith, sym (digits_value-bad acc c cs y z) ∙ e))
      | inr (d, z) ↦
          let rest =
            digits_value-le (acc * base + d) n cs (sym (digits_value-step acc c d cs y z) ∙ e) in
          omega (arith, rest, grows acc)
    ]
  ]

  parse_digits-reads :
      (acc n : ℕ) (s : List ℕ)
      → digits_value base acc s ≡ some n
      → n < 2 ^ 64
      → parse_digits base digit acc s ≡ some n
  unfolding digits_value parse_digits
  parse_digits-reads acc n [] e h = e
  parse_digits-reads acc n (c ∷ cs) e h = elim (Bool-cases (c == b'_')) [
    | inl y ↦ rw y (parse_digits-reads acc n cs (sym (digits_value-skip acc c cs y) ∙ e) h)
    | inr y ↦ elim (Option-cases (digit_value base c)) [
      | inl z ↦ absurd (ground (arith, sym (digits_value-bad acc c cs y z) ∙ e))
      | inr (d, z) ↦
          let e' = sym (digits_value-step acc c d cs y z) ∙ e in
          let le = digits_value-le (acc * base + d) n cs e' in
          let whole : (acc * base + d) % 2 ^ 64 ≡ acc * base + d = omega (arith, le) in
          let no_wrap : ltb (acc * base + d) acc ≡ false = ground (arith, grows acc) in
          rw (y, reads c d z, whole, no_wrap) (parse_digits-reads (acc * base + d) n cs e' h)
    ]
  ]

abbrev number : ℕ → List ℕ → Option ℕ
number base [] = none
number base (c ∷ cs) = digits_value base 0 (c ∷ cs)

-- The number that a literal without a sign stands for: hexadecimal behind `0x`, else decimal.
abbrev pub literal_value : List ℕ → Option ℕ
literal_value s = if is_hex s then number 16 (drop 2 s) else number 10 s

digit_value-hex : (c d : ℕ) → digit_value 16 c ≡ some d → parse_hexdigit c ≡ some d
unfolding parse_hexdigit
digit_value-hex c d e = ground arith

digit_value-decimal : (c d : ℕ) → digit_value 10 c ≡ some d → parse_decimal_digit c ≡ some d
unfolding parse_decimal_digit
digit_value-decimal c d e = ground arith

parse_some_digits-reads :
    (base : ℕ) (digit : ℕ → Option ℕ) (s : List ℕ) (n : ℕ)
    → ((c d : ℕ) → digit_value base c ≡ some d → digit c ≡ some d)
    → ((a : ℕ) → a ≤ a * base)
    → number base s ≡ some n
    → n < 2 ^ 64
    → parse_some_digits base digit s ≡ some n
unfolding parse_some_digits
parse_some_digits-reads base digit [] n reads grows e h = absurd (ground arith)
parse_some_digits-reads base digit (c ∷ cs) n reads grows e h =
    parse_digits-reads base digit reads grows 0 n (c ∷ cs) e h

-- `ParseUint64` reads every literal without a sign, decimal or hexadecimal, with `_` between its
-- digits or not, whose number fits in 64 bits, as that number.
pub parse_uint64-reads :
    (s : List ℕ) (n : ℕ) → literal_value s ≡ some n → n < 2 ^ 64 → parse_uint64 s ≡ some n
unfolding parse_uint64
parse_uint64-reads s n e h = elim (Bool-cases (is_hex s)) [
  | inl y ↦ rw y (
      parse_some_digits-reads 16 parse_hexdigit (drop 2 s) n digit_value-hex (λ a. omega arith)
        (sym (ap (λ b. if b then number 16 (drop 2 s) else number 10 s) y) ∙ e) h)
  | inr y ↦ rw y (
      parse_some_digits-reads 10 parse_decimal_digit s n digit_value-decimal (λ a. omega arith)
        (sym (ap (λ b. if b then number 16 (drop 2 s) else number 10 s) y) ∙ e) h)
]

parse_signed-finish :
    (w : ℕ) (negative : Bool) (s : List ℕ) (n : ℕ)
    → parse_uint64 s ≡ some n
    → parse_signed w negative s ≡ finish w negative n
unfolding parse_signed
parse_signed-finish w negative s n e = rw (e, parse_signed) refl

-- Behind a sign, `ParseInt32` reads a literal whose number fits in 64 bits as follows: where
-- signs are allowed, `-` gives the two's complement if the number is at most 2^31 and an error
-- else, and `+` the number if it is below 2^32 and an error else; where they are not, an error.
pub parse_int32-reads :
    (s : List ℕ) (n : ℕ)
    → literal_value s ≡ some n
    → n < 2 ^ 64
    → (parse_int32 (b'-' ∷ s) signed_and_unsigned
        ≡ (if leb n (2 ^ 31) then some ((2 ^ 32 - n) % 2 ^ 32) else none))
      × (parse_int32 (b'+' ∷ s) signed_and_unsigned ≡ (if ltb n (2 ^ 32) then some n else none))
      × (parse_int32 (b'-' ∷ s) unsigned_only ≡ none)
      × (parse_int32 (b'+' ∷ s) unsigned_only ≡ none)
unfolding parse_int32
parse_int32-reads s n e h =
    let is = parse_uint64-reads s n e h in
    (
      parse_signed-finish 32 true s n is ∙ ground arith,
      parse_signed-finish 32 false s n is ∙ ground arith,
      refl,
      refl,
    )

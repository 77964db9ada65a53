-- ===== src/Utf8/Scalars.antt =====
-- UTF-8 as RFC 3629 defines it, and the check of src/utf8.cc against it.
use wasm_sandboxing.Base.{
  eq_of_some, ℕ, ◌+◌, ◌*◌, ◌/◌, ◌%◌, ◌≤◌, ◌<◌, ◌≡◌, sym, ◌∙◌, ◌⊎◌, inl, inr, ◌&&◌, none, some, List,
  [], ◌∷◌, ◌++◌, All, ltb, leb, if◌then◌else◌, arith,
}
use native.Mathlib.Decide.{dec_lt}
use wasm_sandboxing.Base.Bits.{byte-bit_and_0xc0}
use wasm_sandboxing.Utf8.{utf8_length, is_cont, case_2, case_3, case_4, next}

abbrev pub IsByte : ℕ → Type 0
IsByte b = b < 256

-- A Unicode scalar value.
abbrev pub IsScalar : ℕ → Type 0
IsScalar c = (c < 0xd800) ⊎ ((0xe000 ≤ c) × (c < 0x110000))

unfoldable pub encode : ℕ → List ℕ
encode c =
    if ltb c 0x80
    then c ∷ []
    else if ltb c 0x800
    then (0xc0 + c / 64) ∷ (0x80 + c % 64) ∷ []
    else if ltb c 0x10000
    then (0xe0 + c / 4096) ∷ (0x80 + c / 64 % 64) ∷ (0x80 + c % 64) ∷ []
    else (0xf0 + c / 262144) ∷ (0x80 + c / 4096 % 64) ∷ (0x80 + c / 64 % 64) ∷ (0x80 + c % 64) ∷ []

unfoldable pub encode_all : List ℕ → List ℕ
encode_all [] = []
encode_all (c ∷ cs) = encode c ++ encode_all cs

is_cont-range : (b : ℕ) → b < 256 → is_cont b ≡ (leb 0x80 b && ltb b 0xc0)
unfolding is_cont
is_cont-range b h = ground (arith, byte-bit_and_0xc0 b)

pub next-encode-1 : (c : ℕ) (rest : List ℕ) → c < 0x80 → next c rest ≡ some rest
unfolding next utf8_length
next-encode-1 c rest h = ground arith

pub next-encode-2 :
    (c : ℕ) (rest : List ℕ)
    → 0x80 ≤ c
    → c < 0x800
    → next (0xc0 + c / 64) ((0x80 + c % 64) ∷ rest) ≡ some rest
unfolding next utf8_length case_2
next-encode-2 c rest h k = ground (arith, is_cont-range (0x80 + c % 64))

pub next-encode-3 :
    (c : ℕ) (rest : List ℕ)
    → 0x800 ≤ c
    → c < 0x10000
    → IsScalar c
    → next (0xe0 + c / 4096) ((0x80 + c / 64 % 64) ∷ (0x80 + c % 64) ∷ rest) ≡ some rest
unfolding next utf8_length case_3
next-encode-3 c rest h k i =
    ground (arith, is_cont-range (0x80 + c / 64 % 64), is_cont-range (0x80 + c % 64))

pub next-encode-4 :
    (c : ℕ) (rest : List ℕ)
    → 0x10000 ≤ c
    → c < 0x110000
    → next
        (0xf0 + c / 262144)
        ((0x80 + c / 4096 % 64) ∷ (0x80 + c / 64 % 64) ∷ (0x80 + c % 64) ∷ rest)
      ≡ some rest
unfolding next utf8_length case_4
next-encode-4 c rest h k = ground (
  arith,
  is_cont-range (0x80 + c / 4096 % 64),
  is_cont-range (0x80 + c / 64 % 64),
  is_cont-range (0x80 + c % 64),
)

-- A sequence that one round accepts is the encoding of a scalar value, before the rest.
abbrev pub Decodes : ℕ → List ℕ → List ℕ → Type 0
Decodes cu0 bytes rest = (c : ℕ) × IsScalar c × (cu0 ∷ bytes ≡ encode c ++ rest)

case_2-Decodes :
    (a : ℕ) (bs rest : List ℕ)
    → 0xc2 ≤ a
    → a < 0xe0
    → All IsByte bs
    → case_2 bs ≡ some rest
    → Decodes a bs rest
unfolding case_2 encode
case_2-Decodes a [] rest h k w e = cc
case_2-Decodes a (b ∷ r) rest h k w e =
    (a % 32 * 64 + b % 64, ground (arith, is_cont-range b w.0), ground (arith, is_cont-range b w.0))

case_3-Decodes :
    (a : ℕ) (bs rest : List ℕ)
    → 0xe0 ≤ a
    → a < 0xf0
    → All IsByte bs
    → case_3 a bs ≡ some rest
    → Decodes a bs rest
unfolding case_3 encode
case_3-Decodes a [] rest h k w e = cc
case_3-Decodes a (b ∷ []) rest h k w e = cc
case_3-Decodes a (b ∷ c ∷ r) rest h k w e = (
  a % 16 * 4096 + b % 64 * 64 + c % 64,
  ground (arith, is_cont-range b w.0, is_cont-range c w.1.0),
  ground (arith, is_cont-range b w.0, is_cont-range c w.1.0),
)

case_4-Decodes :
    (a : ℕ) (bs rest : List ℕ)
    → 0xf0 ≤ a
    → a < 0xf5
    → All IsByte bs
    → case_4 a bs ≡ some rest
    → Decodes a bs rest
unfolding case_4 encode
case_4-Decodes a [] rest h k w e = cc
case_4-Decodes a (b ∷ []) rest h k w e = cc
case_4-Decodes a (b ∷ c ∷ []) rest h k w e = cc
case_4-Decodes a (b ∷ c ∷ d ∷ r) rest h k w e = (
  a % 8 * 262144 + b % 64 * 4096 + c % 64 * 64 + d % 64,
  ground (arith, is_cont-range b w.0, is_cont-range c w.1.0, is_cont-range d w.1.1.0),
  ground (arith, is_cont-range b w.0, is_cont-range c w.1.0, is_cont-range d w.1.1.0),
)

next-1 : (a : ℕ) (bs : List ℕ) → a < 0x80 → next a bs ≡ some bs
unfolding next utf8_length
next-1 a bs h = ground arith

next-none : (a : ℕ) (bs : List ℕ) → ((0x80 ≤ a) × (a < 0xc2)) ⊎ (0xf5 ≤ a) → next a bs ≡ none
unfolding next utf8_length
next-none a bs h = ground arith

next-2 : (a : ℕ) (bs : List ℕ) → 0xc2 ≤ a → a < 0xe0 → next a bs ≡ case_2 bs
unfolding next utf8_length
next-2 a bs h k = ground arith

next-3 : (a : ℕ) (bs : List ℕ) → 0xe0 ≤ a → a < 0xf0 → next a bs ≡ case_3 a bs
unfolding next utf8_length
next-3 a bs h k = ground arith

next-4 : (a : ℕ) (bs : List ℕ) → 0xf0 ≤ a → a < 0xf5 → next a bs ≡ case_4 a bs
unfolding next utf8_length
next-4 a bs h k = ground arith

case_1-Decodes : (a : ℕ) (bs rest : List ℕ) → a < 0x80 → bs ≡ rest → Decodes a bs rest
unfolding encode
case_1-Decodes a bs rest h e = (a, inl (omega arith), ground arith)

pub next-Decodes :
    (a : ℕ) (bs rest : List ℕ) → All IsByte bs → next a bs ≡ some rest → Decodes a bs rest
next-Decodes a bs rest w e = elim (dec_lt a 0x80) [
  | yes p ↦ case_1-Decodes a bs rest p (eq_of_some (sym (next-1 a bs p) ∙ e))
  | no p ↦ elim (dec_lt a 0xc2) [
    | yes q ↦ cc (next-none a bs (inl (omega arith, q)))
    | no q ↦ elim (dec_lt a 0xe0) [
      | yes r ↦ case_2-Decodes a bs rest (omega arith) r w (sym (next-2 a bs (omega arith) r) ∙ e)
      | no r ↦ elim (dec_lt a 0xf0) [
        | yes t ↦ case_3-Decodes a bs rest (omega arith) t w (sym (next-3 a bs (omega arith) t) ∙ e)
        | no t ↦ elim (dec_lt a 0xf5) [
          | yes u ↦
              case_4-Decodes a bs rest (omega arith) u w (sym (next-4 a bs (omega arith) u) ∙ e)
          | no u ↦ cc (next-none a bs (inr (omega arith)))
        ]
      ]
    ]
  ]
]

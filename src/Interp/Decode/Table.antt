-- ===== src/Interp/Decode/Table.antt =====
-- The table of opcodes as `Opcode::FromCode` searches it (src/opcode.cc, src/opcode.def).
use wasm_sandboxing.Base.{
  ℕ, zero, suc, ◌+◌, ◌*◌, ◌/◌, ◌%◌, ◌≤◌, ◌<◌, ◌≡◌, ◌∙◌, refl, ap, Bool, true, false, not, ◌&&◌,
  some, List, [], ◌∷◌, get_elem?, ltb, leb, if◌then◌else◌, bit_or, arith,
}
use wasm_sandboxing.Base.Bits.{bit_or_disjoint}
use wasm_sandboxing.Interp.Opcode.{Opcode}
use wasm_sandboxing.Interp.Decode.{infos, is_prefix_byte, find_code, from_code}

-- Every code is above the one before it, from `code` on, and it fits in two bytes of which the
-- first is a prefix, or in one which is no prefix.
pub fits : ℕ → Bool
fits code =
    ltb code 0x10000
    && (if ltb code 0x100 then not (is_prefix_byte code) else is_prefix_byte (code / 0x100))

ordered : ℕ → List (ℕ × Opcode) → Bool
ordered bound [] = true
ordered bound ((code, opcode) ∷ infos) = leb bound code && fits code && ordered (code + 1) infos

infos-ordered : ordered 0 infos ≡ true
unfolding infos is_prefix_byte fits ordered
infos-ordered = refl

-- The entries from `bound` on are found.
find_code-ordered :
    (bound : ℕ) (l : List (ℕ × Opcode)) (i code : ℕ) (opcode : Opcode)
    → ordered bound l ≡ true
    → get_elem? l i ≡ some (code, opcode)
    → (bound ≤ code) × (fits code ≡ true) × (find_code code l ≡ some opcode)
unfolding find_code ordered
find_code-ordered bound [] i code opcode o e = absurd (ground arith)
find_code-ordered bound ((c, op) ∷ l) zero code opcode o e =
    (ground arith, ground arith, ground arith)
find_code-ordered bound ((c, op) ∷ l) (suc i) code opcode o e =
    let o' : ordered (c + 1) l ≡ true = ground arith in
    let (above, f, g) = find_code-ordered (c + 1) l i code opcode o' e in
    (ground arith, f, ground arith)

-- `from_code` finds every entry, from the bytes of its code.
pub from_code-infos :
    (i code : ℕ) (opcode : Opcode)
    → get_elem? infos i ≡ some (code, opcode)
    → (fits code ≡ true) × (from_code (code / 0x100) (code % 0x100) ≡ some opcode)
unfolding from_code
from_code-infos i code opcode e =
    let (_, f, g) = find_code-ordered 0 infos i code opcode infos-ordered e in
    let ec : bit_or (code / 0x100 * 0x100) (code % 0x100) ≡ code =
      bit_or_disjoint 8 (code / 0x100) (code % 0x100) (omega arith) ∙ omega arith in
    (f, ap (λ c. find_code c infos) ec ∙ g)

pub fits-unprefixed :
    (code : ℕ) → fits code ≡ true → code / 0x100 ≡ 0 → is_prefix_byte (code % 0x100) ≡ false
unfolding fits
fits-unprefixed code f e =
    let ec : code % 0x100 ≡ code = omega arith in
    let lt : code < 0x100 = omega arith in ap is_prefix_byte ec ∙ ground arith

pub fits-prefixed :
    (code : ℕ) → fits code ≡ true → 0 < code / 0x100 → is_prefix_byte (code / 0x100) ≡ true
unfolding fits
fits-prefixed code f e = let le : 0x100 ≤ code = omega arith in ground arith

pub fits_lt : (code : ℕ) → fits code ≡ true → code < 0x10000
unfolding fits
fits_lt code f = ground arith

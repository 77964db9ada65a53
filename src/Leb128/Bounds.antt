-- ===== src/Leb128/Bounds.antt =====
-- The readers read no byte past the end (src/leb128.cc).
use wasm_sandboxing.Base.{
  ℕ, zero, suc, ◌≤◌, ◌<◌, ◌≡◌, inl, inr, refl, Bool, true, false, if◌then◌else◌, some, Option-cases,
  List, [], ◌∷◌, length, get_elem?, arith,
}
use wasm_sandboxing.Leb128.{ReadResult, ends_at, read_u32_leb128, read_s32_leb128, read_s64_leb128}

abbrev pub StaysIn : (List ℕ → ReadResult) → Type 0
StaysIn reader = (p : List ℕ) → (reader p).size ≤ length p

get_elem?-lt : (p : List ℕ) (i b : ℕ) → get_elem? p i ≡ some b → i < length p
get_elem?-lt [] i b h = cc
get_elem?-lt (x ∷ p) zero b h = omega arith
get_elem?-lt (x ∷ p) (suc i) b h = omega (arith, get_elem?-lt p i b h)

ends_at-lt : (p : List ℕ) (i : ℕ) → ends_at p i ≡ true → i < length p
unfolding ends_at
ends_at-lt p i h = elim (Option-cases (get_elem? p i)) [
  | inl out ↦ cc (rw (out, ends_at) at h)
  | inr (b, at_i) ↦ get_elem?-lt p i b at_i
]

pub read_u32_leb128-StaysIn : StaysIn read_u32_leb128
unfolding read_u32_leb128
read_u32_leb128-StaysIn p =
    ground (arith, ends_at-lt p 0, ends_at-lt p 1, ends_at-lt p 2, ends_at-lt p 3, ends_at-lt p 4)

pub read_s32_leb128-StaysIn : StaysIn read_s32_leb128
unfolding read_s32_leb128
read_s32_leb128-StaysIn p =
    ground (arith, ends_at-lt p 0, ends_at-lt p 1, ends_at-lt p 2, ends_at-lt p 3, ends_at-lt p 4)

either-size :
    (b : Bool) (l : ℕ) (x y : ReadResult)
    → (b ≡ true → x.size ≤ l)
    → y.size ≤ l
    → (if b then x else y).size ≤ l
either-size true l x y h k = h refl
either-size false l x y h k = k

pub read_s64_leb128-StaysIn : StaysIn read_s64_leb128
unfolding read_s64_leb128
read_s64_leb128-StaysIn p =
    let at = λ (i : ℕ) (x y : ReadResult). either-size (ends_at p i) (length p) x y in
    at 0 _ _ (ends_at-lt p 0) (
      at 1 _ _ (ends_at-lt p 1) (
        at 2 _ _ (ends_at-lt p 2) (
          at 3 _ _ (ends_at-lt p 3) (
            at 4 _ _ (ends_at-lt p 4) (
              at 5 _ _ (ends_at-lt p 5) (
                at 6 _ _ (ends_at-lt p 6) (
                  at 7 _ _ (ends_at-lt p 7)
                    (at 8 _ _ (ends_at-lt p 8) (ground (arith, ends_at-lt p 9))))))))))

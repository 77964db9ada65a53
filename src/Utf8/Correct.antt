-- ===== src/Utf8/Correct.antt =====
-- `IsValidUtf8` of src/utf8.cc accepts exactly the encodings of scalar values.
use wasm_sandboxing.Base.{
  eq_of_some, ℕ, zero, suc, ◌+◌, ◌/◌, ◌%◌, ◌≤◌, ◌<◌, ◌≡◌, refl, sym, ap, subst, ◌∙◌, ◌↔◌, inl, inr,
  Bool, true, false, none, some, Option-cases, List, [], ◌∷◌, ◌++◌, All, length, length-append,
  arith,
}
use native.Mathlib.Decide.{dec_lt}
use wasm_sandboxing.Utf8.{next, valid_loop, is_valid_utf8}
use wasm_sandboxing.Utf8.Scalars.{
  IsByte, IsScalar, encode, encode_all, Decodes, next-Decodes, next-encode-1, next-encode-2,
  next-encode-3, next-encode-4,
}

one-le-encode : (c : ℕ) → 1 ≤ length (encode c)
unfolding encode
one-le-encode c = ground arith

All-right : (xs ys : List ℕ) → All IsByte (xs ++ ys) → All IsByte ys
All-right [] ys h = h
All-right (x ∷ xs) ys h = All-right xs ys h.1

-- After an accepted round fewer bytes are left, and they are bytes.
rest_lem :
    (a : ℕ) (bs rest : List ℕ)
    → a < 256
    → All IsByte bs
    → Decodes a bs rest
    → (length rest ≤ length bs) × All IsByte rest
rest_lem a bs rest h w (c, i, e) = (
  omega (arith, ap length e, length-append (encode c) rest, one-le-encode c),
  All-right (encode c) rest (subst (All IsByte) e (h, w)),
)

loop-some :
    (fuel a : ℕ) (bs rest : List ℕ)
    → next a bs ≡ some rest
    → valid_loop (suc fuel) (a ∷ bs) ≡ valid_loop fuel rest
unfolding valid_loop
loop-some fuel a bs rest e = rw (e, valid_loop)

loop-none :
    (fuel a : ℕ) (bs : List ℕ) → next a bs ≡ none → valid_loop (suc fuel) (a ∷ bs) ≡ some false
unfolding valid_loop
loop-none fuel a bs e = rw (e, valid_loop)

loop-nil : (fuel : ℕ) → valid_loop fuel [] ≡ some true
unfolding valid_loop
loop-nil zero = refl
loop-nil (suc fuel) = refl

loop-ends :
    (fuel : ℕ) (s : List ℕ)
    → length s ≤ fuel
    → All IsByte s
    → (b : Bool) × (valid_loop fuel s ≡ some b)
loop-ends fuel [] h w = (true, loop-nil fuel)
loop-ends zero (a ∷ bs) h w = absurd (omega arith)
loop-ends (suc fuel) (a ∷ bs) h w = elim (Option-cases (next a bs)) [
  | inl e ↦ (false, loop-none fuel a bs e)
  | inr (rest, e) ↦
      let (shorter, bytes) = rest_lem a bs rest w.0 w.1 (next-Decodes a bs rest w.1 e) in
      let (b, is) = loop-ends fuel rest (omega arith) bytes in (b, loop-some fuel a bs rest e ∙ is)
]

abbrev pub IsEncoded : List ℕ → Type 0
IsEncoded s = (cs : List ℕ) × All IsScalar cs × (s ≡ encode_all cs)

loop_sound :
    (fuel : ℕ) (s : List ℕ)
    → length s ≤ fuel
    → All IsByte s
    → valid_loop fuel s ≡ some true
    → IsEncoded s
unfolding encode_all
loop_sound fuel [] h w t = ([], tt, refl)
loop_sound zero (a ∷ bs) h w t = absurd (omega arith)
loop_sound (suc fuel) (a ∷ bs) h w t = elim (Option-cases (next a bs)) [
  | inl e ↦ cc (loop-none fuel a bs e)
  | inr (rest, e) ↦
      let d = next-Decodes a bs rest w.1 e in
      let (shorter, bytes) = rest_lem a bs rest w.0 w.1 d in
      let (cs, scalars, is) =
        loop_sound fuel rest (omega arith) bytes (sym (loop-some fuel a bs rest e) ∙ t) in
      (d.0 ∷ cs, (d.1, scalars), d.2 ∙ ap (λ xs. encode d.0 ++ xs) is)
]

encode-1 : (c : ℕ) → c < 0x80 → encode c ≡ c ∷ []
unfolding encode
encode-1 c h = ground arith

encode-2 : (c : ℕ) → 0x80 ≤ c → c < 0x800 → encode c ≡ (0xc0 + c / 64) ∷ (0x80 + c % 64) ∷ []
unfolding encode
encode-2 c h k = ground arith

encode-3 :
    (c : ℕ)
    → 0x800 ≤ c
    → c < 0x10000
    → encode c ≡ (0xe0 + c / 4096) ∷ (0x80 + c / 64 % 64) ∷ (0x80 + c % 64) ∷ []
unfolding encode
encode-3 c h k = ground arith

encode-4 :
    (c : ℕ)
    → 0x10000 ≤ c
    → encode c
      ≡ (0xf0 + c / 262144) ∷ (0x80 + c / 4096 % 64) ∷ (0x80 + c / 64 % 64) ∷ (0x80 + c % 64) ∷ []
unfolding encode
encode-4 c h = ground arith

loop-encode :
    (fuel c : ℕ) (rest : List ℕ)
    → IsScalar c
    → valid_loop (suc fuel) (encode c ++ rest) ≡ valid_loop fuel rest
loop-encode fuel c rest i = elim (dec_lt c 0x80) [
  | yes p ↦ rw (encode-1 c p) (loop-some fuel _ _ rest (next-encode-1 c rest p))
  | no p ↦ elim (dec_lt c 0x800) [
    | yes q ↦
        rw (encode-2 c (omega arith) q)
          (loop-some fuel _ _ rest (next-encode-2 c rest (omega arith) q))
    | no q ↦ elim (dec_lt c 0x10000) [
      | yes r ↦
          rw (encode-3 c (omega arith) r)
            (loop-some fuel _ _ rest (next-encode-3 c rest (omega arith) r i))
      | no r ↦
          rw (encode-4 c (omega arith))
            (loop-some fuel _ _ rest (next-encode-4 c rest (omega arith) (omega arith)))
    ]
  ]
]

loop_complete :
    (cs : List ℕ) (fuel : ℕ)
    → length (encode_all cs) ≤ fuel
    → All IsScalar cs
    → valid_loop fuel (encode_all cs) ≡ some true
unfolding encode_all
loop_complete [] fuel h w = loop-nil fuel
loop_complete (c ∷ cs) zero h w =
    absurd (omega (arith, length-append (encode c) (encode_all cs), one-le-encode c))
loop_complete (c ∷ cs) (suc fuel) h w =
    loop-encode fuel c (encode_all cs) w.0
    ∙ loop_complete cs fuel
        (omega (arith, length-append (encode c) (encode_all cs), one-le-encode c)) w.1

-- On every sequence of bytes the check ends with an answer, and it is `true` exactly if the
-- bytes are the UTF-8 encodings, one after the other, of Unicode scalar values.
pub is_valid_utf8_lem :
    (s : List ℕ)
    → All IsByte s
    → (b : Bool) × (is_valid_utf8 s ≡ some b) × ((b ≡ true) ↔ IsEncoded s)
unfolding is_valid_utf8
is_valid_utf8_lem s w =
    let (b, is) = loop-ends (length s) s (omega arith) w in
    (
      b,
      is,
      (
        λ e. loop_sound (length s) s (omega arith) w (is ∙ ap some e),
        λ (cs, scalars, e). eq_of_some (
            sym is
            ∙ ap (λ t. valid_loop (length t) t) e
            ∙ loop_complete cs _ (omega arith) scalars),
      ),
    )

-- ===== src/Leb128/RoundTrip.antt =====
-- Round trips through `WriteU32Leb128`, `WriteFixedU32Leb128` and `ReadU32Leb128`
-- (src/leb128.cc).
use wasm_sandboxing.Base.{
  ℕ, zero, suc, ◌+◌, ◌/◌, ◌%◌, ◌^◌, ◌≤◌, ◌<◌, ◌≡◌, refl, ap, ◌∙◌, some, List, [], ◌∷◌, ◌++◌, length,
  bit_and, bit_or, ltb, if◌then◌else◌, arith,
}
use wasm_sandboxing.Base.Bits.{bit_and_0x7f, bit_and_0x0f, byte-bit_or_0x80}
use wasm_sandboxing.Leb128.{
  length_loop, u32_leb128_length, leb128_loop_until, shift_right_7, is_zero, write_u32_leb128,
  write_fixed_u32_leb128, read_ok, read_u32_leb128,
}
use wasm_sandboxing.Leb128.Unsigned.{read_one, read_two, read_three, read_four, read_five}
use native.Mathlib.Decide.{dec_lt}
use native.Mathlib.Nat.{pow-suc}

-- The unsigned LEB128 encoding of `v` in at most `n + 1` bytes.
unfoldable pub encoding : ℕ → ℕ → List ℕ
encoding zero v = v ∷ []
encoding (suc n) v =
    let more = (v % 128 + 128) ∷ encoding n (v / 128) in if ltb v 128 then v ∷ [] else more

inner : (v : ℕ) → bit_or (bit_and v 0x7f) 0x80 ≡ v % 128 + 128
inner v = ap (λ x. bit_or x 0x80) (bit_and_0x7f v) ∙ byte-bit_or_0x80 (v % 128) (omega arith)

loop-encoding :
    (n v : ℕ)
    → v < 128 ^ suc n
    → leb128_loop_until shift_right_7 is_zero (suc n) v ≡ some (encoding n v)
unfolding leb128_loop_until encoding
loop-encoding zero v h = ground (arith, bit_and_0x7f v)
loop-encoding (suc n) v h =
    ground (arith, bit_and_0x7f v, inner v, pow-suc 128 (suc n), loop-encoding n (v / 128))

-- On every uint32_t `WriteU32Leb128` stays within its array and writes the shortest encoding.
pub write_u32_leb128-encoding : (v : ℕ) → v < 2 ^ 32 → write_u32_leb128 v ≡ some (encoding 4 v)
unfolding write_u32_leb128
write_u32_leb128-encoding v h = loop-encoding 4 v (omega arith)

length_loop-encoding :
    (n v size : ℕ)
    → v < 128 ^ suc n
    → length_loop (suc n) v size ≡ some (size + length (encoding n v))
unfolding length_loop encoding
length_loop-encoding zero v size h = ground arith
length_loop-encoding (suc n) v size h =
    ground (arith, pow-suc 128 (suc n), length_loop-encoding n (v / 128) (size + 1))

last : (n v : ℕ) → v < 128 → encoding n v ≡ v ∷ []
unfolding encoding
last zero v h = refl
last (suc n) v h = ground arith

more : (n v : ℕ) → 128 ≤ v → encoding (suc n) v ≡ (v % 128 + 128) ∷ encoding n (v / 128)
unfolding encoding
more n v h = ground arith

push : (b : ℕ) {xs ys : List ℕ} → xs ≡ ys → b ∷ xs ≡ b ∷ ys
push b e = ap (λ zs. b ∷ zs) e

-- A case for each number of bytes.
Reads : ℕ → List ℕ → List ℕ → Type 0
Reads v rest bytes = read_u32_leb128 (bytes ++ rest) ≡ read_ok (length bytes) v

Reads-encoding : (v : ℕ) (rest : List ℕ) → v < 2 ^ 32 → Reads v rest (encoding 4 v)
unfolding Reads
Reads-encoding v rest h = elim (dec_lt v 128) [
  | yes a ↦ rw (last 4 v a) (read_one rest v a)
  | no a ↦ elim (dec_lt (v / 128) 128) [
    | yes b ↦
        rw (more 3 v (omega arith), last 3 (v / 128) b)
          (read_two rest _ _ (omega arith) b ∙ ap (read_ok 2) (omega arith))
    | no b ↦ elim (dec_lt (v / 128 / 128) 128) [
      | yes c ↦
          rw (more 3 v (omega arith), more 2 (v / 128) (omega arith), last 2 (v / 128 / 128) c)
            (read_three rest _ _ _ (omega arith) (omega arith) c ∙ ap (read_ok 3) (omega arith))
      | no c ↦ elim (dec_lt (v / 128 / 128 / 128) 128) [
        | yes d ↦
            rw
              (
                more 3 v (omega arith),
                more 2 (v / 128) (omega arith),
                more 1 (v / 128 / 128) (omega arith),
                last 1 (v / 128 / 128 / 128) d,
              )
              (read_four rest _ _ _ _ (omega arith) (omega arith) (omega arith) d
                ∙ ap (read_ok 4) (omega arith))
        | no d ↦
            rw
              (
                more 3 v (omega arith),
                more 2 (v / 128) (omega arith),
                more 1 (v / 128 / 128) (omega arith),
                more 0 (v / 128 / 128 / 128) (omega arith),
                last 0 (v / 128 / 128 / 128 / 128) (omega arith),
              )
              (read_five rest _ _ _ _ _ (omega arith) (omega arith) (omega arith) (omega arith)
                  (omega arith)
                ∙ ap (read_ok 5) (omega arith))
      ]
    ]
  ]
]

-- For every uint32_t `WriteU32Leb128` stays within its array, `U32Leb128Length` tells how many
-- bytes it writes, and `ReadU32Leb128` reads the value back from them, whatever follows.
pub read-write_u32_leb128 :
    (v : ℕ) (rest : List ℕ)
    → v < 2 ^ 32
    → (bytes : List ℕ) × (write_u32_leb128 v ≡ some bytes)
      × (u32_leb128_length v ≡ some (length bytes))
      × (read_u32_leb128 (bytes ++ rest) ≡ read_ok (length bytes) v)
unfolding u32_leb128_length Reads
read-write_u32_leb128 v rest h = (
  encoding 4 v,
  write_u32_leb128-encoding v h,
  length_loop-encoding 4 v 0 (omega arith) ∙ ap some (omega arith),
  Reads-encoding v rest h,
)

-- `ReadU32Leb128` reads back from the five bytes of `WriteFixedU32Leb128` the value of every
-- uint32_t.
pub read-write_fixed_u32_leb128 :
    (v : ℕ) (rest : List ℕ)
    → v < 2 ^ 32
    → read_u32_leb128 (write_fixed_u32_leb128 v ++ rest) ≡ read_ok 5 v
unfolding write_fixed_u32_leb128
read-write_fixed_u32_leb128 v rest h =
    rw
      (
        inner v,
        inner (v / 2 ^ 7),
        inner (v / 2 ^ 14),
        inner (v / 2 ^ 21),
        bit_and_0x0f (v / 2 ^ 28),
      )
      (read_five rest _ _ _ _ _ (omega arith) (omega arith) (omega arith) (omega arith)
          (omega arith)
        ∙ ap (read_ok 5) (omega arith))

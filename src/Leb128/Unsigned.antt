-- ===== src/Leb128/Unsigned.antt =====
-- `ReadU32Leb128` reads back what the two writers of unsigned integers write (src/leb128.cc).
use wasm_sandboxing.Base.{
  ℕ, zero, suc, ◌+◌, ◌*◌, ◌%◌, ◌^◌, ◌≤◌, ◌<◌, ◌≡◌, refl, ap, ◌∙◌, true, false, some, List, ◌∷◌,
  get_elem?, get_or, bit_or, arith,
}
use wasm_sandboxing.Base.Bits.{bit_and_0x7f, bit_or_disjoint, byte-bit_and_0x80, byte-bit_and_0xf0}
use wasm_sandboxing.Leb128.{byte_at, leb128, ends_at, read_ok, read_u32_leb128}
use native.Mathlib.Nat.{mod-eq_of_lt}

abbrev pub IsByte : ℕ → Type 0
IsByte b = b < 256

-- Seven bits a byte, lowest group first.
payload : List ℕ → ℕ → ℕ
payload p zero = get_or p 0 0 % 128
payload p (suc i) = get_or p (suc i) 0 % 128 * 2 ^ (7 * suc i) + payload p i

byte_at-small :
    (w i shift : ℕ) (p : List ℕ)
    → get_or p i 0 % 128 * 2 ^ shift < 2 ^ w
    → byte_at w p i shift ≡ get_or p i 0 % 128 * 2 ^ shift
unfolding byte_at
byte_at-small w i shift p h =
    ap (λ (t : ℕ). t * 2 ^ shift % 2 ^ w) (bit_and_0x7f (get_or p i 0)) ∙ mod-eq_of_lt h

leb128-suc :
    (w : ℕ) (p : List ℕ) (i : ℕ)
    → leb128 w p i ≡ payload p i
    → payload p i < 2 ^ (7 * suc i)
    → get_or p (suc i) 0 % 128 * 2 ^ (7 * suc i) < 2 ^ w
    → leb128 w p (suc i) ≡ payload p (suc i)
unfolding leb128 payload
leb128-suc w p i e small fits =
    ap (λ x. bit_or x (leb128 w p i)) (byte_at-small w (suc i) (7 * suc i) p fits)
    ∙ ap (bit_or (get_or p (suc i) 0 % 128 * 2 ^ (7 * suc i))) e
    ∙ bit_or_disjoint (7 * suc i) (get_or p (suc i) 0 % 128) (payload p i) small

leb128-zero : (p : List ℕ) → leb128 32 p 0 ≡ payload p 0
unfolding leb128 payload
leb128-zero p = byte_at-small 32 0 0 p (omega arith) ∙ omega arith

leb128-one : (p : List ℕ) → leb128 32 p 1 ≡ payload p 1
unfolding payload
leb128-one p = leb128-suc 32 p 0 (leb128-zero p) (omega arith) (omega arith)

leb128-two : (p : List ℕ) → leb128 32 p 2 ≡ payload p 2
unfolding payload
leb128-two p = leb128-suc 32 p 1 (leb128-one p) (omega arith) (omega arith)

leb128-three : (p : List ℕ) → leb128 32 p 3 ≡ payload p 3
unfolding payload
leb128-three p = leb128-suc 32 p 2 (leb128-two p) (omega arith) (omega arith)

leb128-four : (p : List ℕ) → get_or p 4 0 < 16 → leb128 32 p 4 ≡ payload p 4
unfolding payload
leb128-four p h = leb128-suc 32 p 3 (leb128-three p) (omega arith) (omega arith)

last_byte : (p : List ℕ) (i b : ℕ) → get_elem? p i ≡ some b → b < 128 → ends_at p i ≡ true
unfolding ends_at
last_byte p i b e h = ground (arith, byte-bit_and_0x80 b)

inner_byte :
    (p : List ℕ) (i b : ℕ) → get_elem? p i ≡ some b → 128 ≤ b → b < 256 → ends_at p i ≡ false
unfolding ends_at
inner_byte p i b e h k = ground (arith, byte-bit_and_0x80 b)

abbrev pub IsInner : ℕ → Type 0
IsInner b = (128 ≤ b) × (b < 256)

module _ (rest : List ℕ) where
  pub read_one : (a : ℕ) → a < 128 → read_u32_leb128 (a ∷ rest) ≡ read_ok 1 a
  unfolding read_u32_leb128
  read_one a h =
      let p = a ∷ rest in
      rw (last_byte p 0 a refl h, leb128-zero p) (unfold payload in ground arith)

  pub read_two :
      (a b : ℕ)
      → IsInner a
      → b < 128
      → read_u32_leb128 (a ∷ b ∷ rest) ≡ read_ok 2 (a % 128 + b * 128)
  unfolding read_u32_leb128
  read_two a b ha h =
      let p = a ∷ b ∷ rest in
      rw (inner_byte p 0 a refl ha.0 ha.1, last_byte p 1 b refl h, leb128-one p)
        (unfold payload in ground arith)

  pub read_three :
      (a b c : ℕ)
      → IsInner a
      → IsInner b
      → c < 128
      → read_u32_leb128 (a ∷ b ∷ c ∷ rest) ≡ read_ok 3 (a % 128 + b % 128 * 128 + c * 16384)
  unfolding read_u32_leb128
  read_three a b c ha hb h =
      let p = a ∷ b ∷ c ∷ rest in
      rw
        (
          inner_byte p 0 a refl ha.0 ha.1,
          inner_byte p 1 b refl hb.0 hb.1,
          last_byte p 2 c refl h,
          leb128-two p,
        )
        (unfold payload in ground arith)

  pub read_four :
      (a b c d : ℕ)
      → IsInner a
      → IsInner b
      → IsInner c
      → d < 128
      → read_u32_leb128 (a ∷ b ∷ c ∷ d ∷ rest)
        ≡ read_ok 4 (a % 128 + b % 128 * 128 + c % 128 * 16384 + d * 2097152)
  unfolding read_u32_leb128
  read_four a b c d ha hb hc h =
      let p = a ∷ b ∷ c ∷ d ∷ rest in
      rw
        (
          inner_byte p 0 a refl ha.0 ha.1,
          inner_byte p 1 b refl hb.0 hb.1,
          inner_byte p 2 c refl hc.0 hc.1,
          last_byte p 3 d refl h,
          leb128-three p,
        )
        (unfold payload in ground arith)

  pub read_five :
      (a b c d e : ℕ)
      → IsInner a
      → IsInner b
      → IsInner c
      → IsInner d
      → e < 16
      → read_u32_leb128 (a ∷ b ∷ c ∷ d ∷ e ∷ rest)
        ≡ read_ok 5 (a % 128 + b % 128 * 128 + c % 128 * 16384 + d % 128 * 2097152 + e * 268435456)
  unfolding read_u32_leb128
  read_five a b c d e ha hb hc hd h =
      let p = a ∷ b ∷ c ∷ d ∷ e ∷ rest in
      rw
        (
          inner_byte p 0 a refl ha.0 ha.1,
          inner_byte p 1 b refl hb.0 hb.1,
          inner_byte p 2 c refl hc.0 hc.1,
          inner_byte p 3 d refl hd.0 hd.1,
          last_byte p 4 e refl (omega arith),
          leb128-four p h,
        )
        (unfold payload in ground (arith, byte-bit_and_0xf0 e))

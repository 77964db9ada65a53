-- ===== src/Base/Bits.antt =====
-- `&` with a low mask and `|` of disjoint fields, as arithmetic on the native numbers.
use Prim.Native.Nat.{
  ℕ, zero, suc, ◌+◌, ◌-◌, ◌*◌, ◌/◌, ◌%◌, ◌^◌, ◌≤◌, ◌<◌, min, max, digits, bit_and, bit_or,
  bit_and-bitwise, bit_or-bitwise,
}
use mathlib.Core.Path.{◌≡◌, refl, ◌∙◌, ap}
use mathlib.Core.Bool.{Bool, true, false}
use native.Mathlib.Nat.{pow-suc, le_refl}
use native.Mathlib.Omega.{arith}
use native.Mathlib.Decide.{dec_le}
use mathlib.Core.Logic.{◌⊎◌, inl, inr}
use wasm_sandboxing.Base.Tests.{◌==◌, if◌then◌else◌}

-- The low `k` binary digits of `a`.
abbrev low_digits : ℕ → ℕ → ℕ
low_digits zero a = 0
low_digits (suc k) a = low_digits k (a / 2) * 2 + a % 2

and_zero : (n a : ℕ) → digits (λ b. zero) min n a 0 ≡ 0
and_zero zero a = refl
and_zero (suc n) zero = refl
and_zero (suc n) (suc a) = omega (arith, and_zero n (suc a / 2))

low_digits-zero : (k : ℕ) → low_digits k 0 ≡ 0
low_digits-zero zero = refl
low_digits-zero (suc k) = omega (arith, low_digits-zero k)

and_mask : (k m n a : ℕ) → suc m ≡ 2 ^ k → a ≤ n → digits (λ b. zero) min n a m ≡ low_digits k a
and_mask zero m n a h le =
    let e : m ≡ 0 = omega arith in ap (digits (λ b. zero) min n a) e ∙ and_zero n a
and_mask (suc k) m zero zero h le = omega (arith, low_digits-zero k)
and_mask (suc k) m zero (suc a) h le = absurd (omega arith)
and_mask (suc k) m (suc n) zero h le = omega (arith, low_digits-zero k)
and_mask (suc k) m (suc n) (suc a) h le = omega (
  arith,
  pow-suc 2 k,
  and_mask k (m / 2) n (suc a / 2) (omega (arith, pow-suc 2 k)) (omega arith),
)

pub bit_and_0x7f : (a : ℕ) → bit_and a 0x7f ≡ a % 128
bit_and_0x7f a = bit_and-bitwise a 0x7f ∙ and_mask 7 0x7f a a refl (le_refl a) ∙ omega arith

pub bit_and_0x03 : (a : ℕ) → bit_and a 0x03 ≡ a % 4
bit_and_0x03 a = bit_and-bitwise a 0x03 ∙ and_mask 2 0x03 a a refl (le_refl a) ∙ omega arith

pub bit_and_0x0f : (a : ℕ) → bit_and a 0x0f ≡ a % 16
bit_and_0x0f a = bit_and-bitwise a 0x0f ∙ and_mask 4 0x0f a a refl (le_refl a) ∙ omega arith

or_zero : (n a : ℕ) → a ≤ n → digits (λ b. b) max n a 0 ≡ a
or_zero zero zero le = refl
or_zero zero (suc a) le = absurd (omega arith)
or_zero (suc n) zero le = refl
or_zero (suc n) (suc a) le = omega (arith, or_zero n (suc a / 2) (omega arith))

or_disjoint :
    (k q n a r : ℕ) → a ≡ q * 2 ^ k → r < 2 ^ k → a ≤ n → digits (λ b. b) max n a r ≡ a + r
or_disjoint zero q n a r e h le =
    let z : r ≡ 0 = omega arith in ap (digits (λ b. b) max n a) z ∙ or_zero n a le ∙ omega arith
or_disjoint (suc k) q zero zero r e h le = omega arith
or_disjoint (suc k) q zero (suc a) r e h le = absurd (omega arith)
or_disjoint (suc k) q (suc n) zero r e h le = omega arith
or_disjoint (suc k) q (suc n) (suc a) r e h le =
    let twice : suc a ≡ 2 * (q * 2 ^ k) = omega (arith, ap (λ (t : ℕ). q * t) (pow-suc 2 k)) in
    omega (
      arith,
      pow-suc 2 k,
      or_disjoint k q n (suc a / 2) (r / 2) (omega arith) (omega (arith, pow-suc 2 k))
          (omega arith),
    )

-- `(q << k) | r` is a sum when `r` has at most `k` digits.
pub bit_or_disjoint : (k q r : ℕ) → r < 2 ^ k → bit_or (q * 2 ^ k) r ≡ q * 2 ^ k + r
bit_or_disjoint k q r h = bit_or-bitwise (q * 2 ^ k) r ∙ or_disjoint k q _ _ r refl h (le_refl _)

-- Over a byte, by evaluation.
agrees_below : ℕ → (ℕ → ℕ) → (ℕ → ℕ) → Bool
agrees_below zero f g = true
agrees_below (suc n) f g = let rest = agrees_below n f g in if f n == g n then rest else false

agrees_below_sound : (n : ℕ) (f g : ℕ → ℕ) → agrees_below n f g ≡ true → (x : ℕ) → x < n → f x ≡ g x
unfolding agrees_below
agrees_below_sound zero f g e x h = absurd (omega arith)
agrees_below_sound (suc n) f g e x h = ground (arith, agrees_below_sound n f g (ground arith) x)

pub byte-bit_and_0x80 : (b : ℕ) → b < 256 → bit_and b 0x80 ≡ b / 128 * 128
unfolding agrees_below
byte-bit_and_0x80 = agrees_below_sound 256 _ _ refl

pub byte-bit_or_0x80 : (b : ℕ) → b < 128 → bit_or b 0x80 ≡ b + 128
unfolding agrees_below
byte-bit_or_0x80 = agrees_below_sound 128 _ _ refl

pub byte-bit_and_0xf0 : (b : ℕ) → b < 256 → bit_and b 0xf0 ≡ b / 16 * 16
unfolding agrees_below
byte-bit_and_0xf0 = agrees_below_sound 256 _ _ refl

pub byte-bit_and_0xc0 : (b : ℕ) → b < 256 → bit_and b 0xc0 ≡ b / 64 * 64
unfolding agrees_below
byte-bit_and_0xc0 = agrees_below_sound 256 _ _ refl

pub byte-bit_and_0x40 : (b : ℕ) → b < 256 → bit_and b 0x40 ≡ b / 64 % 2 * 64
unfolding agrees_below
byte-bit_and_0x40 = agrees_below_sound 256 _ _ refl

pub byte-bit_and_0x08 : (b : ℕ) → b < 256 → bit_and b 0x08 ≡ b / 8 % 2 * 8
unfolding agrees_below
byte-bit_and_0x08 = agrees_below_sound 256 _ _ refl

low_digits-lt : (k x : ℕ) → x < 2 ^ k → low_digits k x ≡ x
low_digits-lt zero x h = omega arith
low_digits-lt (suc k) x h =
    omega (arith, pow-suc 2 k, low_digits-lt k (x / 2) (omega (arith, pow-suc 2 k)))

low_digits-wraps : (k x y : ℕ) → y < 2 ^ k → x ≡ y + 2 ^ k → low_digits k x ≡ y
low_digits-wraps zero x y h e = omega arith
low_digits-wraps (suc k) x y h e = omega (
  arith,
  pow-suc 2 k,
  low_digits-wraps k (x / 2) (y / 2) (omega (arith, pow-suc 2 k)) (omega (arith, pow-suc 2 k)),
)

one_le_pow : (k : ℕ) → 1 ≤ 2 ^ k
one_le_pow zero = omega arith
one_le_pow (suc k) = omega (arith, pow-suc 2 k, one_le_pow k)

-- A mask of `k` ones leaves a number below `2 ^ k`, and takes one `2 ^ k` off a number below twice
-- that.
pub bit_and-mask :
    (k x : ℕ)
    → x < 2 ^ k + 2 ^ k
    → (bit_and x (2 ^ k - 1) < 2 ^ k)
      × ((bit_and x (2 ^ k - 1) ≡ x) ⊎ (bit_and x (2 ^ k - 1) + 2 ^ k ≡ x))
bit_and-mask k x h =
    let is : bit_and x (2 ^ k - 1) ≡ low_digits k x =
      bit_and-bitwise x (2 ^ k - 1)
      ∙ and_mask k (2 ^ k - 1) x x (omega (arith, one_le_pow k)) (le_refl x) in
    elim (dec_le (2 ^ k) x) [
      | yes y ↦
          let e = low_digits-wraps k x (x - 2 ^ k) (omega arith) (omega arith) in
          (omega arith, inr (omega arith))
      | no n ↦ let e = low_digits-lt k x (omega arith) in (omega arith, inl (omega arith))
    ]

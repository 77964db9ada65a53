-- ===== src/Interp/Ints/Signs.antt =====
-- Products and sums of numbers that stand for signed ones modulo a power of two, as the signed
-- operations of src/interp.cc compute with them.
use native.Mathlib.Nat.{mul_assoc, mul_comm, mul-add, add-mul, mul-add-mod_self_left}
use wasm_sandboxing.Base.{ℕ, ◌+◌, ◌*◌, ◌%◌, ◌≡◌, ◌∙◌, sym, ap, arith}

-- Numbers that differ by multiples of `m`.
pub mod-cong : (m x y u v : ℕ) → m * u + x ≡ m * v + y → x % m ≡ y % m
mod-cong m x y u v e =
    sym (mul-add-mod_self_left m u x) ∙ ap (λ z. z % m) e ∙ mul-add-mod_self_left m v y

-- `x` and `y` are opposite modulo `m`.
abbrev pub Opposite : ℕ → ℕ → ℕ → Type 0
Opposite m x y = (u : ℕ) × (x + y ≡ m * u)

pub Opposite-mul : (m x y k : ℕ) → Opposite m x y → Opposite m (x * k) (y * k)
Opposite-mul m x y k (u, e) =
    (u * k, omega (arith, add-mul x y k, ap (λ z. z * k) e, mul_assoc m u k))

-- The four cases of the signs, from `ma ≡ q' * mb + r'` on the magnitudes.
pub pos_neg :
    (m q q' b mb r : ℕ) → Opposite m q q' → b + mb ≡ m → (q * b + r) % m ≡ (q' * mb + r) % m
pos_neg m q q' b mb r o e =
    let (u, p) = Opposite-mul m q q' b o in
    mod-cong m _ _ q' u (omega (arith, p, mul-add q' b mb, ap (λ z. q' * z) e, mul_comm q' m))

pub neg_pos :
    (m q q' b r r' a : ℕ)
    → Opposite m q q'
    → Opposite m r r'
    → a + (q' * b + r') ≡ m
    → (q * b + r) % m ≡ a % m
neg_pos m q q' b r r' a o (v, ev) e =
    let (u, p) = Opposite-mul m q q' b o in
    mod-cong m _ _ 1 (u + v) (omega (arith, p, ev, e, mul-add m u v))

pub neg_neg :
    (m q b mb r r' a : ℕ)
    → b + mb ≡ m
    → Opposite m r r'
    → a + (q * mb + r') ≡ m
    → (q * b + r) % m ≡ a % m
neg_neg m q b mb r r' a e (v, ev) ea =
    mod-cong m _ _ 1 (q + v)
      (omega (arith, mul-add q b mb, ap (λ z. q * z) e, mul_comm q m, ev, ea, mul-add m q v))

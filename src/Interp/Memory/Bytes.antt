-- ===== src/Interp/Memory/Bytes.antt =====
-- Numbers as bytes, lowest first: the `memcpy`s of src/interp.cc and of the instruction stream.
use native.Mathlib.Nat.{
  mul_assoc, div-add-mod, mul-add-mod_self_left, mod-eq_of_lt, mod-lt, div-div-eq-div-mul, pow-suc,
}
use wasm_sandboxing.Base.{
  ℕ, zero, suc, ◌+◌, ◌-◌, ◌*◌, ◌/◌, ◌%◌, ◌^◌, ◌≤◌, ◌<◌, ◌≡◌, ◌∙◌, ◌⊎◌, inl, inr, sym, ap, arith,
}
use wasm_sandboxing.Interp.State.{read_bytes}
use wasm_sandboxing.Interp.Memory.{write_bytes}

-- The lowest byte and the others, below `256 * m`.
mod-256-mul : (x m : ℕ) → 0 < m → x % 256 + 256 * (x / 256 % m) ≡ x % (256 * m)
mod-256-mul x m h = sym (ap (λ a. a % (256 * m)) e ∙ mul-add-mod_self_left _ _ _ ∙ mod-eq_of_lt b)
  where
    e : x ≡ 256 * m * (x / 256 / m) + (x % 256 + 256 * (x / 256 % m))
    e = omega (arith, mul_assoc 256 m (x / 256 / m), div-add-mod (x / 256) m)

    b : x % 256 + 256 * (x / 256 % m) < 256 * m
    b = omega (arith, mod-lt (x / 256) h)

pow_pos : (k : ℕ) → 0 < 2 ^ k
pow_pos zero = omega arith
pow_pos (suc k) = omega (arith, pow-suc 2 k, pow_pos k)

pow-4 : (j : ℕ) → 2 ^ suc (suc (suc (suc j))) ≡ 16 * 2 ^ j
pow-4 j =
    omega (
      arith,
      pow-suc 2 j,
      pow-suc 2 (suc j),
      pow-suc 2 (suc (suc j)),
      pow-suc 2 (suc (suc (suc j))),
    )

pow-8 : (j : ℕ) → 2 ^ (8 * (j + 1)) ≡ 256 * 2 ^ (8 * j)
pow-8 j =
    let k = 8 * j in
    let e : 8 * (j + 1) ≡ suc (suc (suc (suc (suc (suc (suc (suc k))))))) = omega arith in
    ap (λ i. 2 ^ i) e ∙ omega (arith, pow-4 k, pow-4 (suc (suc (suc (suc k)))))

write_bytes-inside :
    (d : ℕ → ℕ) (a n v j : ℕ) → j < n → write_bytes d a n v (a + j) ≡ v / 2 ^ (8 * j) % 2 ^ 8
write_bytes-inside d a n v j h =
    let e : a + j - a ≡ j = omega arith in grind (arith, ap (λ i. v / 2 ^ (8 * i) % 2 ^ 8) e)

pub write_bytes-outside :
    (d : ℕ → ℕ) (a n v x : ℕ) → (x < a) ⊎ (a + n ≤ x) → write_bytes d a n v x ≡ d x
write_bytes-outside d a n v x (inl h) = ground arith
write_bytes-outside d a n v x (inr h) = ground arith

shifted : (j v : ℕ) → v / 2 ^ (8 * (j + 1)) ≡ v / 2 ^ (8 * j) / 256
shifted j v =
    let e : 2 ^ (8 * (j + 1)) ≡ 2 ^ (8 * j) * 256 = omega (arith, pow-8 j) in
    ap (λ y. v / y) e ∙ sym (div-div-eq-div-mul v (2 ^ (8 * j)) 256)

-- The bytes from the `j`-th on.
read_bytes-from :
    (d : ℕ → ℕ) (a n v j k : ℕ)
    → j + k ≡ n
    → read_bytes (write_bytes d a n v) (a + j) k ≡ v / 2 ^ (8 * j) % 2 ^ (8 * k)
read_bytes-from d a n v j zero h = omega arith
read_bytes-from d a n v j (suc k) h =
    let m = 2 ^ (8 * k) in
    let x = v / 2 ^ (8 * j) in
    let ea : a + j + 1 ≡ a + (j + 1) = omega arith in
    let rest : read_bytes (write_bytes d a n v) (a + j + 1) k ≡ x / 256 % m =
      ap (λ i. read_bytes (write_bytes d a n v) i k) ea
      ∙ read_bytes-from d a n v (j + 1) k (omega (arith, h))
      ∙ ap (λ y. y % m) (shifted j v) in
    let em : 2 ^ (8 * suc k) ≡ 256 * m = ap (λ i. 2 ^ i) (omega arith) ∙ pow-8 k in
    omega (
      arith,
      write_bytes-inside d a n v j (omega (arith, h)),
      rest,
      mod-256-mul x m (pow_pos _),
      ap (λ y. x % y) em,
    )

pub read_bytes-write_bytes :
    (d : ℕ → ℕ) (a n v : ℕ) → read_bytes (write_bytes d a n v) a n ≡ v % 2 ^ (8 * n)
read_bytes-write_bytes d a n v =
    let ea : a ≡ a + 0 = omega arith in
    ap (λ i. read_bytes (write_bytes d a n v) i n) ea
    ∙ read_bytes-from d a n v 0 n (omega arith)
    ∙ ap (λ y. y % 2 ^ (8 * n)) (omega arith)

pub write_bytes-byte : (d : ℕ → ℕ) (a v : ℕ) → write_bytes d a 1 v a ≡ v % 256
write_bytes-byte d a v =
    let ea : a ≡ a + 0 = omega arith in
    ap (write_bytes d a 1 v) ea ∙ write_bytes-inside d a 1 v 0 (omega arith) ∙ omega arith

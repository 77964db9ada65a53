-- ===== src/Interp/Ints/Division.antt =====
-- Signed division and remainder (src/interp.cc).
use native.Mathlib.Nat.{
  div-add-mod', div-le_self, mod-le, pow-suc, one-le-pow, mod-lt, mod_self, mod-eq_of_lt,
  mul-le-mul_left,
}
use wasm_sandboxing.Base.{
  ℕ, zero, suc, ◌+◌, ◌-◌, ◌*◌, ◌/◌, ◌%◌, ◌^◌, ◌≤◌, ◌<◌, ◌≡◌, ◌≢◌, ◌∙◌, ◌⊎◌, inl, inr, refl, sym, ap,
  Bool, true, false, not, Bool-cases, ltb, ◌==◌, if◌then◌else◌, arith,
}
use wasm_sandboxing.Interp.State.{Result, ok, integer_divide_by_zero, integer_overflow}
use wasm_sandboxing.Interp.Ints.Signs.{Opposite, pos_neg, neg_pos, neg_neg}
use wasm_sandboxing.Interp.Ints.{
  is_negative, negate, magnitude, is_normal_div_rem_s, int_div_s, int_rem_s,
}

-- What the two functions return where they do not trap, from the four tests.
quotient_of :
    (zero? normal? na nb : Bool) (x y q : ℕ)
    → ◌≡◌ {A = Result × ℕ}
        (if zero?
          then (integer_divide_by_zero, 0)
          else if not normal?
          then (integer_overflow, 0)
          else if na
          then (ok, if nb then x else y)
          else (ok, if nb then y else x))
        (ok, q)
    → (zero? ≡ false)
      × (normal? ≡ true)
      × (q ≡ (if na then (if nb then x else y) else (if nb then y else x)))
quotient_of true n na nb x y q e = absurd (ground arith)
quotient_of false false na nb x y q e = absurd (ground arith)
quotient_of false true true nb x y q e = (refl, refl, cc)
quotient_of false true false nb x y q e = (refl, refl, cc)

remainder_of :
    (zero? normal? na : Bool) (x y r : ℕ)
    → zero? ≡ false
    → normal? ≡ true
    → ◌≡◌ {A = Result × ℕ}
        (if zero?
          then (integer_divide_by_zero, 0)
          else if normal?
          then (ok, if na then y else x)
          else (ok, 0))
        (ok, r)
    → r ≡ (if na then y else x)
remainder_of true n na x y r z k e = absurd (ground arith)
remainder_of false false na x y r z k e = absurd (ground arith)
remainder_of false true na x y r z k e = cc

-- Whether the signs of two numbers differ.
abbrev pub differ : Bool → Bool → Bool
differ a b = if a then not b else b

-- The quotient by the two signs.
by_signs :
    (na nb : Bool) (x y : ℕ)
    → ◌≡◌ {A = ℕ}
        (if na then (if nb then x else y) else (if nb then y else x))
        (if differ na nb then y else x)
by_signs true true x y = refl
by_signs true false x y = refl
by_signs false true x y = refl
by_signs false false x y = refl

-- `2 ^ w` is twice an `h`, half of it.
module _ (w h : ℕ) (pos : 0 < h) (full : 2 ^ w ≡ h + h) (half : 2 ^ (w - 1) ≡ h) where
  negated_lt : (x : ℕ) → suc x ≤ h → 2 ^ w - suc x < 2 ^ w
  negated_lt x le = omega arith

  magnitude_neg :
      (a : ℕ)
      → a < 2 ^ w
      → is_negative w a ≡ true
      → (a + magnitude w a ≡ 2 ^ w) × (magnitude w a ≤ h)
  magnitude_neg a lt n =
      let le : h ≤ a = ground arith in
      let e : magnitude w a ≡ 2 ^ w - a = rw n refl in (omega arith, omega arith)

  magnitude_pos : (a : ℕ) → is_negative w a ≡ false → (magnitude w a ≡ a) × (a < h)
  magnitude_pos a n = (rw n refl, ground arith)

  negate-Opposite : (x : ℕ) → x ≤ h → Opposite (2 ^ w) (negate w x) x
  negate-Opposite zero le =
      (0, ap (λ z. z % 2 ^ w + 0) (omega arith) ∙ ap (λ z. z + 0) (mod_self (2 ^ w)) ∙ omega arith)
  negate-Opposite (suc x) le = (1, omega (arith, mod-eq_of_lt (negated_lt x le)))

  magnitude_nonzero : (b : ℕ) → b < 2 ^ w → (b == 0) ≡ false → 0 < magnitude w b
  magnitude_nonzero b lt nz =
      let p : 0 < b = ground arith in
      elim (Bool-cases (is_negative w b)) [
        | inl n ↦ let (e, _) = magnitude_neg b lt n in omega (arith, e, lt)
        | inr n ↦ let (e, _) = magnitude_pos b n in omega (arith, e, p)
      ]

  not_negative : (x : ℕ) → x < h → is_negative w x ≡ false
  not_negative x lt = ground arith

  negative_negated : (x : ℕ) → suc x ≤ h → is_negative w (2 ^ w - suc x) ≡ true
  negative_negated x le = let l : h ≤ 2 ^ w - suc x = omega arith in ground arith

  negate_zero : negate w 0 ≡ 0
  negate_zero = ap (λ z. z % 2 ^ w) (omega arith) ∙ mod_self (2 ^ w)

  -- A number with the magnitude `x` and the sign `negative`.
  abbrev signed : Bool → ℕ → ℕ
  signed negative x = if negative then negate w x else x

  signed_back :
      (negative : Bool) (x : ℕ)
      → x ≤ h
      → (negative ≡ false → x < h)
      → (magnitude w (signed negative x) ≡ x)
        × ((signed negative x ≡ 0) ⊎ (is_negative w (signed negative x) ≡ negative))
  signed_back false x le lt = let n = not_negative x (lt refl) in (rw n refl, inr n)
  signed_back true zero le lt = (rw (negate_zero, not_negative 0 pos) refl, inl negate_zero)
  signed_back true (suc x) le lt =
      let e : negate w (suc x) ≡ 2 ^ w - suc x = mod-eq_of_lt (negated_lt x le) in
      let n = negative_negated x le in
      let back : 2 ^ w - (2 ^ w - suc x) ≡ suc x = omega arith in
      (rw (e, n, back) refl, inr (rw e n))

  -- The magnitudes of the quotient and the remainder.
  module _ (a b : ℕ) (la : a < 2 ^ w) (lb : b < 2 ^ w) where
    abbrev quotient : ℕ
    quotient = magnitude w a / magnitude w b

    abbrev remainder : ℕ
    remainder = magnitude w a % magnitude w b

    divided : quotient * magnitude w b + remainder ≡ magnitude w a
    divided = div-add-mod' (magnitude w a) (magnitude w b)

    magnitude_le : (c : ℕ) → c < 2 ^ w → magnitude w c ≤ h
    magnitude_le c lt = elim (Bool-cases (is_negative w c)) [
      | inl n ↦ let (_, le) = magnitude_neg c lt n in le
      | inr n ↦ let (e, l) = magnitude_pos c n in omega (arith, e, l)
    ]

    quotient-Opposite : Opposite (2 ^ w) (negate w quotient) quotient
    quotient-Opposite =
        negate-Opposite quotient
          (omega (arith, div-le_self (magnitude w a) (magnitude w b), magnitude_le a la))

    remainder-Opposite : Opposite (2 ^ w) (negate w remainder) remainder
    remainder-Opposite =
        negate-Opposite remainder
          (omega (arith, mod-le (magnitude w a) (magnitude w b), magnitude_le a la))

    -- Where `b` is not negative, it is its magnitude.
    divided_pos : is_negative w b ≡ false → quotient * b + remainder ≡ magnitude w a
    divided_pos eb =
        let (e, _) = magnitude_pos b eb in ap (λ z. quotient * z + remainder) (sym e) ∙ divided

    abbrev Euclid : Bool → Bool → Type 0
    Euclid na nb =
        ((if na
                then (if nb then quotient else negate w quotient)
                else (if nb then negate w quotient else quotient))
              * b
            + (if na then negate w remainder else remainder))
          % 2 ^ w
        ≡ a % 2 ^ w

    signed_sum : (na nb : Bool) → is_negative w a ≡ na → is_negative w b ≡ nb → Euclid na nb
    signed_sum true true ea eb =
        let (ma, _) = magnitude_neg a la ea in
        let (mb, _) = magnitude_neg b lb eb in
        neg_neg (2 ^ w) quotient b (magnitude w b) (negate w remainder) remainder a mb
          remainder-Opposite (ap (λ z. a + z) divided ∙ ma)
    signed_sum true false ea eb =
        let (ma, _) = magnitude_neg a la ea in
        neg_pos (2 ^ w) (negate w quotient) quotient b (negate w remainder) remainder a
          quotient-Opposite remainder-Opposite (ap (λ z. a + z) (divided_pos eb) ∙ ma)
    signed_sum false true ea eb =
        let (ma, _) = magnitude_pos a ea in
        let (mb, _) = magnitude_neg b lb eb in
        pos_neg (2 ^ w) (negate w quotient) quotient b (magnitude w b) remainder quotient-Opposite
          mb
        ∙ ap (λ z. z % 2 ^ w) (divided ∙ ma)
    signed_sum false false ea eb =
        let (ma, _) = magnitude_pos a ea in ap (λ z. z % 2 ^ w) (divided_pos eb ∙ ma)

    -- The remainder, with its sign `na`.
    abbrev Small : Bool → ℕ → Type 0
    Small na r = (magnitude w r < magnitude w b) × ((r ≡ 0) ⊎ (is_negative w r ≡ na))

    remainder-Small :
        (b == 0) ≡ false
        → (magnitude w (signed (is_negative w a) remainder) ≡ remainder)
          × Small (is_negative w a) (signed (is_negative w a) remainder)
    remainder-Small nz =
        let lt : remainder < magnitude w b = mod-lt (magnitude w a) (magnitude_nonzero b lb nz) in
        let below : remainder < h = omega (arith, lt, magnitude_le b lb) in
        let (m, s) = signed_back (is_negative w a) remainder (omega arith) (λ e. below) in
        (m, (omega (arith, m, lt), s))

    -- Where the signs are the same the quotient is below `h`.
    quotient_lt :
        (na nb : Bool)
        → is_negative w a ≡ na
        → is_negative w b ≡ nb
        → is_normal_div_rem_s w a b ≡ true
        → differ na nb ≡ false
        → quotient < h
    unfolding is_normal_div_rem_s
    quotient_lt false false ea eb normal d =
        let (ma, lt) = magnitude_pos a ea in
        omega (arith, ma, lt, div-le_self (magnitude w a) (magnitude w b))
    quotient_lt true false ea eb normal d = absurd (ground arith)
    quotient_lt false true ea eb normal d = absurd (ground arith)
    quotient_lt true true ea eb normal d =
        let (ma, la') = magnitude_neg a la ea in
        let (mb, lb') = magnitude_neg b lb eb in
        elim (Bool-cases (ltb 1 (magnitude w b))) [
          | inl two ↦
              let more : 2 ≤ magnitude w b = ground arith in
              let twice : quotient * 2 ≤ quotient * magnitude w b = mul-le-mul_left quotient more in
              omega (arith, twice, divided, la', pos)
          | inr one ↦
              let least : magnitude w b ≤ 1 = ground arith in
              let last : b ≡ 2 ^ w - 1 = omega (arith, mb, least, lb) in
              let above : a ≢ h = λ e.
                let a_min : a ≡ 2 ^ (w - 1) = omega (arith, e, half) in absurd (ground arith) in
              omega (arith, div-le_self (magnitude w a) (magnitude w b), ma, la', above)
        ]

    quotient-signed :
        is_normal_div_rem_s w a b ≡ true
        → let q = signed (differ (is_negative w a) (is_negative w b)) quotient in
          (magnitude w q ≡ quotient)
          × ((q ≡ 0) ⊎ (is_negative w q ≡ differ (is_negative w a) (is_negative w b)))
    quotient-signed normal =
        signed_back (differ (is_negative w a) (is_negative w b)) quotient
          (omega (arith, div-le_self (magnitude w a) (magnitude w b), magnitude_le a la))
          (quotient_lt (is_negative w a) (is_negative w b) refl refl normal)

half_power : (w : ℕ) → 0 < w → 2 ^ w ≡ 2 ^ (w - 1) + 2 ^ (w - 1)
half_power zero h = absurd (omega arith)
half_power (suc w) h = let e : suc w - 1 ≡ w = omega arith in rw e (omega (arith, pow-suc 2 w))

-- Where `IntDivS` gives a quotient and `IntRemS` a remainder, of `w`-bit numbers, they are those of
-- the division of the signed integers that rounds towards 0: the magnitude of the dividend is
-- exactly that of the quotient times that of the divisor plus that of the remainder, which is
-- smaller than that of the divisor; the quotient is 0, or it is negative exactly if just one of the
-- operands is; and the remainder is 0 or has the sign of the dividend. As bit patterns too the
-- quotient times the divisor plus the remainder is the dividend, modulo `2 ^ w`.
pub int_div_s-int_rem_s :
    (w a b q r : ℕ)
    → 0 < w
    → a < 2 ^ w
    → b < 2 ^ w
    → int_div_s w a b ≡ (ok, q)
    → int_rem_s w a b ≡ (ok, r)
    → ((q * b + r) % 2 ^ w ≡ a)
      × (magnitude w q * magnitude w b + magnitude w r ≡ magnitude w a)
      × ((q ≡ 0) ⊎ (is_negative w q ≡ differ (is_negative w a) (is_negative w b)))
      × (magnitude w r < magnitude w b)
      × ((r ≡ 0) ⊎ (is_negative w r ≡ is_negative w a))
unfolding int_div_s int_rem_s
int_div_s-int_rem_s w a b q r pos la lb dq dr =
    let h_pos = one-le-pow (w - 1) 2 (omega arith) in
    let full = half_power w pos in
    let h = 2 ^ (w - 1) in
    let (nz, normal, eq) =
      quotient_of (b == 0) (is_normal_div_rem_s w a b) (is_negative w a) (is_negative w b)
        (magnitude w a / magnitude w b) (negate w (magnitude w a / magnitude w b)) q dq in
    let er =
      remainder_of (b == 0) (is_normal_div_rem_s w a b) (is_negative w a)
        (magnitude w a % magnitude w b) (negate w (magnitude w a % magnitude w b)) r nz normal dr in
    let (mr, (small, signed_r)) = remainder-Small w h h_pos full refl a b la lb nz in
    let (mq, signed_q) = quotient-signed w h h_pos full refl a b la lb normal in
    let eq' = eq ∙ by_signs (is_negative w a) (is_negative w b) _ _ in
    let euclid =
      signed_sum w h h_pos full refl a b la lb (is_negative w a) (is_negative w b) refl refl
      ∙ mod-eq_of_lt la in
    (
      rw (eq, er) euclid,
      rw (eq', er, mq, mr) (divided w h h_pos full refl a b la lb),
      rw eq' signed_q,
      rw er small,
      rw er signed_r,
    )

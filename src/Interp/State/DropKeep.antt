-- ===== src/Interp/State/DropKeep.antt =====
-- `Thread::DropKeep` (src/interp.cc) as an operation on the list of the values, the top first.
use wasm_sandboxing.Base.{
  ℕ, zero, suc, ◌+◌, ◌-◌, ◌≤◌, ◌<◌, ◌≡◌, ◌∙◌, ◌≢◌, ◌⊎◌, inl, inr, Bool-cases, ltb, refl, sym, ap,
  List, [], ◌∷◌, ◌++◌, drop, take, arith,
}
use wasm_sandboxing.Interp.State.{
  Thread, next, continue, put, below, pick, set_pick, keep_loop, drop_values, drop_keep,
}

-- The loop on the values alone, for a stack of height `top` and `d` values to drop.
moved : ℕ → ℕ → ℕ → ℕ → (ℕ → ℕ) → ℕ → ℕ
moved top d i zero s = s
moved top d i (suc left) s =
    moved top d (i + 1) left (put s (top - (d + i + 1)) (s (top - (i + 1))))

below-eq : (top n : ℕ) → n ≤ top → below top n ≡ top - n
below-eq top n h = ground arith

keep_loop-moved :
    (d i left : ℕ) (t : Thread)
    → d + i + left ≤ t.value_stack_top
    → keep_loop d i left t
      ≡ (next tt, record t { value_stack = moved t.value_stack_top d i left t.value_stack })
unfolding keep_loop pick set_pick moved
keep_loop-moved d i zero t h = refl
keep_loop-moved d i (suc left) t h =
    let top = t.value_stack_top in
    let s₁ = λ (a b : ℕ). put t.value_stack a (t.value_stack b) in
    let again = λ (s : ℕ → ℕ). keep_loop d (i + 1) left (record t { value_stack = s }) in
    ap (λ a. again (s₁ a (below top (i + 1)))) (below-eq top (d + i + 1) (omega (arith, h)))
    ∙ ap (λ b. again (s₁ (top - (d + i + 1)) b)) (below-eq top (i + 1) (omega (arith, h)))
    ∙ keep_loop-moved d (i + 1) left _ (omega (arith, h))

put_other : (f : ℕ → ℕ) (i x a : ℕ) → x ≢ i → put f i a x ≡ f x
put_other f i x a h = ground arith

put_at : (f : ℕ → ℕ) (i x a : ℕ) → x ≡ i → put f i a x ≡ a
put_at f i x a h = ground arith

module _ (top d : ℕ) where
  shifted :
      (x i left : ℕ)
      → (x + d + i + suc left < top) ⊎ (top ≤ x + d + i)
      → (x + d + (i + 1) + left < top) ⊎ (top ≤ x + d + (i + 1))
  shifted x i left (inl h) = inl (omega arith)
  shifted x i left (inr h) = inr (omega arith)

  shorter : (i left : ℕ) → (i + suc left ≤ d) ⊎ (d ≡ 0) → (i + 1 + left ≤ d) ⊎ (d ≡ 0)
  shorter i left (inl h) = inl (omega arith)
  shorter i left (inr h) = inr h

  moved-out :
      (i left : ℕ) (s : ℕ → ℕ) (x : ℕ)
      → d + i + left ≤ top
      → (x + d + i + left < top) ⊎ (top ≤ x + d + i)
      → moved top d i left s x ≡ s x
  unfolding moved
  moved-out i zero s x b h = refl
  moved-out i (suc left) s x b h =
      moved-out (i + 1) left _ x (omega (arith, b)) (shifted x i left h)
      ∙ put_other s _ x _ (elim h [ inl lt ↦ omega (arith, b, lt) | inr le ↦ omega (arith, b, le) ])

  moved-in :
      (i left : ℕ) (s : ℕ → ℕ) (x : ℕ)
      → d + i + left ≤ top
      → (i + left ≤ d) ⊎ (d ≡ 0)
      → top ≤ x + d + i + left
      → x + d + i < top
      → moved top d i left s x ≡ s (x + d)
  unfolding moved
  moved-in i zero s x b c l u = absurd (omega arith)
  moved-in i (suc left) s x b c l u = elim (Bool-cases (ltb (x + d + i + 1) top)) [
    | inl h ↦
        let lt : x + d + i + 1 < top = ground arith in
        moved-in (i + 1) left _ x (omega (arith, b)) (shorter i left c) (omega (arith, l))
          (omega (arith, lt))
        ∙ put_other s _ (x + d) _
            (elim c [ inl le ↦ omega (arith, b, l, lt, le) | inr z ↦ omega (arith, b, lt, z) ])
    | inr h ↦
        let ex : x ≡ top - (d + i + 1) = ground arith in
        moved-out (i + 1) left _ x (omega (arith, b)) (inr (omega (arith, ex)))
        ∙ put_at s _ x _ ex
        ∙ ap s (omega (arith, b, ex))
  ]

-- The values of a stack of height `n`, the top first.
abbrev pub values : ℕ → (ℕ → ℕ) → List ℕ
values zero s = []
values (suc n) s = s n ∷ values n s

values-eq : (n : ℕ) (s s' : ℕ → ℕ) → ((x : ℕ) → x < n → s' x ≡ s x) → values n s' ≡ values n s
values-eq zero s s' h = refl
values-eq (suc n) s s' h =
    rw (h n (omega arith)) (ap (λ l. s n ∷ l) (values-eq n s s' λ x lt. h x (omega arith)))

drop-values : (j n m : ℕ) (s : ℕ → ℕ) → m ≡ j + n → drop j (values m s) ≡ values n s
drop-values zero n m s e = ap (λ i. values i s) (omega arith)
drop-values (suc j) n zero s e = absurd (omega arith)
drop-values (suc j) n (suc m) s e = drop-values j n m s (omega arith)

-- The `k` topmost values come from `d` above.
values-kept :
    (n d k a b : ℕ) (s s' : ℕ → ℕ)
    → a ≡ n + k
    → b ≡ a + d
    → ((x : ℕ) → x < n → s' x ≡ s x)
    → ((x : ℕ) → n ≤ x → x < a → s' x ≡ s (x + d))
    → values a s' ≡ take k (values b s) ++ values n s
values-kept n d zero a b s s' ea eb out inside =
    ap (λ i. values i s') (omega arith) ∙ values-eq n s s' out
values-kept n d (suc k) zero b s s' ea eb out inside = absurd (omega arith)
values-kept n d (suc k) (suc a) zero s s' ea eb out inside = absurd (omega arith)
values-kept n d (suc k) (suc a) (suc b) s s' ea eb out inside =
    let e : s' a ≡ s b = inside a (omega arith) (omega arith) ∙ ap s (omega arith) in
    rw e (
      ap (λ l. s b ∷ l)
        (values-kept n d k a b s s' (omega arith) (omega arith) out
          λ x le lt. inside x le (omega arith)))

-- Where it keeps no more values than it drops, or drops none, `DropKeep` leaves the values it keeps
-- on top of those below the ones it drops.
pub drop_keep-values :
    (d keep : ℕ) (t : Thread)
    → d + keep ≤ t.value_stack_top
    → (keep ≤ d) ⊎ (d ≡ 0)
    → (s : ℕ → ℕ) × (drop_keep d keep t
        ≡ (next tt, record t { value_stack = s; value_stack_top = t.value_stack_top - d }))
      × (values (t.value_stack_top - d) s
          ≡ take keep (values t.value_stack_top t.value_stack)
            ++ drop (d + keep) (values t.value_stack_top t.value_stack))
unfolding drop_keep drop_values
drop_keep-values d keep t h c =
    let top = t.value_stack_top in
    let s = moved top d 0 keep t.value_stack in
    let n = top - (d + keep) in
    let c' : (0 + keep ≤ d) ⊎ (d ≡ 0) = elim c [ inl le ↦ inl (omega arith) | inr z ↦ inr z ] in
    (
      s,
      ap (continue λ _. drop_values d) (keep_loop-moved d 0 keep t (omega arith))
          ∙ ap (λ k. (next tt, record t { value_stack = s; value_stack_top = k }))
              (below-eq top d (omega arith)),
      values-kept n d keep (top - d) top t.value_stack s (omega arith) (omega arith)
            (λ x lt. moved-out top d 0 keep t.value_stack x (omega arith) (inl (omega arith)))
            (λ x le lt.
              moved-in top d 0 keep t.value_stack x (omega arith) c' (omega arith) (omega arith))
          ∙ ap (λ l. take keep (values top t.value_stack) ++ l)
              (sym (drop-values (d + keep) n top t.value_stack (omega arith))),
    )

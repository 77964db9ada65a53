-- ===== src/CircularArray/Queue.antt =====
-- The circular array is a queue: the list of its items, front first (src/circular-array.h).
use wasm_sandboxing.Base.{
  ℕ, zero, suc, ◌+◌, ◌-◌, ◌%◌, ◌^◌, ◌≤◌, ◌<◌, ◌≡◌, ◌≢◌, refl, sym, ap, ◌∙◌, ◌⊎◌, inl, inr, List, [],
  ◌∷◌, ◌++◌, ◌==◌, arith,
}
use wasm_sandboxing.Base.Bits.{bit_and-mask}
use wasm_sandboxing.Base.{Bool-cases}
use wasm_sandboxing.CircularArray.{
  clear, clear_loop, CircularArray, position, at, back, front_item, pop_back, pop_front, push_back,
  set_element,
}

module _ {ℓ} {A : Type ℓ} where
  -- The first `n` values of `f`.
  abbrev pub items : (ℕ → A) → ℕ → List A
  items f zero = []
  items f (suc n) = f 0 ∷ items (λ i. f (suc i)) n

  items-eq : (f g : ℕ → A) (n : ℕ) → ((i : ℕ) → i < n → f i ≡ g i) → items f n ≡ items g n
  items-eq f g zero h = refl
  items-eq f g (suc n) h =
      ap (λ x. x ∷ items (λ i. f (suc i)) n) (h 0 (omega arith))
      ∙ ap (λ xs. g 0 ∷ xs)
          (items-eq (λ i. f (suc i)) (λ i. g (suc i)) n λ i q. h (suc i) (omega arith))

  items-suc : (f : ℕ → A) (n : ℕ) → items f (suc n) ≡ items f n ++ f n ∷ []
  items-suc f zero = refl
  items-suc f (suc n) = ap (λ xs. f 0 ∷ xs) (items-suc (λ i. f (suc i)) n)

module _ {ℓ} {A : Type ℓ} (k : ℕ) (blank : A) where
  pub record IsValid (c : CircularArray A) : Type 0 where
    pub capacity : 2 ^ k ≤ 2 ^ 62
    pub front_below : c.front < 2 ^ k
    pub size_at_most : c.size ≤ 2 ^ k

  abbrev pub to_list : CircularArray A → List A
  to_list c = items (at k blank c) c.size

  position-lt :
      (c : CircularArray A) (i : ℕ)
      → IsValid c
      → i < 2 ^ k
      → (position k blank c i < 2 ^ k)
        × ((position k blank c i ≡ c.front + i) ⊎ (position k blank c i + 2 ^ k ≡ c.front + i))
  unfolding position
  position-lt c i valid h =
      let a = valid.capacity in
      let b = valid.front_below in
      let e : (c.front + i) % 2 ^ 64 ≡ c.front + i = omega arith in
      rw e (bit_and-mask k (c.front + i) (omega arith))

  module _ (c : CircularArray A) (valid : IsValid c) where
    position-injective : (i j : ℕ) → i < j → j < 2 ^ k → position k blank c i ≢ position k blank c j
    position-injective i j p q e =
        ground (arith, position-lt c i valid (omega arith), position-lt c j valid q)

    -- An assignment at the position of another item.
    set_element-other :
        (i j : ℕ) (v : A)
        → position k blank c i ≢ position k blank c j
        → set_element k blank c.contents (position k blank c j) v (position k blank c i)
          ≡ c.contents (position k blank c i)
    set_element-other i j v ne = ground arith

    size-pred : 1 ≤ c.size → (c.size + 2 ^ 64 - 1) % 2 ^ 64 + 1 ≡ c.size
    size-pred h = let a = valid.capacity in let b = valid.size_at_most in omega arith

    new_front : (c.front + 1) % 2 ^ 64 ≡ c.front + 1
    new_front = let a = valid.capacity in let b = valid.front_below in omega arith

    pop_front-IsValid : 1 ≤ c.size → IsValid (pop_front k blank c)
    unfolding pop_front
    pop_front-IsValid h =
        let b = valid.front_below in
        let d = valid.size_at_most in
        record {
          capacity = valid.capacity;
          front_below = rw new_front ((bit_and-mask k (c.front + 1) (omega arith)).0);
          size_at_most = omega (arith, size-pred h);
        }

    new_front-at :
        ((pop_front k blank c).front ≡ c.front + 1)
        ⊎ ((pop_front k blank c).front + 2 ^ k ≡ c.front + 1)
    unfolding pop_front
    new_front-at =
        let b = valid.front_below in rw new_front ((bit_and-mask k (c.front + 1) (omega arith)).1)

    position-pop_front :
        1 ≤ c.size
        → (i : ℕ) → suc i < 2 ^ k
        → position k blank (pop_front k blank c) i ≡ position k blank c (suc i)
    position-pop_front h i q = ground (
      arith,
      new_front-at,
      position-lt c (suc i) valid q,
      position-lt (pop_front k blank c) i (pop_front-IsValid h) (omega arith),
    )

    -- Where a valid array is not full, `push_back` keeps it valid and adds the value at the end of
    -- the queue.
    pub push_back_lem :
        (v : A)
        → c.size < 2 ^ k
        → IsValid (push_back k blank c v) × (to_list (push_back k blank c v) ≡ to_list c ++ v ∷ [])
    unfolding push_back at
    push_back_lem v h =
        let a = valid.capacity in
        let more : (c.size + 1) % 2 ^ 64 ≡ suc c.size = omega arith in
        (
          record {
            capacity = a;
            front_below = valid.front_below;
            size_at_most = omega (arith, more);
          },
          ap (items (at k blank (push_back k blank c v))) more
              ∙ items-suc (at k blank (push_back k blank c v)) c.size
              ∙ ap (λ xs. xs ++ at k blank (push_back k blank c v) c.size ∷ [])
                  (items-eq _ _ c.size
                    λ i p. set_element-other i c.size v (position-injective i c.size p h))
              ∙ ap (λ x. to_list c ++ x ∷ []) (ground arith),
        )

    -- Where a valid array is not empty, it stays valid, `front` is the first item and `pop_front`
    -- leaves the others.
    pub pop_front_lem :
        1 ≤ c.size
        → IsValid (pop_front k blank c)
          × (to_list c ≡ front_item k blank c ∷ to_list (pop_front k blank c))
    unfolding pop_front at front_item position
    pop_front_lem h =
        let valid' = pop_front-IsValid h in
        let le = valid.size_at_most in
        let one : suc ((c.size + 2 ^ 64 - 1) % 2 ^ 64) ≡ c.size = omega (arith, size-pred h) in
        (
          valid',
          ap (items (at k blank c)) (sym one)
              ∙ ap (λ xs. front_item k blank c ∷ xs)
                  (items-eq _ _ _ λ i p.
                    sym (
                      set_element-other (suc i) 0 blank
                        λ e. position-injective 0 (suc i) (omega arith) (omega arith) (sym e))
                    ∙ ap (set_element k blank c.contents (position k blank c 0) blank)
                        (sym (position-pop_front h i (omega arith)))),
        )

    -- Where a valid array is not empty, it stays valid, `back` is the last item and `pop_back`
    -- leaves the others.
    pub pop_back_lem :
        1 ≤ c.size
        → IsValid (pop_back k blank c)
          × (to_list c ≡ to_list (pop_back k blank c) ++ back k blank c ∷ [])
    unfolding pop_back at back
    pop_back_lem h =
        let le = valid.size_at_most in
        let one : suc ((c.size + 2 ^ 64 - 1) % 2 ^ 64) ≡ c.size = omega (arith, size-pred h) in
        let m = (c.size + 2 ^ 64 - 1) % 2 ^ 64 in
        (
          record {
            capacity = valid.capacity;
            front_below = valid.front_below;
            size_at_most = omega arith;
          },
          ap (items (at k blank c)) (sym one)
              ∙ items-suc (at k blank c) m
              ∙ ap (λ xs. xs ++ back k blank c ∷ [])
                  (items-eq _ _ m λ i p.
                    sym (set_element-other i m blank (position-injective i m p (omega arith)))),
        )

  clear_loop-empties :
      (fuel : ℕ) (c : CircularArray A)
      → c.size ≤ fuel
      → fuel < 2 ^ 64
      → (clear_loop k blank fuel c).size ≡ 0
  unfolding clear_loop pop_back
  clear_loop-empties zero c h w = omega arith
  clear_loop-empties (suc fuel) c h w = elim (Bool-cases (c.size == 0)) [
    | inl y ↦ rw y (ground arith)
    | inr n ↦ rw n (clear_loop-empties fuel (pop_back k blank c) (ground arith) (omega arith))
  ]

  -- On a valid array the loop of `clear` ends with no item left.
  pub clear_lem : (c : CircularArray A) → IsValid c → to_list (clear k blank c) ≡ []
  unfolding clear
  clear_lem c valid =
      let a = valid.capacity in
      let b = valid.size_at_most in
      ap (items (at k blank (clear k blank c)))
        (clear_loop-empties c.size c (omega arith) (omega arith))

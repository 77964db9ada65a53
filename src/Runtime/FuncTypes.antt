-- ===== src/Runtime/FuncTypes.antt =====
-- The table of function types of wasm2c/wasm-rt-impl.cpp. The runtime holds its mutex for a whole
-- call, so that calls do not interleave; allocations succeed. Both registration functions, with
-- variable arguments and with vectors, do the same on the types they are given.
use wasm_sandboxing.Base.{
  ℕ, zero, suc, ◌+◌, ◌≡◌, refl, sym, ap, subst, ◌∙◌, ◌↔◌, inl, inr, Bool, true, false, ◌||◌, not,
  Bool-cases, List, [], ◌∷◌, length, ◌==◌, if◌then◌else◌, arith,
}

-- `wasm_rt_type_t`, by its enumerators' values.
pub data RtType : Type 0 where
  i32 i64 f32 f64 : RtType

abbrev rt_code : RtType → ℕ
rt_code i32 = 0
rt_code i64 = 1
rt_code f32 = 2
rt_code f64 = 3

-- The counts are the lists' lengths.
pub record FuncType : Type 0 where
  pub params : List RtType
  pub results : List RtType

-- The loop over two arrays of the same length.
types_are_equal : List RtType → List RtType → Bool
types_are_equal [] [] = true
types_are_equal [] (b ∷ bs) = true
types_are_equal (a ∷ as') [] = true
types_are_equal (a ∷ as') (b ∷ bs) =
    let rest = types_are_equal as' bs in if rt_code a == rt_code b then rest else false

pub func_types_are_equal : FuncType → FuncType → Bool
unfolding types_are_equal
func_types_are_equal a b =
    if not (length a.params == length b.params) || not (length a.results == length b.results)
    then false
    else if types_are_equal a.params b.params
    then types_are_equal a.results b.results
    else false

-- The search from index `i` on; the new type goes to the end. Indices are returned from 1 on.
pub register_from : ℕ → List FuncType → FuncType → List FuncType × ℕ
unfolding func_types_are_equal
register_from i [] t = (t ∷ [], i + 1)
register_from i (u ∷ us) t =
    let rest = register_from (i + 1) us t in
    if func_types_are_equal u t then (u ∷ us, i + 1) else (u ∷ rest.0, rest.1)

pub register_func_type : List FuncType → FuncType → List FuncType × ℕ
unfolding register_from
register_func_type table t = register_from 0 table t

rt_code-injective : (a b : RtType) → rt_code a ≡ rt_code b → a ≡ b
rt_code-injective i32 i32 h = refl
rt_code-injective i64 i64 h = refl
rt_code-injective f32 f32 h = refl
rt_code-injective f64 f64 h = refl
rt_code-injective _ _ h = absurd (omega arith)

types_are_equal_sound :
    (xs ys : List RtType) → length xs ≡ length ys → types_are_equal xs ys ≡ true → xs ≡ ys
unfolding types_are_equal
types_are_equal_sound [] [] e h = refl
types_are_equal_sound [] (b ∷ bs) e h = absurd (omega arith)
types_are_equal_sound (a ∷ as') [] e h = absurd (omega arith)
types_are_equal_sound (a ∷ as') (b ∷ bs) e h =
    ground (arith, rt_code-injective a b, types_are_equal_sound as' bs)

types_are_equal_refl : (xs : List RtType) → types_are_equal xs xs ≡ true
unfolding types_are_equal
types_are_equal_refl [] = refl
types_are_equal_refl (x ∷ xs) = ground (arith, types_are_equal_refl xs)

-- The comparison decides equality of function types.
func_types_are_equal_iff : (a b : FuncType) → (func_types_are_equal a b ≡ true) ↔ (a ≡ b)
unfolding func_types_are_equal
func_types_are_equal_iff a b = (
  λ h.
      ground
        (arith, types_are_equal_sound a.params b.params, types_are_equal_sound a.results b.results),
  λ e. ground (arith, types_are_equal_refl a.params, types_are_equal_refl a.results),
)

func_types_are_equal_refl : (a : FuncType) → func_types_are_equal a a ≡ true
func_types_are_equal_refl a = (func_types_are_equal_iff a a).1 refl

-- `t` has the index `n + 1`, and no type before it is `t`.
abbrev pub Registered : ℕ → List FuncType → FuncType → Type 0
Registered n [] t = ⊥
Registered zero (u ∷ us) t = u ≡ t
Registered (suc n) (u ∷ us) t = (func_types_are_equal u t ≡ false) × Registered n us t

register_from-Registered :
    (i : ℕ) (table : List FuncType) (t : FuncType)
    → (n : ℕ) × ((register_from i table t).1 ≡ i + n + 1)
      × Registered n (register_from i table t).0 t
unfolding register_from
register_from-Registered i [] t = (0, omega arith, refl)
register_from-Registered i (u ∷ us) t = elim (Bool-cases (func_types_are_equal u t)) [
  | inl e ↦ (0, rw e (omega arith), rw e ((func_types_are_equal_iff u t).0 e))
  | inr e ↦
      let (n, at, is) = register_from-Registered (i + 1) us t in
      (suc n, rw e (at ∙ omega arith), rw e (e, is))
]

-- Whether a registration finds the type or adds it, the type then stands at the index returned,
-- and no earlier entry is equal to it.
pub register_func_type-Registered :
    (table : List FuncType) (t : FuncType)
    → (n : ℕ) × ((register_func_type table t).1 ≡ n + 1)
      × Registered n (register_func_type table t).0 t
unfolding register_func_type
register_func_type-Registered table t =
    let (n, at, is) = register_from-Registered 0 table t in (n, omega arith, is)

register_from_again :
    (i n : ℕ) (table : List FuncType) (t : FuncType)
    → Registered n table t
    → register_from i table t ≡ (table, i + n + 1)
unfolding register_from
register_from_again i n [] t h = elim h [ ]
register_from_again i zero (u ∷ us) t h =
    rw ((func_types_are_equal_iff u t).1 h) (ap (λ k. (u ∷ us, k)) (omega arith))
register_from_again i (suc n) (u ∷ us) t h =
    rw (h.0, register_from_again (i + 1) n us t h.1) (ap (λ k. (u ∷ us, k)) (omega arith))

register_from-keeps :
    (i n : ℕ) (table : List FuncType) (t u : FuncType)
    → Registered n table t
    → Registered n (register_from i table u).0 t
unfolding register_from
register_from-keeps i n [] t u h = elim h [ ]
register_from-keeps i zero (v ∷ vs) t u h = elim (Bool-cases (func_types_are_equal v u)) [
  | inl e ↦ rw e h
  | inr e ↦ rw e h
]
register_from-keeps i (suc n) (v ∷ vs) t u h = elim (Bool-cases (func_types_are_equal v u)) [
  | inl e ↦ rw e h
  | inr e ↦ rw e (h.0, register_from-keeps (i + 1) n vs t u h.1)
]

Registered-unique :
    (n : ℕ) (table : List FuncType) (t u : FuncType)
    → Registered n table t
    → Registered n table u
    → t ≡ u
Registered-unique n [] t u h k = elim h [ ]
Registered-unique zero (v ∷ vs) t u h k = sym h ∙ k
Registered-unique (suc n) (v ∷ vs) t u h k = Registered-unique n vs t u h.1 k.1

-- Two registrations in a row return the same index exactly if the two types are equal, and then
-- the second leaves the table as the first made it.
pub register_func_type_twice :
    (table : List FuncType) (t u : FuncType)
    → let first = register_func_type table t in
      let second = register_func_type first.0 u in
      ((second.1 ≡ first.1) ↔ (t ≡ u)) × (t ≡ u → second.0 ≡ first.0)
unfolding register_func_type
register_func_type_twice table t u = (
  (
    λ e. same (register_from-Registered 0 first.0 u) e,
    λ e. ap (λ p. p.1) (again e) ∙ sym (at ∙ omega arith),
  ),
  λ e. ap (λ p. p.0) (again e),
)
  where
    first : List FuncType × ℕ
    first = register_from 0 table t

    n : ℕ
    n = (register_from-Registered 0 table t).0

    at : first.1 ≡ 0 + n + 1
    at = (register_from-Registered 0 table t).1

    is : Registered n first.0 t
    is = (register_from-Registered 0 table t).2

    again : t ≡ u → register_from 0 first.0 u ≡ (first.0, 0 + n + 1)
    again e =
        subst (λ v. register_from 0 first.0 v ≡ (first.0, 0 + n + 1)) e
          (register_from_again 0 n first.0 t is)

    same :
        (m : ℕ) × ((register_from 0 first.0 u).1 ≡ 0 + m + 1)
          × Registered m (register_from 0 first.0 u).0 u
        → (register_from 0 first.0 u).1 ≡ first.1
        → t ≡ u
    same (m, am, im) e =
        let k : n ≡ m = omega (arith, at, am) in
        Registered-unique m _ t u
          (subst (λ j. Registered j (register_from 0 first.0 u).0 t) k
            (register_from-keeps 0 n first.0 t u is))
          im

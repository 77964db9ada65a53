-- ===== src/Runtime/FuncTable.antt =====
-- The table of callable functions of wasm2c/wasm-rt-impl.cpp. A function pointer is a number, 0
-- for null; the mutex is held for a whole call.
use wasm_sandboxing.Base.{
  ℕ, zero, suc, ◌+◌, ◌-◌, ◌≤◌, ◌<◌, ◌≡◌, ◌≢◌, sym, ap, ◌∙◌, ◌⊎◌, inl, inr, Bool-cases, Option, none,
  some, Option-cases, ◌==◌, ltb, if◌then◌else◌, arith,
}
use native.Mathlib.Decide.{ℕ_discrete}
use wasm_sandboxing.Runtime.Memory.{Outcome, returns, aborts}

abbrev pub func_table_size : ℕ
func_table_size = 1024

pub record Elem : Type 0 where
  pub func_type : ℕ
  pub func : ℕ

-- `data[i]`, for `i` below `size`.
pub record Table : Type 0 where
  pub elems : ℕ → Elem
  pub max_size : ℕ
  pub size : ℕ

abbrev no_elem : Elem
no_elem = record { func_type = 0; func = 0 }

unfoldable pub allocate_table_real : ℕ → ℕ → Table
allocate_table_real elements max_elements = record {
  elems = λ i. no_elem;
  max_size = max_elements;
  size = elements;
}

-- The module's table becomes the runtime's own, whatever sizes it asks for.
unfoldable pub allocate_table : Table → ℕ → ℕ → Table
allocate_table own elements max_elements = own

abbrev put : (ℕ → Elem) → ℕ → Elem → ℕ → Elem
put elems i e j = if j == i then e else elems j

-- The first slot from `i` on, of `left` slots, whose function is null.
unfoldable pub find_empty : ℕ → ℕ → (ℕ → Elem) → Option ℕ
find_empty zero i elems = none
find_empty (suc left) i elems =
    let rest = find_empty left (i + 1) elems in if (elems i).func == 0 then some i else rest

unfoldable pub register_func : Table → ℕ → ℕ → Outcome (Table × ℕ)
register_func t func func_type = elim (find_empty (func_table_size - 1) 1 t.elems) [
  | none ↦ aborts
  | some i ↦
      returns
        (record t { elems = put t.elems i (record { func_type = func_type; func = func }) }, i)
]

pub unregister_func : Table → ℕ → Table
unregister_func t slot =
    if ltb slot func_table_size then record t { elems = put t.elems slot no_elem } else t

pub get_registered_func : Table → ℕ → ℕ
get_registered_func t slot = if ltb slot func_table_size then (t.elems slot).func else 0

-- `i` is the first of the slots from `lo` to `lo + left - 1` that is empty.
record IsFirstEmpty (left lo : ℕ) (elems : ℕ → Elem) (i : ℕ) : Type 0 where
  from : lo ≤ i
  within : i < lo + left
  empty : (elems i).func ≡ 0
  first : (j : ℕ) → lo ≤ j → j < i → (elems j).func ≢ 0

find_empty-some :
    (left lo : ℕ) (elems : ℕ → Elem) (i : ℕ)
    → find_empty left lo elems ≡ some i
    → IsFirstEmpty left lo elems i
unfolding find_empty
find_empty-some zero lo elems i e = cc
find_empty-some (suc left) lo elems i e = elim (Bool-cases ((elems lo).func == 0)) [
  | inl y ↦
      let at : lo ≡ i = ground arith in
      record {
        from = omega arith;
        within = omega arith;
        empty = ap (λ k. (elems k).func) (sym at) ∙ ground arith;
        first = λ j p q. absurd (omega arith);
      }
  | inr n ↦
      let r = find_empty-some left (lo + 1) elems i (ground arith) in
      record {
        from = omega (arith, r.from);
        within = omega (arith, r.within);
        empty = r.empty;
        first = λ j p q z. elim (ℕ_discrete j lo) [
          | yes at ↦ ground (arith, ap (λ k. (elems k).func) at)
          | no ne ↦ r.first j (omega arith) q z
        ];
      }
]

find_empty-none :
    (left lo : ℕ) (elems : ℕ → Elem)
    → find_empty left lo elems ≡ none
    → (j : ℕ) → lo ≤ j
    → j < lo + left
    → (elems j).func ≢ 0
unfolding find_empty
find_empty-none zero lo elems e j p q z = absurd (omega arith)
find_empty-none (suc left) lo elems e j p q z = elim (ℕ_discrete j lo) [
  | yes at ↦ ground (arith, ap (λ k. (elems k).func) at)
  | no ne ↦ find_empty-none left (lo + 1) elems (ground arith) j (omega arith) (omega arith) z
]

module _ (t : Table) (func func_type : ℕ) where
  abbrev with_func : ℕ → Table
  with_func i = record t { elems = put t.elems i (record { func_type = func_type; func = func }) }

  register_func-some :
      (i : ℕ)
      → find_empty (func_table_size - 1) 1 t.elems ≡ some i
      → register_func t func func_type ≡ returns (with_func i, i)
  unfolding register_func
  register_func-some i e = rw (e, register_func)

  register_func-none :
      find_empty (func_table_size - 1) 1 t.elems ≡ none → register_func t func func_type ≡ aborts
  unfolding register_func
  register_func-none e = rw (e, register_func)

-- A registration takes the first empty slot from 1 to 1023: the slot was empty, all before it
-- are in use, the function can then be had back from it, no other slot changes, and once it is
-- unregistered the slot is empty again. If it aborts, none of these slots is empty.
pub register_func_lem :
    (t : Table) (func func_type : ℕ)
    → ((t' : Table) × (i : ℕ) × (register_func t func func_type ≡ returns (t', i))
        × (1 ≤ i)
        × (i < func_table_size)
        × (get_registered_func t i ≡ 0)
        × ((j : ℕ) → 1 ≤ j → j < i → get_registered_func t j ≢ 0)
        × (get_registered_func t' i ≡ func)
        × ((t'.elems i).func_type ≡ func_type)
        × ((j : ℕ) → j ≢ i → t'.elems j ≡ t.elems j)
        × (get_registered_func (unregister_func t' i) i ≡ 0))
      ⊎ ((register_func t func func_type ≡ aborts)
          × ((j : ℕ) → 1 ≤ j → j < func_table_size → get_registered_func t j ≢ 0))
unfolding get_registered_func unregister_func
register_func_lem t func func_type =
    elim (Option-cases (find_empty (func_table_size - 1) 1 t.elems)) [
      | inl e ↦ inr (
        register_func-none t func func_type e,
        λ j p q z.
            find_empty-none (func_table_size - 1) 1 t.elems e j p (omega arith) (ground arith),
      )
      | inr (i, e) ↦
          let r = find_empty-some (func_table_size - 1) 1 t.elems i e in
          let lo : 1 ≤ i = r.from in
          let hi : i < 1024 = omega (arith, r.within) in
          inl (
            with_func t func func_type i,
            i,
            register_func-some t func func_type i e,
            lo,
            hi,
            ground (arith, r.empty),
            λ j p q z. r.first j p q (ground arith),
            ground arith,
            ground arith,
            λ j ne. ground arith,
            ground arith,
          )
    ]

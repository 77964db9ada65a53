-- ===== src/TypeChecker/Blocks.antt =====
-- What the end of a block does to the two stacks (src/type-checker.cc).
use wasm_sandboxing.Base.{
  ℕ, ◌≤◌, ◌≡◌, refl, ap, ◌∙◌, String, Bool-cases, inl, inr, List, [], ◌∷◌, if◌then◌else◌, length,
  bottom, drop, map,
}
use wasm_sandboxing.TypeChecker.State.{
  Result, void, same_type, TypeVector, Label, Checker, M, pop_label, ◌>>=◌,
  reset_type_stack_to_label, resize,
}
use wasm_sandboxing.TypeChecker.Check.{
  push_type, push_types, also, pop_and_check_signature, check_type_stack_end,
}
use wasm_sandboxing.TypeChecker.Ops.{on_end_label}
use wasm_sandboxing.TypeChecker.Frame.{limits, top_limit, RunsAbove}
use wasm_sandboxing.TypeChecker.Frame.Primitives.{length-resize}
use wasm_sandboxing.TypeChecker.Frame.Helpers.{helpers, check_type_stack_end-RunsAbove}

-- The operands after a vector of types is pushed, `Void` apart.
pub push_all : TypeVector → TypeVector → TypeVector
push_all [] xs = xs
push_all (t ∷ ts) xs = push_all ts (if same_type t void then xs else t ∷ xs)

push_types-push_all :
    (ts : TypeVector) (s : Checker)
    → push_types ts s ≡ (tt, record s { type_stack = push_all ts s.type_stack })
unfolding push_types push_all push_type
push_types-push_all [] s = refl
push_types-push_all (t ∷ ts) s = elim (Bool-cases (same_type t void)) [
  | inl y ↦ rw (y, push_type) (push_types-push_all ts s)
  | inr y ↦ rw (y, push_type) (push_types-push_all ts (record s { type_stack = t ∷ s.type_stack }))
]

-- What is left of the block's checks at its end.
tail_checks : Label → String → String → M Result
tail_checks l a b =
    pop_and_check_signature l.result_types a >>= λ values. also values (check_type_stack_end b)

tail_checks-RunsAbove : (n : ℕ) (l : Label) (a b : String) → RunsAbove n (tail_checks l a b)
unfolding tail_checks
tail_checks-RunsAbove n l a b = search (helpers, check_type_stack_end-RunsAbove)

abbrev ended : Label → Checker → Checker
ended l s = record s {
  type_stack = push_all l.result_types (resize l.type_stack_limit s.type_stack);
  label_stack = drop 1 s.label_stack;
}

on_end_label-ended :
    (l : Label) (a b : String) (s : Checker)
    → (on_end_label l a b s).1 ≡ ended l (tail_checks l a b s).1
unfolding on_end_label tail_checks reset_type_stack_to_label
on_end_label-ended l a b s =
    ap (λ p. (pop_label p.1).1)
      (push_types-push_all l.result_types (reset_type_stack_to_label l (tail_checks l a b s).1).1)

limits-drop :
    (ls : List Label)
    → map (λ l. l.type_stack_limit) (drop 1 ls) ≡ drop 1 (map (λ l. l.type_stack_limit) ls)
limits-drop [] = refl
limits-drop (l ∷ ls) = refl

-- At the end of a block whose label has the innermost limit, whatever the checks of its results
-- say, the operands are those below the limit with the block's results pushed, and one label is
-- gone.
pub on_end_label-restores :
    (l : Label) (a b : String) (s : Checker)
    → top_limit s ≡ l.type_stack_limit
    → l.type_stack_limit ≤ length s.type_stack
    → let t = (on_end_label l a b s).1 in
      (t.type_stack ≡ push_all l.result_types (bottom l.type_stack_limit s.type_stack))
      × (limits t ≡ drop 1 (limits s))
on_end_label-restores l a b s top h =
    let f = (tail_checks-RunsAbove l.type_stack_limit l a b).run s top h in
    let e = on_end_label-ended l a b s in
    (
      ap (λ t. t.type_stack) e
          ∙ ap (push_all l.result_types)
              (length-resize l.type_stack_limit _ f.enough ∙ f.same_bottom),
      ap limits e ∙ limits-drop _ ∙ ap (drop 1) f.same_limits,
    )

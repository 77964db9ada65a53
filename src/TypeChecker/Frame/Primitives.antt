-- ===== src/TypeChecker/Frame/Primitives.antt =====
-- The primitives of src/type-checker.cc run above the top label's limit.
use wasm_sandboxing.Base.{
  ℕ, ◌+◌, ◌-◌, ◌≤◌, ◌≡◌, refl, ap, Bool, List, [], ◌∷◌, map, leb, ltb, length, drop, bottom,
  bottom-drop, bottom-cons, length-drop, arith, inl, inr, Bool-cases,
}
use wasm_sandboxing.TypeChecker.State.{
  Result, ok, error, ValueType, TypeVector, Label, LabelType, Checker, M, pure, check_result,
  reset_type_stack_to_label, resize, on_head, same_type, any, void, set_label,
  set_label_unreachable, set_unreachable,
}
use wasm_sandboxing.TypeChecker.Check.{peek_type, drop_types, push_type}
use wasm_sandboxing.TypeChecker.Frame.{
  limits, SameBelow, RunsAbove, RunsAbove-pure, RunsAbove-bind, RunsAbove-then,
  print_error-RunsAbove, get_label-RunsAbove, check_label-RunsAbove, check_top_label-RunsAbove,
}

same_state : {n : ℕ} {s : Checker} → n ≤ length s.type_stack → SameBelow n s s
same_state h = record { same_limits = refl; enough = h; same_bottom = refl }

pub length-resize : (n : ℕ) (xs : TypeVector) → n ≤ length xs → resize n xs ≡ bottom n xs
unfolding resize
length-resize n xs h = ground arith

-- A change of the operand stack alone.
with_stack :
    (n : ℕ) (s : Checker) (xs : TypeVector)
    → n ≤ length xs
    → bottom n xs ≡ bottom n s.type_stack
    → SameBelow n s (record s { type_stack = xs })
with_stack n s xs h e = record { same_limits = refl; enough = h; same_bottom = e }

pub reset-RunsAbove :
    (n : ℕ) (l : Label) → l.type_stack_limit ≡ n → RunsAbove n (reset_type_stack_to_label l)
unfolding reset_type_stack_to_label
reset-RunsAbove n l e = record {
  run = λ s p h.
      with_stack n s (resize l.type_stack_limit s.type_stack)
        (rw (e, length-resize n s.type_stack h, length-drop) (omega arith))
        (rw (e, length-resize n s.type_stack h)
          (bottom-drop n (length s.type_stack - n) s.type_stack (omega arith)));
}

pub push_type-RunsAbove : (n : ℕ) (t : ValueType) → RunsAbove n (push_type t)
unfolding push_type
push_type-RunsAbove n t = record {
  run = λ s p h. elim (Bool-cases (same_type t void)) [
    | inl y ↦ rw y (same_state h)
    | inr y ↦
        rw y (with_stack n s (t ∷ s.type_stack) (omega arith) (bottom-cons n t s.type_stack h))
  ];
}

pub drop_types-RunsAbove : (n count : ℕ) → RunsAbove n (drop_types count)
unfolding drop_types
drop_types-RunsAbove n count = check_top_label-RunsAbove n error _ λ l e. record {
  run = λ s p h. elim (Bool-cases (ltb (length s.type_stack) (l.type_stack_limit + count))) [
    | inl y ↦ rw y ((reset-RunsAbove n l e).run s p h)
    | inr y ↦ rw y (
        with_stack n s (drop count s.type_stack) (rw length-drop (ground arith))
          (bottom-drop n count s.type_stack (ground arith)))
  ];
}

pub peek_type-RunsAbove : (n depth : ℕ) → RunsAbove n (peek_type depth)
unfolding peek_type
peek_type-RunsAbove n depth =
    check_top_label-RunsAbove n (error, any) _
      λ l e. record {
        run = λ s p h. elim (Bool-cases (leb (length s.type_stack) (l.type_stack_limit + depth))) [
          | inl y ↦ rw y (same_state h)
          | inr y ↦ rw y (same_state h)
        ];
      }

map-on_head :
    {A B : Type 0} (g : A → B) (f : A → A) (xs : List A)
    → ((x : A) → g (f x) ≡ g x)
    → map g (on_head f xs) ≡ map g xs
map-on_head g f [] h = refl
map-on_head g f (x ∷ xs) h = ap (λ y. y ∷ map g xs) (h x)

pub set_label-RunsAbove : (n : ℕ) (t : LabelType) (u : Bool) → RunsAbove n (set_label t u)
unfolding set_label
set_label-RunsAbove n t u = record {
  run = λ s p h. record {
    same_limits = map-on_head _ _ s.label_stack (λ l. refl);
    enough = h;
    same_bottom = refl;
  };
}

set_label_unreachable-RunsAbove : (n : ℕ) → RunsAbove n set_label_unreachable
unfolding set_label_unreachable
set_label_unreachable-RunsAbove n = record {
  run = λ s p h. record {
    same_limits = map-on_head _ _ s.label_stack (λ l. refl);
    enough = h;
    same_bottom = refl;
  };
}

-- A read of the state.
pub read-RunsAbove : {A : Type 0} (n : ℕ) (f : Checker → A) → RunsAbove n (λ s. (f s, s))
read-RunsAbove n f = record { run = λ s p h. same_state h }

pub check_result-RunsAbove :
    (n : ℕ) (m k : M Result) → RunsAbove n m → RunsAbove n k → RunsAbove n (check_result m k)
unfolding check_result
check_result-RunsAbove n m k hm hk =
    RunsAbove-bind n m (λ r. elim r as (λ x. M Result) [ ok ↦ k | error ↦ pure error ]) hm
      (elim [ ok ↦ hk | error ↦ RunsAbove-pure n error ])

pub set_unreachable-RunsAbove : (n : ℕ) → RunsAbove n set_unreachable
unfolding set_unreachable
set_unreachable-RunsAbove n = check_top_label-RunsAbove n error _ λ l e.
    RunsAbove-then n _ _ (set_label_unreachable-RunsAbove n)
      (RunsAbove-then n _ _ (reset-RunsAbove n l e) (RunsAbove-pure n ok))

pub ruleset basic = (
  RunsAbove-pure, RunsAbove-bind, RunsAbove-then, print_error-RunsAbove, push_type-RunsAbove,
  drop_types-RunsAbove, peek_type-RunsAbove, set_unreachable-RunsAbove, check_result-RunsAbove,
  check_label-RunsAbove,
)

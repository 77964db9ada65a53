-- ===== src/TypeChecker/Frame.antt =====
-- What an operation leaves alone: the labels' limits, and the operands below the top label's.
pub mod Primitives
pub mod Helpers
pub mod Flat
use wasm_sandboxing.Base.{
  ℕ, suc, ◌+◌, ◌-◌, ◌≤◌, ◌≡◌, refl, sym, ap, ◌∙◌, String, Bool, true, false, Option, none, some,
  List, [], ◌∷◌, ◌++◌, map, leb, ltb, length, get_elem?, bottom, bottom-drop, bottom-cons,
  length-drop, arith, inl, inr, Bool-cases,
}
use wasm_sandboxing.TypeChecker.State.{
  Result, ok, error, ◌⊕◌, ValueType, TypeVector, Label, LabelType, Message, Checker, M, pure, ◌>>=◌,
  ◌>>◌, check_result, check_label, print_error, get_label, top_label, reset_type_stack_to_label,
  resize, set_label, set_label_unreachable, set_unreachable, check_label_type,
}
use wasm_sandboxing.TypeChecker.Check.{
  peek_type, peek_and_check_type, drop_types, push_type, push_types, collect_actual, printed_limit,
  print_stack, print_stack_if_failed, check_type_stack_end, check_types, check_signature, also,
  pop_and_check_signature, pop_and_check_call, pop_and_check_1_type, pop_and_check_2_types,
  pop_and_check_3_types, Opcode, check_opcode_1, check_opcode_2, check_opcode_3,
}

abbrev pub limits : Checker → List ℕ
limits s = map (λ l. l.type_stack_limit) s.label_stack

abbrev head_or_zero : List ℕ → ℕ
head_or_zero [] = 0
head_or_zero (n ∷ ns) = n

-- The number of operands that the innermost label does not own.
abbrev pub top_limit : Checker → ℕ
top_limit s = head_or_zero (limits s)

-- From `s` to `t` the labels' limits and the operands below the limit `n` are the same.
pub record SameBelow (n : ℕ) (s t : Checker) : Type 0 where
  pub same_limits : limits t ≡ limits s
  pub enough : n ≤ length t.type_stack
  pub same_bottom : bottom n t.type_stack ≡ bottom n s.type_stack

-- `m` runs above the limit `n` of the top label.
pub record RunsAbove {A : Type 0} (n : ℕ) (m : M A) : Type 0 where
  pub run : (s : Checker) → top_limit s ≡ n → n ≤ length s.type_stack → SameBelow n s (m s).1

module _ {A : Type 0} where
  pub RunsAbove-pure : (n : ℕ) (a : A) → RunsAbove n (pure a)
  unfolding pure
  RunsAbove-pure n a = record {
    run = λ s e h. record { same_limits = refl; enough = h; same_bottom = refl };
  }

module _ {A B : Type 0} where
  pub RunsAbove-bind :
      (n : ℕ) (m : M A) (f : A → M B)
      → RunsAbove n m
      → ((a : A) → RunsAbove n (f a))
      → RunsAbove n (m >>= f)
  unfolding ◌>>=◌
  RunsAbove-bind n m f hm hf = record {
    run = λ s e h.
        let first = hm.run s e h in
        let second =
          (hf (m s).0).run (m s).1 (ap head_or_zero first.same_limits ∙ e) first.enough in
        record {
          same_limits = second.same_limits ∙ first.same_limits;
          enough = second.enough;
          same_bottom = second.same_bottom ∙ first.same_bottom;
        };
  }

pub RunsAbove-then :
    {B : Type 0} (n : ℕ) (m : M (Unit {0})) (k : M B)
    → RunsAbove n m
    → RunsAbove n k
    → RunsAbove n (m >> k)
unfolding ◌>>◌ ◌>>=◌
RunsAbove-then n m k hm hk = record { run = (RunsAbove-bind n m (λ _. k) hm (λ _. hk)).run }

pub print_error-RunsAbove : (n : ℕ) (e : Message) → RunsAbove n (print_error e)
unfolding print_error
print_error-RunsAbove n e = record {
  run = λ s p h. elim (Bool-cases s.error_callback) [
    | inl y ↦ rw y (record { same_limits = refl; enough = h; same_bottom = refl })
    | inr y ↦ rw y (record { same_limits = refl; enough = h; same_bottom = refl })
  ];
}

pub get_label-RunsAbove : (n depth : ℕ) → RunsAbove n (get_label depth)
unfolding get_label
get_label-RunsAbove n depth = record {
  run = λ s p h. elim (Bool-cases (leb (length s.label_stack) depth)) [
    | inl y ↦ rw y ((print_error-RunsAbove n _).run s p h)
    | inr y ↦ rw y (record { same_limits = refl; enough = h; same_bottom = refl })
  ];
}

pub check_label-RunsAbove :
    {A : Type 0} (n depth : ℕ) (a : A) (k : Label → M A)
    → ((l : Label) → RunsAbove n (k l))
    → RunsAbove n (check_label a (get_label depth) k)
unfolding check_label
check_label-RunsAbove {A} n depth a k h =
    RunsAbove-bind n (get_label depth)
      (λ found. elim found as (λ x. M A) [ none ↦ pure a | some l ↦ k l ])
      (get_label-RunsAbove n depth) (elim [ none ↦ RunsAbove-pure n a | some l ↦ h l ])

pub top_label-cons :
    (s : Checker) (l : Label) (ls : List Label) → s.label_stack ≡ l ∷ ls → top_label s ≡ (some l, s)
unfolding top_label
top_label-cons s l ls e = ground arith

pub top_label-nil : (s : Checker) → s.label_stack ≡ [] → (top_label s).0 ≡ none
unfolding top_label
top_label-nil s e = ground arith

module _ {A : Type 0} (a : A) (m : M (Option Label)) (k : Label → M A) where
  abbrev continue : Option Label → M A
  continue none = pure a
  continue (some l) = k l

  pub check_label-some :
      (s t : Checker) (l : Label) → m s ≡ (some l, t) → check_label a m k s ≡ k l t
  unfolding check_label ◌>>=◌
  check_label-some s t l e = ground (arith, ap (λ p. continue p.0 p.1) e)

  pub check_label-none : (s : Checker) → (m s).0 ≡ none → check_label a m k s ≡ (a, (m s).1)
  unfolding check_label ◌>>=◌ pure
  check_label-none s e = ground (arith, ap (λ o. continue o (m s).1) e)

-- The label that `top_label` hands out is the one whose limit is `n`.
pub check_top_label-RunsAbove :
    {A : Type 0} (n : ℕ) (a : A) (k : Label → M A)
    → ((l : Label) → l.type_stack_limit ≡ n → RunsAbove n (k l))
    → RunsAbove n (check_label a top_label k)
unfolding top_label
check_top_label-RunsAbove {A} n a k h = record { run = λ s. go s s.label_stack refl }
  where
    go :
        (s : Checker) (ls : List Label)
        → s.label_stack ≡ ls
        → top_limit s ≡ n
        → n ≤ length s.type_stack
        → SameBelow n s (check_label a top_label k s).1
    go s [] e p q =
        rw (check_label-none a top_label k s (top_label-nil s e))
          ((get_label-RunsAbove n 0).run s p q)
    go s (l ∷ ls) e p q =
        rw (check_label-some a top_label k s s l (top_label-cons s l ls e))
          ((h l (ap head_or_zero (ap (map (λ l. l.type_stack_limit)) (sym e)) ∙ p)).run s p q)

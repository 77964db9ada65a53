-- ===== src/TypeChecker/Bounded.antt =====
-- The invariant of the two stacks: the labels' limits do not fall towards the top, and the
-- innermost is at most the height of the operand stack (src/type-checker.cc).
pub mod Calls
use wasm_sandboxing.Base.{
  ℕ, suc, ◌+◌, ◌≤◌, ◌≡◌, refl, sym, ap, subst, ◌∙◌, String, Bool, List, [], ◌∷◌, Option, none, some,
  length, map, arith, drop,
}
use wasm_sandboxing.TypeChecker.State.{
  Result, ok, error, ValueType, TypeVector, Label, LabelType, function, Checker, M, pure, ◌>>=◌,
  ◌>>◌, check_label, get_label, top_label, push_label, pop_label, reset_type_stack_to_label, block,
  loop, if_, try_, if_except, i32, except_ref, check_label_type,
}
use wasm_sandboxing.TypeChecker.Check.{
  push_types, also, pop_and_check_signature, pop_and_check_1_type, check_type_stack_end,
}
use wasm_sandboxing.TypeChecker.Ops.{
  begin_function, on_block, on_loop, on_try, on_if, on_if_except, on_end_label, on_end,
  end_function, check_missing_else, label_type_name,
}
use wasm_sandboxing.TypeChecker.Calls.{Call, perform, run_calls}
use wasm_sandboxing.TypeChecker.Frame.{
  limits, top_limit, SameBelow, RunsAbove, RunsAbove-bind, RunsAbove-then,
  check_top_label-RunsAbove, top_label-cons, top_label-nil, check_label-some, check_label-none,
  get_label-RunsAbove,
}
use wasm_sandboxing.TypeChecker.Frame.Primitives.{basic, reset-RunsAbove}
use wasm_sandboxing.TypeChecker.Frame.Helpers.{
  helpers, pop_and_check_1_type-RunsAbove, check_type_stack_end-RunsAbove, also-RunsAbove,
  pop_and_check_signature-RunsAbove, push_types-RunsAbove,
}
use wasm_sandboxing.TypeChecker.Frame.Flat.{
  perform_flat-RunsAbove, check_label_type-RunsAbove, if-RunsAbove,
}

abbrev pub Bounded : ℕ → List ℕ → Type 0
Bounded n [] = Unit {0}
Bounded n (limit ∷ ls) = (limit ≤ n) × Bounded limit ls

abbrev pub IsBounded : Checker → Type 0
IsBounded s = Bounded (length s.type_stack) (limits s)

Bounded-mono : (m n : ℕ) (ls : List ℕ) → m ≤ n → Bounded m ls → Bounded n ls
Bounded-mono m n [] h b = tt
Bounded-mono m n (l ∷ ls) h b = (omega arith, b.1)

abbrev head_limit : List ℕ → ℕ
head_limit [] = 0
head_limit (n ∷ ns) = n

above : (m n : ℕ) (ls : List ℕ) → Bounded m ls → head_limit ls ≤ n → Bounded n ls
above m n [] b h = tt
above m n (l ∷ ls) b h = (h, b.1)

head-le : (n : ℕ) (ls : List ℕ) → Bounded n ls → head_limit ls ≤ n
head-le n [] b = omega arith
head-le n (l ∷ ls) b = b.0

-- `m` keeps the invariant, where the top label's limit is `n`.
pub record KeepsAt {A : Type 0} (n : ℕ) (m : M A) : Type 0 where
  pub run : (s : Checker) → top_limit s ≡ n → IsBounded s → IsBounded (m s).1

module _ {A : Type 0} where
  pub RunsAbove→KeepsAt : (n : ℕ) (m : M A) → RunsAbove n m → KeepsAt n m
  RunsAbove→KeepsAt n m h = record {
    run = λ s e b.
        let f = h.run s e (subst (λ i. i ≤ length s.type_stack) e (head-le _ (limits s) b)) in
        subst (Bounded (length (m s).1.type_stack)) (sym f.same_limits) (
          above (length s.type_stack) _ (limits s) b
            (subst (λ i. i ≤ length (m s).1.type_stack) (sym e) f.enough));
  }

module _ {A B : Type 0} where
  pub KeepsAt-above :
      (n : ℕ) (m : M A) (f : A → M B)
      → RunsAbove n m
      → ((a : A) → KeepsAt n (f a))
      → KeepsAt n (m >>= f)
  unfolding ◌>>=◌
  KeepsAt-above n m f hm hf = record {
    run = λ s e b.
        let g = hm.run s e (subst (λ i. i ≤ length s.type_stack) e (head-le _ (limits s) b)) in
        (hf (m s).0).run (m s).1 (ap head_limit g.same_limits ∙ e)
          ((RunsAbove→KeepsAt n m hm).run s e b);
  }

  pub KeepsAt-bind :
      (n : ℕ) (m : M A) (f : A → M B)
      → KeepsAt n m
      → ((a : A) (k : ℕ) → KeepsAt k (f a))
      → KeepsAt n (m >>= f)
  unfolding ◌>>=◌
  KeepsAt-bind n m f hm hf = record {
    run = λ s e b. (hf (m s).0 _).run (m s).1 refl (hm.run s e b);
  }

pub KeepsAt-above_then :
    {B : Type 0} (n : ℕ) (m : M (Unit {0})) (k : M B)
    → RunsAbove n m
    → KeepsAt n k
    → KeepsAt n (m >> k)
unfolding ◌>>◌ ◌>>=◌
KeepsAt-above_then n m k hm hk = record { run = (KeepsAt-above n m (λ _. k) hm (λ _. hk)).run }

pub push_label-KeepsAt :
    {B : Type 0} (n : ℕ) (t : LabelType) (ps rs : TypeVector) (k : M B)
    → ((i : ℕ) → RunsAbove i k)
    → KeepsAt n (push_label t ps rs >> k)
unfolding push_label ◌>>◌
push_label-KeepsAt n t ps rs k h = record {
  run = λ s e b.
      (RunsAbove→KeepsAt (length s.type_stack) k (h _)).run (push_label t ps rs s).1 refl
        (omega arith, b);
}

pub pop_label-KeepsAt : (n : ℕ) → KeepsAt n pop_label
unfolding pop_label
pop_label-KeepsAt n = record { run = λ s e b. go (length s.type_stack) s.label_stack b }
  where
    go :
        (n : ℕ) (ls : List Label)
        → Bounded n (map (λ l. l.type_stack_limit) ls)
        → Bounded n (map (λ l. l.type_stack_limit) (drop 1 ls))
    go n [] b = tt
    go n (l ∷ ls) b = Bounded-mono l.type_stack_limit n _ b.0 b.1

pub check_top_label-KeepsAt :
    (n : ℕ) (k : Label → M Result)
    → ((l : Label) → l.type_stack_limit ≡ n → KeepsAt n (k l))
    → KeepsAt n (check_label error top_label k)
unfolding top_label
check_top_label-KeepsAt n k h = record { run = λ s. go s s.label_stack refl }
  where
    go :
        (s : Checker) (ls : List Label)
        → s.label_stack ≡ ls
        → top_limit s ≡ n
        → IsBounded s
        → IsBounded (check_label error top_label k s).1
    go s [] e p b =
        rw (check_label-none error top_label k s (top_label-nil s e))
          ((RunsAbove→KeepsAt n (get_label 0) (get_label-RunsAbove n 0)).run s p b)
    go s (l ∷ ls) e p b =
        rw (check_label-some error top_label k s s l (top_label-cons s l ls e))
          ((h l (ap head_limit (ap (map (λ l. l.type_stack_limit)) (sym e)) ∙ p)).run s p b)

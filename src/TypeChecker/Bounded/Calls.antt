-- ===== src/TypeChecker/Bounded/Calls.antt =====
-- Every call of the checker keeps the invariant of the two stacks.
use wasm_sandboxing.Base.{ℕ, ◌≤◌, ◌≡◌, refl, String, List, [], ◌∷◌, length, arith}
use wasm_sandboxing.TypeChecker.State.{
  Result, TypeVector, Label, LabelType, function, Checker, M, pure, ◌>>=◌, ◌>>◌, ◌⊕◌, push_label,
  pop_label, reset_type_stack_to_label, block, loop, if_, try_, if_except, i32, except_ref,
  check_label_type,
}
use wasm_sandboxing.TypeChecker.Check.{
  push_types, also, pop_and_check_signature, pop_and_check_1_type, check_type_stack_end,
}
use wasm_sandboxing.TypeChecker.Ops.{
  begin_function, on_block, on_loop, on_try, on_if, on_if_except, on_end_label, on_end,
  end_function, check_missing_else, label_type_name,
}
use wasm_sandboxing.TypeChecker.Calls.{FlatCall, perform_flat, Call, perform, run_calls}
use wasm_sandboxing.TypeChecker.Frame.{top_limit, SameBelow, RunsAbove}
use wasm_sandboxing.TypeChecker.Frame.Primitives.{reset-RunsAbove}
use wasm_sandboxing.TypeChecker.Frame.Helpers.{
  helpers, pop_and_check_1_type-RunsAbove, check_type_stack_end-RunsAbove, also-RunsAbove,
}
use wasm_sandboxing.TypeChecker.Frame.Flat.{
  perform_flat-RunsAbove, check_label_type-RunsAbove, if-RunsAbove,
}
use wasm_sandboxing.TypeChecker.Bounded.{
  IsBounded, KeepsAt, RunsAbove→KeepsAt, KeepsAt-above, KeepsAt-bind, KeepsAt-above_then,
  push_label-KeepsAt, pop_label-KeepsAt, check_top_label-KeepsAt,
}

ruleset parts = (helpers, pop_and_check_1_type-RunsAbove)

open_label-KeepsAt :
    (n : ℕ) (m : M Result) (t : LabelType) (ps rs : TypeVector) (k : Result → M Result)
    → RunsAbove n m
    → ((r : Result) (i : ℕ) → RunsAbove i (k r))
    → KeepsAt n (m >>= λ r. push_label t ps rs >> k r)
open_label-KeepsAt n m t ps rs k h hk =
    KeepsAt-above n m _ h λ r. push_label-KeepsAt n t ps rs (k r) (hk r)

on_block-KeepsAt : (n : ℕ) (ps rs : TypeVector) → KeepsAt n (on_block ps rs)
unfolding on_block
on_block-KeepsAt n ps rs =
    open_label-KeepsAt n (pop_and_check_signature ps "block") block ps rs
      (λ r. push_types ps >> pure r) (search parts) (λ r i. search parts)

on_loop-KeepsAt : (n : ℕ) (ps rs : TypeVector) → KeepsAt n (on_loop ps rs)
unfolding on_loop
on_loop-KeepsAt n ps rs =
    open_label-KeepsAt n (pop_and_check_signature ps "loop") loop ps rs
      (λ r. push_types ps >> pure r) (search parts) (λ r i. search parts)

on_try-KeepsAt : (n : ℕ) (ps rs : TypeVector) → KeepsAt n (on_try ps rs)
unfolding on_try
on_try-KeepsAt n ps rs =
    open_label-KeepsAt n (pop_and_check_signature ps "try") try_ ps rs
      (λ r. push_types ps >> pure r) (search parts) (λ r i. search parts)

on_if-KeepsAt : (n : ℕ) (ps rs : TypeVector) → KeepsAt n (on_if ps rs)
unfolding on_if
on_if-KeepsAt n ps rs = KeepsAt-above n (pop_and_check_1_type i32 "if") _ (search parts) λ c.
    open_label-KeepsAt n (also c (pop_and_check_signature ps "if")) if_ ps rs
      (λ r. push_types ps >> pure r) (search parts) (λ r i. search parts)

on_if_except-KeepsAt : (n : ℕ) (ps rs es : TypeVector) → KeepsAt n (on_if_except ps rs es)
unfolding on_if_except
on_if_except-KeepsAt n ps rs es =
    KeepsAt-above n (pop_and_check_1_type except_ref "if_except") _ (search parts) λ c.
      open_label-KeepsAt n (also c (pop_and_check_signature ps "if_except")) if_except ps rs
        (λ r. push_types ps >> (push_types es >> pure r)) (search parts) (λ r i. search parts)

on_end_label-KeepsAt :
    (n : ℕ) (l : Label) (a b : String) → l.type_stack_limit ≡ n → KeepsAt n (on_end_label l a b)
unfolding on_end_label
on_end_label-KeepsAt n l a b e =
    KeepsAt-above n (pop_and_check_signature l.result_types a) _ (search parts) λ values.
      KeepsAt-above n (also values (check_type_stack_end b)) _
        (also-RunsAbove n values _ (check_type_stack_end-RunsAbove n b))
        λ result. KeepsAt-above_then n (reset_type_stack_to_label l) _ (reset-RunsAbove n l e) (
          KeepsAt-above_then n (push_types l.result_types) _ (search parts) (
            KeepsAt-bind n pop_label (λ popped. pure result) (pop_label-KeepsAt n)
              λ popped k. RunsAbove→KeepsAt k (pure result) (search parts)))

also-KeepsAt : (n : ℕ) (r : Result) (m : M Result) → KeepsAt n m → KeepsAt n (also r m)
unfolding also
also-KeepsAt n r m h =
    KeepsAt-bind n m (λ x. pure (r ⊕ x)) h λ x k. RunsAbove→KeepsAt k (pure (r ⊕ x)) (search parts)

pub check_missing_else-RunsAbove : (n : ℕ) (l : Label) → RunsAbove n (check_missing_else l)
unfolding check_missing_else
check_missing_else-RunsAbove n l = search (parts, if-RunsAbove)

on_end-KeepsAt : (n : ℕ) → KeepsAt n on_end
unfolding on_end
on_end-KeepsAt n = check_top_label-KeepsAt n _ λ l e.
    KeepsAt-above n (check_missing_else l) _ (check_missing_else-RunsAbove n l) λ r.
      also-KeepsAt n r
        (on_end_label l (label_type_name l.label_type) (label_type_name l.label_type))
        (on_end_label-KeepsAt n l _ _ e)

end_function-KeepsAt : (n : ℕ) → KeepsAt n end_function
unfolding end_function
end_function-KeepsAt n = check_top_label-KeepsAt n _ λ l e.
    KeepsAt-above n (check_label_type l function) _ (check_label_type-RunsAbove n l function) λ r.
      also-KeepsAt n r (on_end_label l "implicit return" "function")
        (on_end_label-KeepsAt n l _ _ e)

perform-KeepsAt : (n : ℕ) (c : Call) → KeepsAt n (perform c)
unfolding perform
perform-KeepsAt n (Call.flat c) = RunsAbove→KeepsAt n _ (perform_flat-RunsAbove n c)
perform-KeepsAt n _ = search (
  on_block-KeepsAt, on_loop-KeepsAt, on_try-KeepsAt, on_if-KeepsAt, on_if_except-KeepsAt,
  on_end-KeepsAt,
)

begin_function-IsBounded : (sig : TypeVector) (s : Checker) → IsBounded (begin_function sig s).1
unfolding begin_function
begin_function-IsBounded sig s = (omega arith, tt)

run_calls-IsBounded : (cs : List Call) (s : Checker) → IsBounded s → IsBounded (run_calls cs s)
unfolding run_calls
run_calls-IsBounded [] s b = b
run_calls-IsBounded (c ∷ cs) s b =
    run_calls-IsBounded cs (perform c s).1 ((perform-KeepsAt _ c).run s refl b)

-- From `BeginFunction` on, in any state, and after any sequence of the other calls, whether or
-- not they succeed, no label's limit is above that of a label inside it or above the height of
-- the operand stack; and `EndFunction` keeps that so.
pub run_calls-begin_function-IsBounded :
    (sig : TypeVector) (cs : List Call) (s : Checker)
    → let t = run_calls cs (begin_function sig s).1 in IsBounded t × IsBounded (end_function t).1
run_calls-begin_function-IsBounded sig cs s =
    let b = run_calls-IsBounded cs _ (begin_function-IsBounded sig s) in
    (b, (end_function-KeepsAt _).run _ refl b)

-- A call that neither opens nor closes a label changes no label's limit and no operand below
-- the innermost label's limit, whatever it returns, from every state in which that limit is at
-- most the height of the operand stack.
pub perform_flat-SameBelow :
    (c : FlatCall) (s : Checker)
    → top_limit s ≤ length s.type_stack
    → SameBelow (top_limit s) s (perform_flat c s).1
perform_flat-SameBelow c s h = (perform_flat-RunsAbove _ c).run s refl h

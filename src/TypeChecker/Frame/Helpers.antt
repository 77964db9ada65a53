-- ===== src/TypeChecker/Frame/Helpers.antt =====
-- So do the helpers built from them, and the operations that keep the labels.
use wasm_sandboxing.Base.{ℕ, suc, ◌-◌, not, ◌==◌, length, String, [], ◌∷◌}
use wasm_sandboxing.TypeChecker.State.{
  pure, print_error, type_mismatch, ◌>>=◌, ◌⊕◌, Result, ok, error, ValueType, TypeVector, M,
  top_label,
}
use wasm_sandboxing.TypeChecker.Check.{
  peek_type, push_type, actual_size, peek_and_check_type, push_types, collect_actual, printed_limit,
  print_stack, print_stack_if_failed, check_type_stack_end, check_types, check_signature, also,
  pop_and_check_signature, pop_and_check_call, pop_and_check_1_type, pop_and_check_2_types,
  pop_and_check_3_types, Opcode, check_opcode_1, check_opcode_2, check_opcode_3,
}
use wasm_sandboxing.TypeChecker.Frame.{
  RunsAbove, RunsAbove-pure, RunsAbove-then, RunsAbove-bind, check_top_label-RunsAbove,
}
use wasm_sandboxing.TypeChecker.Frame.Primitives.{
  basic, read-RunsAbove, set_unreachable-RunsAbove, drop_types-RunsAbove, peek_type-RunsAbove,
}

pub peek_and_check_type-RunsAbove :
    (n depth : ℕ) (t : ValueType) → RunsAbove n (peek_and_check_type depth t)
unfolding peek_and_check_type
peek_and_check_type-RunsAbove n depth t = search basic

collect_actual-RunsAbove : (n m : ℕ) → RunsAbove n (collect_actual m)
unfolding collect_actual
collect_actual-RunsAbove n ℕ.zero = search basic
collect_actual-RunsAbove n (suc m) =
    RunsAbove-bind n (peek_type m) (λ p. collect_actual m >>= λ rest. pure (p.1 ∷ rest))
      (peek_type-RunsAbove n m) (λ p. search (basic, collect_actual-RunsAbove n m))

printed_limit-RunsAbove : (n : ℕ) → RunsAbove n printed_limit
unfolding printed_limit top_label
printed_limit-RunsAbove n = search basic

print_stack-RunsAbove :
    (n : ℕ) (desc : String) (sig : TypeVector) → RunsAbove n (print_stack desc sig)
unfolding print_stack
print_stack-RunsAbove n desc sig =
    RunsAbove-bind n printed_limit _ (printed_limit-RunsAbove n) λ limit.
      RunsAbove-bind n (λ s. (length s.type_stack - limit, s))
        (λ max_depth. collect_actual (actual_size sig max_depth) >>= λ actual.
          print_error
            (type_mismatch desc sig (not (actual_size sig max_depth == max_depth)) actual))
        (read-RunsAbove n _) λ max_depth. search (basic, collect_actual-RunsAbove)

pub print_stack_if_failed-RunsAbove :
    (n : ℕ) (r : Result) (desc : String) (sig : TypeVector)
    → RunsAbove n (print_stack_if_failed r desc sig)
unfolding print_stack_if_failed
print_stack_if_failed-RunsAbove n ok desc sig = RunsAbove-pure n tt
print_stack_if_failed-RunsAbove n error desc sig = print_stack-RunsAbove n desc sig

pub push_types-RunsAbove : (n : ℕ) (ts : TypeVector) → RunsAbove n (push_types ts)
unfolding push_types
push_types-RunsAbove n [] = search basic
push_types-RunsAbove n (t ∷ ts) =
    RunsAbove-then n (push_type t) (push_types ts) (search basic) (push_types-RunsAbove n ts)

check_types-RunsAbove : (n : ℕ) (ts : TypeVector) → RunsAbove n (check_types ts)
unfolding check_types
check_types-RunsAbove n [] = search basic
check_types-RunsAbove n (t ∷ ts) =
    RunsAbove-bind n (peek_and_check_type (length ts) t)
      (λ first. check_types ts >>= λ rest. pure (first ⊕ rest))
      (peek_and_check_type-RunsAbove n (length ts) t)
      (λ first. search (basic, check_types-RunsAbove n ts))

pub also-RunsAbove : (n : ℕ) (r : Result) (m : M Result) → RunsAbove n m → RunsAbove n (also r m)
unfolding also
also-RunsAbove n r m h = search basic

pub check_type_stack_end-RunsAbove :
    (n : ℕ) (desc : String) → RunsAbove n (check_type_stack_end desc)
unfolding check_type_stack_end
check_type_stack_end-RunsAbove n desc =
    check_top_label-RunsAbove n error _
      λ l e. record { run = λ s p h. (print_stack_if_failed-RunsAbove n _ desc []).run s p h }

pub check_signature-RunsAbove :
    (n : ℕ) (sig : TypeVector) (desc : String) → RunsAbove n (check_signature sig desc)
unfolding check_signature
check_signature-RunsAbove n sig desc =
    search (basic, check_types-RunsAbove, print_stack_if_failed-RunsAbove)

pub pop_and_check_signature-RunsAbove :
    (n : ℕ) (sig : TypeVector) (desc : String) → RunsAbove n (pop_and_check_signature sig desc)
unfolding pop_and_check_signature
pop_and_check_signature-RunsAbove n sig desc =
    search (basic, check_signature-RunsAbove, also-RunsAbove)

pub ruleset helpers = (
  basic, push_types-RunsAbove, also-RunsAbove, peek_and_check_type-RunsAbove,
  print_stack_if_failed-RunsAbove, check_signature-RunsAbove, pop_and_check_signature-RunsAbove,
)

pub pop_and_check_call-RunsAbove :
    (n : ℕ) (ps rs : TypeVector) (desc : String) → RunsAbove n (pop_and_check_call ps rs desc)
unfolding pop_and_check_call
pop_and_check_call-RunsAbove n ps rs desc = search helpers depth 8

pub pop_and_check_1_type-RunsAbove :
    (n : ℕ) (t : ValueType) (desc : String) → RunsAbove n (pop_and_check_1_type t desc)
unfolding pop_and_check_1_type
pop_and_check_1_type-RunsAbove n t desc = search helpers depth 8

pop_and_check_2_types-RunsAbove :
    (n : ℕ) (t u : ValueType) (desc : String) → RunsAbove n (pop_and_check_2_types t u desc)
unfolding pop_and_check_2_types
pop_and_check_2_types-RunsAbove n t u desc = search helpers depth 8

pop_and_check_3_types-RunsAbove :
    (n : ℕ) (t u v : ValueType) (desc : String) → RunsAbove n (pop_and_check_3_types t u v desc)
unfolding pop_and_check_3_types
pop_and_check_3_types-RunsAbove n t u v desc = search helpers depth 8

pub check_opcode_1-RunsAbove : (n : ℕ) (op : Opcode) → RunsAbove n (check_opcode_1 op)
unfolding check_opcode_1
check_opcode_1-RunsAbove n op = search (helpers, pop_and_check_1_type-RunsAbove)

pub check_opcode_2-RunsAbove : (n : ℕ) (op : Opcode) → RunsAbove n (check_opcode_2 op)
unfolding check_opcode_2
check_opcode_2-RunsAbove n op = search (helpers, pop_and_check_2_types-RunsAbove)

pub check_opcode_3-RunsAbove : (n : ℕ) (op : Opcode) → RunsAbove n (check_opcode_3 op)
unfolding check_opcode_3
check_opcode_3-RunsAbove n op = search (helpers, pop_and_check_3_types-RunsAbove)

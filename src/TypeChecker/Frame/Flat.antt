-- ===== src/TypeChecker/Frame/Flat.antt =====
-- Every operation that neither opens nor closes a label runs above the top label's limit.
use wasm_sandboxing.Base.{
  ℕ, ◌+◌, ◌-◌, ◌%◌, ◌^◌, List, [], ◌∷◌, length, leb, if◌then◌else◌, Bool, true, false, inl, inr,
  Option-cases, String, none, refl,
}
use wasm_sandboxing.TypeChecker.State.{
  ValueType, Result, error, i32, except_ref, TypeVector, M, pure, ◌>>=◌, print_error,
  shuffle_lane_too_large, check_result, set_unreachable, check_label_type, try_, catch_, if_, else_,
  set_label, reset_type_stack_to_label, Label, LabelType,
}
use wasm_sandboxing.TypeChecker.Check.{
  Opcode, push_type, push_types, check_type_stack_end, pop_and_check_signature, also,
}
use wasm_sandboxing.TypeChecker.Ops.{
  on_br, on_br_if, begin_br_table, remember_br_table_sig, on_br_table_target, on_call_indirect,
  on_catch, on_else,
}
use wasm_sandboxing.TypeChecker.Simple.{
  on_tee_local, on_drop, on_select, on_rethrow, on_throw, on_return, LaneOp, on_simd_lane_op,
  check_lane_operands, report_lanes,
}
use wasm_sandboxing.TypeChecker.Calls.{OpcodeCall, FlatCall, perform_opcode, perform_flat}
use wasm_sandboxing.TypeChecker.Frame.{
  RunsAbove, RunsAbove-bind, RunsAbove-then, check_label-RunsAbove, check_top_label-RunsAbove,
}
use wasm_sandboxing.TypeChecker.Frame.Primitives.{
  basic, read-RunsAbove, reset-RunsAbove, set_label-RunsAbove,
}
use wasm_sandboxing.TypeChecker.Frame.Helpers.{
  helpers, pop_and_check_call-RunsAbove, pop_and_check_1_type-RunsAbove, check_opcode_1-RunsAbove,
  check_opcode_2-RunsAbove, check_opcode_3-RunsAbove, check_type_stack_end-RunsAbove,
  also-RunsAbove,
}

ruleset calls = (helpers, pop_and_check_1_type-RunsAbove, pop_and_check_call-RunsAbove)

ruleset opcodes = (check_opcode_1-RunsAbove, check_opcode_2-RunsAbove, check_opcode_3-RunsAbove)

on_br-RunsAbove : (n depth : ℕ) → RunsAbove n (on_br depth)
unfolding on_br
on_br-RunsAbove n depth = search calls depth 8

on_br_if-RunsAbove : (n depth : ℕ) → RunsAbove n (on_br_if depth)
unfolding on_br_if
on_br_if-RunsAbove n depth = search calls depth 8

forget_br_table_sig : M (Unit {0})
forget_br_table_sig s = (tt, record s { br_table_sig = none })

forget-RunsAbove : (n : ℕ) → RunsAbove n forget_br_table_sig
unfolding forget_br_table_sig
forget-RunsAbove n = record {
  run = λ s p h. record { same_limits = refl; enough = h; same_bottom = refl };
}

begin_br_table-RunsAbove : (n : ℕ) → RunsAbove n begin_br_table
unfolding begin_br_table forget_br_table_sig
begin_br_table-RunsAbove n =
    RunsAbove-then n forget_br_table_sig _ (forget-RunsAbove n)
      (pop_and_check_1_type-RunsAbove n i32 "br_table")

remember-RunsAbove : (n : ℕ) (sig : TypeVector) → RunsAbove n (remember_br_table_sig sig)
unfolding remember_br_table_sig
remember-RunsAbove n sig = record {
  run = λ s p h. elim (Option-cases s.br_table_sig) [
    | inl e ↦
        rw (e, remember_br_table_sig)
          (record { same_limits = refl; enough = h; same_bottom = refl })
    | inr (first, e) ↦
        rw (e, remember_br_table_sig)
          (record { same_limits = refl; enough = h; same_bottom = refl })
  ];
}

pub if-RunsAbove :
    {A : Type 0} (n : ℕ) (b : Bool) (m k : M A)
    → RunsAbove n m
    → RunsAbove n k
    → RunsAbove n (if b then m else k)
if-RunsAbove n true m k hm hk = hm
if-RunsAbove n false m k hm hk = hk

on_br_table_target-RunsAbove : (n depth : ℕ) → RunsAbove n (on_br_table_target depth)
unfolding on_br_table_target
on_br_table_target-RunsAbove n depth = search (calls, remember-RunsAbove, if-RunsAbove) depth 8

on_call_indirect-RunsAbove : (n : ℕ) (ps rs : TypeVector) → RunsAbove n (on_call_indirect ps rs)
unfolding on_call_indirect
on_call_indirect-RunsAbove n ps rs = search calls depth 8

pub check_label_type-RunsAbove :
    (n : ℕ) (l : Label) (t : LabelType) → RunsAbove n (check_label_type l t)
unfolding check_label_type
check_label_type-RunsAbove n l t = search basic

-- The values that a block leaves are popped, and nothing is left above its limit.
close : Result → TypeVector → String → (Result → M Result) → M Result
close kind results desc k = do
  values ← also kind (pop_and_check_signature results desc)
  result ← also values (check_type_stack_end desc)
  k result

close-RunsAbove :
    (n : ℕ) (kind : Result) (results : TypeVector) (desc : String) (k : Result → M Result)
    → ((r : Result) → RunsAbove n (k r))
    → RunsAbove n (close kind results desc k)
unfolding close
close-RunsAbove n kind results desc k h =
    RunsAbove-bind n (also kind (pop_and_check_signature results desc))
      (λ values. also values (check_type_stack_end desc) >>= k) (search calls)
      λ values.
        RunsAbove-bind n (also values (check_type_stack_end desc)) k
          (also-RunsAbove n values _ (check_type_stack_end-RunsAbove n desc)) h

on_catch-RunsAbove : (n : ℕ) → RunsAbove n on_catch
unfolding on_catch close
on_catch-RunsAbove n = check_top_label-RunsAbove n error _ λ l e.
    RunsAbove-bind n (check_label_type l try_) _ (check_label_type-RunsAbove n l try_) λ kind.
      close-RunsAbove n kind l.result_types "try block" _ λ r.
        RunsAbove-then n (reset_type_stack_to_label l) _ (reset-RunsAbove n l e) (
          RunsAbove-then n (set_label catch_ false) _ (set_label-RunsAbove n catch_ false)
            (RunsAbove-then n (push_type except_ref) (pure r) (search basic) (search basic)))

on_else-RunsAbove : (n : ℕ) → RunsAbove n on_else
unfolding on_else close
on_else-RunsAbove n = check_top_label-RunsAbove n error _ λ l e.
    RunsAbove-bind n (check_label_type l if_) _ (check_label_type-RunsAbove n l if_) λ kind.
      close-RunsAbove n kind l.result_types "if true branch" _ λ r.
        RunsAbove-then n (reset_type_stack_to_label l) _ (reset-RunsAbove n l e) (
          RunsAbove-then n (push_types l.param_types) _ (search calls) (
            RunsAbove-then n (set_label else_ false) (pure r) (set_label-RunsAbove n else_ false)
              (search basic)))

on_drop-RunsAbove : (n : ℕ) → RunsAbove n on_drop
unfolding on_drop
on_drop-RunsAbove n = search calls

on_select-RunsAbove : (n : ℕ) → RunsAbove n on_select
unfolding on_select
on_select-RunsAbove n = search calls depth 12

on_tee_local-RunsAbove : (n : ℕ) (t : ValueType) → RunsAbove n (on_tee_local t)
unfolding on_tee_local
on_tee_local-RunsAbove n t = search calls

on_rethrow-RunsAbove : (n : ℕ) → RunsAbove n on_rethrow
unfolding on_rethrow
on_rethrow-RunsAbove n = search calls

on_throw-RunsAbove : (n : ℕ) (sig : TypeVector) → RunsAbove n (on_throw sig)
unfolding on_throw
on_throw-RunsAbove n sig = search calls

on_return-RunsAbove : (n : ℕ) → RunsAbove n on_return
unfolding on_return
on_return-RunsAbove n =
    RunsAbove-bind n (λ s. ((length s.label_stack + 2 ^ 32 - 1) % 2 ^ 32, s)) _ (read-RunsAbove n _)
      λ depth.
        check_label-RunsAbove n depth error
          (λ l. pop_and_check_signature l.result_types "return" >>= λ result.
            check_result set_unreachable (pure result))
          λ l. search calls

check_lane_operands-RunsAbove :
    (n : ℕ) (lane : LaneOp) (op : Opcode) → RunsAbove n (check_lane_operands lane op)
unfolding check_lane_operands
check_lane_operands-RunsAbove n LaneOp.i8x16_replace_lane op = search opcodes
check_lane_operands-RunsAbove n _ op = search opcodes

on_simd_lane_op-RunsAbove :
    (n : ℕ) (lane : LaneOp) (op : Opcode) (i : ℕ) → RunsAbove n (on_simd_lane_op lane op i)
unfolding on_simd_lane_op
on_simd_lane_op-RunsAbove n lane op i = search (calls, if-RunsAbove, check_lane_operands-RunsAbove)

report_lanes-RunsAbove : (n : ℕ) (lanes : List ℕ) → RunsAbove n (report_lanes lanes)
unfolding report_lanes
report_lanes-RunsAbove n [] = search basic
report_lanes-RunsAbove n (x ∷ xs) =
    RunsAbove-then n (if leb 32 x then print_error (shuffle_lane_too_large x) else pure tt)
      (report_lanes xs) (search (basic, if-RunsAbove)) (report_lanes-RunsAbove n xs)

perform_opcode-RunsAbove :
    (n : ℕ) (c : OpcodeCall) (op : Opcode) → RunsAbove n (perform_opcode c op)
unfolding perform_opcode
perform_opcode-RunsAbove n OpcodeCall.atomic_load op = search opcodes
perform_opcode-RunsAbove n _ op = search opcodes

ruleset flat_calls = (
  calls, opcodes, on_br-RunsAbove, on_br_if-RunsAbove, begin_br_table-RunsAbove,
  on_br_table_target-RunsAbove, on_call_indirect-RunsAbove, on_catch-RunsAbove, on_else-RunsAbove,
  on_drop-RunsAbove, on_select-RunsAbove, on_tee_local-RunsAbove, on_rethrow-RunsAbove,
  on_throw-RunsAbove, on_return-RunsAbove, on_simd_lane_op-RunsAbove, report_lanes-RunsAbove,
)

-- One case for each operation.
pub perform_flat-RunsAbove : (n : ℕ) (c : FlatCall) → RunsAbove n (perform_flat c)
unfolding perform_flat
perform_flat-RunsAbove n (FlatCall.of_opcode c op) = perform_opcode-RunsAbove n c op
perform_flat-RunsAbove n _ = search flat_calls

-- ===== src/TypeChecker/Runs.antt =====
-- Concrete runs of the type checker.
use wasm_sandboxing.Base.{false, ◌≡◌, refl, true, false, none, some, [], ◌∷◌, bottom, List, arith}
use wasm_sandboxing.TypeChecker.State.{ok, error, i32, i64, any, Checker, Label, block}
use wasm_sandboxing.TypeChecker.Check.{check_type, pop_and_check_signature}
use wasm_sandboxing.TypeChecker.Ops.{
  begin_function, end_function, on_end_label, on_end, on_br, on_block,
}
use wasm_sandboxing.TypeChecker.Simple.{on_drop}
use wasm_sandboxing.TypeChecker.Calls.{Call, FlatCall, run_calls, perform, perform_flat}
use wasm_sandboxing.TypeChecker.Frame.{limits, SameBelow}
use wasm_sandboxing.TypeChecker.Bounded.{IsBounded}
use wasm_sandboxing.TypeChecker.Bounded.Calls.{
  run_calls-begin_function-IsBounded, perform_flat-SameBelow,
}
use wasm_sandboxing.TypeChecker.Pops.{Implements, pop_vals, pop_and_check_signature-Implements}
use wasm_sandboxing.TypeChecker.Blocks.{push_all, on_end_label-restores}
use wasm_sandboxing.TypeChecker.State.{f32, v128}
use wasm_sandboxing.TypeChecker.Check.{Opcode}
use wasm_sandboxing.TypeChecker.Simple.{LaneOp, on_simd_lane_op}

abbrev idle : Checker
idle = record {
  error_callback = true;
  errors = [];
  type_stack = [];
  label_stack = [];
  br_table_sig = none;
}

-- `(block (result i32) (i32.const) (br 0) (drop)) (drop)`
abbrev calls : List Call
calls =
    Call.block [] (i32 ∷ [])
    ∷ Call.flat (FlatCall.const i32)
    ∷ Call.flat (FlatCall.br 0)
    ∷ Call.flat FlatCall.drop
    ∷ Call.end
    ∷ Call.flat FlatCall.drop
    ∷ []

run_ok : (run_calls calls (begin_function [] idle).1).errors ≡ []
unfolding run_calls begin_function perform perform_flat on_drop on_end on_br on_block
run_ok = refl

end_ok : (end_function (run_calls calls (begin_function [] idle).1)).0 ≡ ok
unfolding run_calls begin_function end_function perform perform_flat on_drop on_end on_br on_block
end_ok = refl

underflow_fails : (perform_flat FlatCall.drop (begin_function [] idle).1).0 ≡ error
unfolding perform_flat begin_function on_drop
underflow_fails = refl

run_calls-begin_function-IsBounded_example :
    IsBounded (run_calls calls (begin_function [] idle).1)
    × IsBounded (end_function (run_calls calls (begin_function [] idle).1)).1
run_calls-begin_function-IsBounded_example = run_calls-begin_function-IsBounded [] calls idle

abbrev inner : Label
inner = record {
  label_type = block;
  param_types = [];
  result_types = i32 ∷ [];
  type_stack_limit = 1;
  unreachable = false;
}

-- In a block, over one operand of the function around it.
abbrev in_block : Checker
in_block = record {
  error_callback = true;
  errors = [];
  type_stack = i32 ∷ i64 ∷ i32 ∷ [];
  label_stack = inner ∷ [];
  br_table_sig = none;
}

pop_and_check_signature-Implements_example :
    Implements in_block inner []
      (i32 ∷ i64 ∷ [])
      (i32 ∷ [])
      refl
      refl
      refl
      (some [])
      (pop_and_check_signature (i64 ∷ i32 ∷ []) "test" in_block)
unfolding pop_vals check_type
pop_and_check_signature-Implements_example =
    pop_and_check_signature-Implements in_block inner [] (i32 ∷ i64 ∷ []) (i32 ∷ []) refl refl refl
      (i64 ∷ i32 ∷ []) "test"

perform_flat-SameBelow_example : SameBelow 1 in_block (perform_flat (FlatCall.br 0) in_block).1
perform_flat-SameBelow_example = perform_flat-SameBelow (FlatCall.br 0) in_block (omega arith)

on_end_label-restores_example :
    ((on_end_label inner "block" "block" in_block).1.type_stack
      ≡ push_all (i32 ∷ []) (bottom 1 (i32 ∷ i64 ∷ i32 ∷ [])))
    × (limits (on_end_label inner "block" "block" in_block).1 ≡ [])
on_end_label-restores_example =
    on_end_label-restores inner "block" "block" in_block refl (omega arith)

abbrev replace_lane : Opcode
replace_lane = record {
  name = "f32x4.replace_lane";
  result_type = v128;
  param1 = v128;
  param2 = f32;
  param3 = any;
}

abbrev with_operands : Checker
with_operands = record in_block { type_stack = f32 ∷ v128 ∷ i32 ∷ [] }

lane_4_accepted : (on_simd_lane_op LaneOp.f32x4_replace_lane replace_lane 4 with_operands).0 ≡ ok
unfolding on_simd_lane_op
lane_4_accepted = refl

-- ===== src/Interp/Runs/Calls.antt =====
-- Tests of the stack, calls and division, and their theorems at concrete inputs (src/interp.cc).
use wasm_sandboxing.Base.{
  List, ℕ, ◌+◌, ◌-◌, ◌*◌, ◌%◌, ◌^◌, [], ◌∷◌, ◌≡◌, refl, inl, ◌⊎◌, ◌<◌, ◌≢◌, arith,
}
use wasm_sandboxing.Interp.State
use wasm_sandboxing.Interp.State.{
  Result, ok, returned, FuncSignature, Limits, Memory, Table, TypedValue, FuncKind, Func,
  Environment, Thread, Flow, next, stop, put, thread_after, push_rep, drop_keep,
}
use wasm_sandboxing.Interp.State.DropKeep.{values, drop_keep-values}
use wasm_sandboxing.TypeChecker.State.{ValueType}
use wasm_sandboxing.Interp.Host.{Host}
use wasm_sandboxing.Interp.Calls.{call_indirect, run_call}
use wasm_sandboxing.Interp.Calls.Safe.{fetched, call_indirect-safe}
use wasm_sandboxing.Interp.Ints.{is_negative, magnitude, int_div_s, int_rem_s}
use wasm_sandboxing.Interp.Ints.Division.{differ, int_div_s-int_rem_s}
use wasm_sandboxing.Interp.Runs.{sample_value, sample_host, with_values, outcome}

drop_keep-values_example :
    (s : ℕ → ℕ) × (drop_keep 2 1 (with_values (7 ∷ 8 ∷ 9 ∷ 5 ∷ [])) ≡ (
      next tt,
      record (with_values (7 ∷ 8 ∷ 9 ∷ 5 ∷ [])) { value_stack = s; value_stack_top = 2 },
    ))
    × (values 2 s ≡ 5 ∷ 7 ∷ [])
drop_keep-values_example =
    drop_keep-values 2 1 (with_values (7 ∷ 8 ∷ 9 ∷ 5 ∷ [])) (omega arith) (inl (omega arith))

-- Two values are kept and one is dropped: the topmost is there twice and the other is gone.
test_drop_keep_overlap :
    let t = thread_after (drop_keep 1 2 (with_values (7 ∷ 8 ∷ 9 ∷ []))) in
    values t.value_stack_top t.value_stack ≡ 9 ∷ 9 ∷ []
unfolding drop_keep
test_drop_keep_overlap = refl

-- A thread whose table has one entry, the function 0, of the signature 0, and the index on the
-- stack.
abbrev calling : ℕ → Thread
calling i =
    let t = with_values (i ∷ []) in
    record t {
      env = record t.env { tables = λ j. record { func_indexes = λ k. 0; table_size = 1 } };
    }

abbrev called : Thread
called = thread_after (run_call sample_host call_indirect (calling 0))

call_ok : run_call sample_host call_indirect (calling 0) ≡ (next tt, called)
unfolding run_call
call_ok = refl

call_indirect-safe_example :
    (0 < 1)
    × (0 ≢ 2 ^ 32 - 1)
    × ((calling 0).env.sigs 0 ≡ (calling 0).env.sigs 0)
    × ((0 < 10)
        × (called ≡ record (fetched (calling 0)) {
          pc = 0;
          call_stack = put (λ i. 0) 0 8;
          call_stack_top = 1;
        }))
call_indirect-safe_example = call_indirect-safe sample_host (calling 0) called call_ok

test_call_outside :
    outcome (run_call sample_host call_indirect (calling 1)) ≡ stop State.undefined_table_index
unfolding run_call
test_call_outside = refl

-- A host whose callback answers its last argument, called through the table with two parameters
-- and a value below them: the topmost value is the last argument.
abbrev last_of : List TypedValue → TypedValue → TypedValue
last_of [] v = v
last_of (v ∷ vs) w = last_of vs v

abbrev last_host : Host
last_host = record sample_host {
  callback = λ id sig args env. (ok, λ i. last_of args sample_value, env);
}

abbrev calling_host : Thread
calling_host =
    let t = with_values (5 ∷ 3 ∷ 4 ∷ 0 ∷ []) in
    record t {
      env = record t.env {
        sigs = λ i. record {
          param_types = ValueType.i32 ∷ ValueType.i32 ∷ [];
          result_types = ValueType.i32 ∷ [];
        };
        funcs = λ i. record { sig_index = 0; kind = FuncKind.host 7 };
        tables = λ j. record { func_indexes = λ k. 0; table_size = 1 };
      };
    }

test_call_host :
    let t = thread_after (run_call last_host call_indirect calling_host) in
    (values t.value_stack_top t.value_stack ≡ 4 ∷ 5 ∷ []) × (t.pc ≡ 8)
unfolding run_call
test_call_host = (refl, refl)

abbrev minus_one : ℕ
minus_one = 0xffffffff

abbrev minus_three : ℕ
minus_three = 0xfffffffd

-- -7 / 2 is -3, and -1 is left.
div_ok : int_div_s 32 0xfffffff9 2 ≡ (ok, 0xfffffffd)
unfolding int_div_s
div_ok = refl

rem_ok : int_rem_s 32 0xfffffff9 2 ≡ (ok, 0xffffffff)
unfolding int_rem_s
rem_ok = refl

int_div_s-int_rem_s_example :
    ((minus_three * 2 + minus_one) % 2 ^ 32 ≡ 0xfffffff9)
    × (magnitude 32 minus_three * magnitude 32 2 + magnitude 32 minus_one ≡ magnitude 32 0xfffffff9)
    × ((minus_three ≡ 0)
        ⊎ (is_negative 32 minus_three ≡ differ (is_negative 32 0xfffffff9) (is_negative 32 2)))
    × (magnitude 32 minus_one < magnitude 32 2)
    × ((minus_one ≡ 0) ⊎ (is_negative 32 minus_one ≡ is_negative 32 0xfffffff9))
int_div_s-int_rem_s_example =
    int_div_s-int_rem_s 32 0xfffffff9 2 minus_three minus_one (omega arith) (omega arith)
      (omega arith) div_ok rem_ok

-- ===== src/Interp/Executor.antt =====
-- `Executor` (src/interp.cc): a function is called with arguments, runs and gives its results.
-- The loop of `RunDefinedFunction` runs on fuel, one for each call of `Thread::Run`.
pub mod Chunks
use wasm_sandboxing.Base.{
  ℕ, zero, suc, ◌+◌, Bool, true, false, not, Option, none, some, List, [], ◌∷◌, ltb, ◌==◌,
  if◌then◌else◌, length,
}
use wasm_sandboxing.TypeChecker.State.{ValueType, same_type}
use wasm_sandboxing.Interp.State
use wasm_sandboxing.Interp.State.{
  Result, ok, returned, argument_type_mismatch, unknown_export, export_kind_mismatch, FuncSignature,
  Func, TypedValue, Thread, Flow, next, stop, M, ◌>>=◌, ◌>>◌, pure, trap, trap_if, goto, push,
  reset,
}
use wasm_sandboxing.Interp.Host.{Host}
use wasm_sandboxing.Interp.Calls.{is_ok, call_host}
use wasm_sandboxing.Interp.Run.{run}

-- `Ok` in place of `Returned`.
abbrev pub final : Result → Result
final returned = ok
final r = r

-- Round again with `m`, or out of the loop.
abbrev pub loop_again : Bool → Result → M (Option Result) → M (Option Result)
loop_again true r m = m
loop_again false r m = pure (some (final r))

module _ (host : Host) where
  -- The loop; `none` when the fuel is out.
  unfoldable pub run_loop : ℕ → ℕ → M (Option Result)
  unfolding run
  run_loop num_instructions zero = pure none
  run_loop num_instructions (suc fuel) = do
    result ← run host num_instructions
    loop_again (is_ok result) result (run_loop num_instructions fuel)

  -- `num_instructions` is 1 when the execution is traced and else 1000.
  unfoldable pub run_defined_function : ℕ → ℕ → ℕ → M (Option Result)
  unfolding goto run_loop
  run_defined_function num_instructions fuel function_offset = do
    goto function_offset
    run_loop num_instructions fuel

-- The loop of `PushArgs`, whose lists have the same length.
unfoldable pub push_each : List ValueType → List TypedValue → M (Unit {0})
unfolding push
push_each (type ∷ types) (arg ∷ args) = do
  trap_if (not (same_type type arg.value_type)) argument_type_mismatch
  push arg.value
  push_each types args
push_each _ _ = pure tt

unfoldable pub push_args : FuncSignature → List TypedValue → M (Unit {0})
unfolding push_each
push_args sig args = do
  trap_if (not (length sig.param_types == length args)) argument_type_mismatch
  push_each sig.param_types args

-- `CopyResults` from the `i`-th value on.
unfoldable pub copy_results : List ValueType → ℕ → Thread → List TypedValue
copy_results [] i t = []
copy_results (type ∷ types) i t =
    record { value_type = type; value = t.value_stack i } ∷ copy_results types (i + 1) t

-- The result and the values of an `ExecResult`; `none` when the fuel is out.
abbrev pub ExecResult : Type 0
ExecResult = Option (Result × List TypedValue)

-- A call whose result is looked at.
abbrev pub taken_from : Flow (Unit {0}) × Thread → Flow (Option Result) × Thread
taken_from (next x, t) = (next (some ok), t)
taken_from (stop r, t) = (next (some r), t)
taken_from (State.aborted, t) = (State.aborted, t)

abbrev pub taken : M (Unit {0}) → M (Option Result)
taken m t = taken_from (m t)

abbrev pub with_values : FuncSignature → Option Result → M ExecResult
with_values sig none t = (next none, t)
with_values sig (some ok) t = (next (some (ok, copy_results sig.result_types 0 t)), t)
with_values sig (some r) t = (next (some (r, [])), t)

unfoldable pub reset_thread : M (Unit {0})
unfolding reset
reset_thread t = (next tt, reset t)

module _ (host : Host) where
  -- `CallHost` or `RunDefinedFunction`.
  unfoldable pub run_func : ℕ → ℕ → FuncSignature → Func → M (Option Result)
  unfolding call_host run_defined_function
  run_func num_instructions fuel sig func = elim func.kind [
    | State.host id ↦ taken (call_host host sig id)
    | State.defined offset ↦ run_defined_function host num_instructions fuel offset
  ]

  -- What `PushArgs` did not allow is not called.
  abbrev pub after_args : M (Option Result) → Option Result → M (Option Result)
  after_args m (some ok) = m
  after_args m r = pure r

  unfoldable pub run_function : ℕ → ℕ → ℕ → List TypedValue → M ExecResult
  unfolding push_args run_func copy_results reset_thread
  run_function num_instructions fuel func_index args t =
      let func = t.env.funcs func_index in
      let sig = t.env.sigs func.sig_index in
      (do
        pushed ← taken (push_args sig args)
        result ← after_args (run_func num_instructions fuel sig func) pushed
        exec_result ← with_values sig result
        reset_thread
        pure exec_result)
        t

-- An export that `GetExport` finds: whether it is a function, and its index.
pub record Export : Type 0 where
  pub is_func : Bool
  pub index : ℕ

unfoldable pub run_export_by_name : Host → ℕ → ℕ → Option Export → List TypedValue → M ExecResult
unfolding run_function
run_export_by_name host n fuel none args = pure (some (unknown_export, []))
run_export_by_name host n fuel (some export) args =
    if export.is_func
    then run_function host n fuel export.index args
    else pure (some (export_kind_mismatch, []))

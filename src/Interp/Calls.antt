-- ===== src/Interp/Calls.antt =====
-- The instructions of `Thread::Run` that call functions, and `CallHost` (src/interp.cc).
pub mod Frame
pub mod Safe
use wasm_sandboxing.Base.{
  ℕ, ◌+◌, ◌-◌, ◌*◌, ◌%◌, ◌^◌, Bool, true, false, not, ◌&&◌, ◌||◌, List, [], ◌∷◌, reverse, ltb, leb,
  ◌==◌, if◌then◌else◌,
}
use wasm_sandboxing.TypeChecker.State.{ValueType, same_type}
use wasm_sandboxing.TypeChecker.Ops.{same_types}
use wasm_sandboxing.Interp.State
use wasm_sandboxing.Interp.State.{
  Result, ok, returned, defined, host, FuncSignature, Environment, Func, FuncKind, TypedValue,
  Thread, Flow, next, stop, M, ◌>>=◌, ◌>>◌, pure, trap, trap_if, ignore, put, read_bytes, read_u32,
  read_u64, goto, push, pop, below, pick, set_pick, push_rep, pop_rep, drop_keep, push_call,
  pop_call, value_stack_exhausted, undefined_table_index, uninitialized_table_element,
  indirect_call_signature_mismatch, host_trapped, host_result_type_mismatch,
}
use wasm_sandboxing.Interp.Host.{Host}

pub data CallOp : Type 0 where
  call call_indirect interp_call_host : CallOp

-- `sig_0 == sig_1`, by index or by types.
unfoldable pub func_signatures_are_equal : Environment → ℕ → ℕ → Bool
func_signatures_are_equal env i j =
    i == j
    || (same_types (env.sigs i).param_types (env.sigs j).param_types
        && same_types (env.sigs i).result_types (env.sigs j).result_types)

-- From the last parameter to the first, whose value lies deepest.
unfoldable pub pop_params : List ValueType → List TypedValue → M (List TypedValue)
unfolding pop
pop_params [] params = pure params
pop_params (t ∷ ts) params = do
  v ← pop
  pop_params ts (record { value_type = t; value = v } ∷ params)

unfoldable pub push_results : List ValueType → ℕ → (ℕ → TypedValue) → M (Unit {0})
unfolding push
push_results [] i results = pure tt
push_results (t ∷ ts) i results = do
  trap_if (not (same_type (results i).value_type t)) host_result_type_mismatch
  push (results i).value
  push_results ts (i + 1) results

-- `is_ok` of what the callback returns.
abbrev pub is_ok : Result → Bool
is_ok ok = true
is_ok _ = false

module _ (h : Host) where
  unfoldable pub run_callback : ℕ → FuncSignature → List TypedValue → M (ℕ → TypedValue)
  run_callback id sig params t =
      let (result, results, env) = h.callback id sig params t.env in
      if is_ok result
      then (next results, record t { env = env })
      else (stop host_trapped, record t { env = env })

  unfoldable pub call_host : FuncSignature → ℕ → M (Unit {0})
  unfolding pop_params run_callback push_results
  call_host sig id = do
    params ← pop_params (reverse sig.param_types) []
    results ← run_callback id sig params
    push_results sig.result_types 0 results

  abbrev pub environment : M Environment
  environment t = (next t.env, t)

  -- A function that is called through a table; the result of `CallHost` is dropped.
  unfoldable pub enter : FuncSignature → FuncKind → M (Unit {0})
  unfolding call_host push_call goto
  enter sig (host id) = ignore (call_host sig id)
  enter sig (defined offset) = push_call >> goto offset

  abbrev pub invalid_index : ℕ
  invalid_index = 2 ^ 32 - 1

  unfoldable pub call_indirect_to : M (Unit {0})
  unfolding read_u32 pop_rep func_signatures_are_equal enter
  call_indirect_to = do
    table_index ← read_u32
    sig_index ← read_u32
    entry_index ← pop_rep 32
    env ← environment
    let table = env.tables table_index
    let func_index = table.func_indexes entry_index
    let func = env.funcs func_index
    trap_if (leb table.table_size entry_index) undefined_table_index
    trap_if (func_index == invalid_index) uninitialized_table_element
    trap_if (not (func_signatures_are_equal env func.sig_index sig_index))
        indirect_call_signature_mismatch
    enter (env.sigs func.sig_index) func.kind

  -- `cast<HostFunc>`: another function is never there.
  unfoldable pub host_only : FuncSignature → FuncKind → M (Unit {0})
  unfolding call_host
  host_only sig (host id) = ignore (call_host sig id)
  host_only sig (defined offset) = λ t. (Flow.aborted, t)

  unfoldable pub run_call : CallOp → M (Unit {0})
  unfolding read_u32 push_call goto call_indirect_to host_only
  run_call call = do offset ← read_u32; push_call; goto offset
  run_call call_indirect = call_indirect_to
  run_call interp_call_host = do
    func_index ← read_u32
    env ← environment
    let func = env.funcs func_index
    host_only (env.sigs func.sig_index) func.kind

-- ===== src/TypeChecker/Calls.antt =====
-- The calls that a validator may make of the checker between `BeginFunction` and `EndFunction`,
-- in any order: each public operation of src/type-checker.h.
use wasm_sandboxing.Base.{ℕ, List, [], ◌∷◌}
use wasm_sandboxing.TypeChecker.State.{Result, ValueType, TypeVector, Checker, M}
use wasm_sandboxing.TypeChecker.Check.{Opcode}
use wasm_sandboxing.TypeChecker.Ops.{
  on_block, on_loop, on_try, on_if, on_if_except, on_br, on_br_if, begin_br_table,
  on_br_table_target, end_br_table, on_call, on_call_indirect, on_catch, on_else, on_end,
}
use wasm_sandboxing.TypeChecker.Simple.{
  on_atomic_load, on_atomic_store, on_atomic_rmw, on_atomic_rmw_cmpxchg, on_atomic_wait,
  on_atomic_wake, on_binary, on_compare, on_convert, on_load, on_store, on_unary, on_ternary,
  on_memory_grow, on_memory_size, on_const, on_get_global, on_get_local, on_set_global,
  on_set_local, on_tee_local, on_drop, on_select, on_rethrow, on_throw, on_return, on_unreachable,
  LaneOp, on_simd_lane_op, on_simd_shuffle_op,
}

-- Those that take only an opcode.
pub data OpcodeCall : Type 0 where
  atomic_load atomic_store atomic_rmw atomic_rmw_cmpxchg atomic_wait atomic_wake : OpcodeCall
  binary compare convert load store unary ternary : OpcodeCall

-- Those that neither open nor close a label.
pub data FlatCall : Type 0 where
  of_opcode : OpcodeCall → Opcode → FlatCall
  br br_if br_table_target : ℕ → FlatCall
  begin_table end_table catch else memory_grow memory_size drop select : FlatCall
  rethrow return unreachable : FlatCall
  call call_indirect : TypeVector → TypeVector → FlatCall
  const get_global get_local set_global set_local tee_local : ValueType → FlatCall
  throw : TypeVector → FlatCall
  simd_lane : LaneOp → Opcode → ℕ → FlatCall
  simd_shuffle : Opcode → List ℕ → FlatCall

pub data Call : Type 0 where
  flat : FlatCall → Call
  block loop try if : TypeVector → TypeVector → Call
  if_except : TypeVector → TypeVector → TypeVector → Call
  end : Call

unfoldable pub perform_opcode : OpcodeCall → Opcode → M Result
unfolding on_atomic_load on_atomic_store on_atomic_rmw on_atomic_rmw_cmpxchg on_atomic_wait
    on_atomic_wake on_binary on_compare on_convert on_load on_store on_unary on_ternary
perform_opcode atomic_load op = on_atomic_load op
perform_opcode atomic_store op = on_atomic_store op
perform_opcode atomic_rmw op = on_atomic_rmw op
perform_opcode atomic_rmw_cmpxchg op = on_atomic_rmw_cmpxchg op
perform_opcode atomic_wait op = on_atomic_wait op
perform_opcode atomic_wake op = on_atomic_wake op
perform_opcode binary op = on_binary op
perform_opcode compare op = on_compare op
perform_opcode convert op = on_convert op
perform_opcode load op = on_load op
perform_opcode store op = on_store op
perform_opcode unary op = on_unary op
perform_opcode ternary op = on_ternary op

unfoldable pub perform_flat : FlatCall → M Result
unfolding on_call end_br_table on_unreachable on_memory_grow on_memory_size on_const on_get_global
    on_get_local on_set_global on_set_local on_simd_shuffle_op
perform_flat (of_opcode c op) = perform_opcode c op
perform_flat (br depth) = on_br depth
perform_flat (br_if depth) = on_br_if depth
perform_flat (br_table_target depth) = on_br_table_target depth
perform_flat begin_table = begin_br_table
perform_flat end_table = end_br_table
perform_flat catch = on_catch
perform_flat else = on_else
perform_flat memory_grow = on_memory_grow
perform_flat memory_size = on_memory_size
perform_flat drop = on_drop
perform_flat select = on_select
perform_flat rethrow = on_rethrow
perform_flat return = on_return
perform_flat unreachable = on_unreachable
perform_flat (call params results) = on_call params results
perform_flat (call_indirect params results) = on_call_indirect params results
perform_flat (const t) = on_const t
perform_flat (get_global t) = on_get_global t
perform_flat (get_local t) = on_get_local t
perform_flat (set_global t) = on_set_global t
perform_flat (set_local t) = on_set_local t
perform_flat (tee_local t) = on_tee_local t
perform_flat (throw sig) = on_throw sig
perform_flat (simd_lane lane op i) = on_simd_lane_op lane op i
perform_flat (simd_shuffle op lanes) = on_simd_shuffle_op op lanes

unfoldable pub perform : Call → M Result
perform (flat c) = perform_flat c
perform (block params results) = on_block params results
perform (loop params results) = on_loop params results
perform (try params results) = on_try params results
perform (if params results) = on_if params results
perform (if_except params results except_sig) = on_if_except params results except_sig
perform end = on_end

-- The state after a sequence of calls, whatever they return.
unfoldable pub run_calls : List Call → Checker → Checker
run_calls [] s = s
run_calls (c ∷ cs) s = run_calls cs (perform c s).1

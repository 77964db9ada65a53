-- ===== src/Interp/Control.antt =====
-- The instructions of `Thread::Run` that move control and values (src/interp.cc).
use wasm_sandboxing.Base.{ℕ, ◌+◌, ◌*◌, ◌%◌, ◌^◌, ◌&&◌, ltb, leb, ◌==◌, if◌then◌else◌}
use wasm_sandboxing.Interp.State
use wasm_sandboxing.Interp.State.{
  Result, ok, returned, defined, host, FuncSignature, Environment, Func, FuncKind, TypedValue,
  Thread, Flow, next, stop, M, ◌>>=◌, ◌>>◌, pure, trap, trap_if, ignore, put, read_bytes, read_u32,
  read_u64, goto, push, pop, below, pick, set_pick, push_rep, pop_rep, drop_keep, push_call,
  pop_call, value_stack_exhausted, undefined_table_index, uninitialized_table_element,
  indirect_call_signature_mismatch, host_trapped, host_result_type_mismatch,
}

pub data FlowOp : Type 0 where
  select br br_if br_table return unreachable : FlowOp

-- The entry of a jump table: an offset and the counts for `DropKeep`, four bytes each.
unfoldable pub read_table_entry_at : ℕ → M (ℕ × ℕ × ℕ)
read_table_entry_at at t =
    let entry = λ (k : ℕ). read_bytes t.env.istream (at + k) 4 in
    (next (entry 0, entry 4, entry 8), t)

unfoldable pub br_table_to : M (Unit {0})
unfolding read_u32 pop_rep read_table_entry_at drop_keep goto
br_table_to = do
  num_targets ← read_u32
  table_offset ← read_u32
  key ← pop_rep 32
  (new_pc, drop_count, keep_count) ←
      read_table_entry_at (table_offset + (if leb num_targets key then num_targets else key) * 12)
  drop_keep drop_count keep_count
  goto new_pc

unfoldable pub return_to_caller : M (Unit {0})
unfolding pop_call goto
return_to_caller t = if t.call_stack_top == 0 then (stop returned, t) else (pop_call >>= goto) t

-- The new top, the test of it, and the new values.
unfoldable pub raise_top : ℕ → M ℕ
raise_top count t =
    (next t.value_stack_top, record t { value_stack_top = (t.value_stack_top + count) % 2 ^ 32 })

unfoldable pub check_stack : M (Unit {0})
check_stack t =
    if leb t.value_stack_size t.value_stack_top
    then (stop value_stack_exhausted, t)
    else (next tt, t)

unfoldable pub clear_values : ℕ → ℕ → M (Unit {0})
clear_values from count t = (
  next tt,
  record t { value_stack = λ i. if leb from i && ltb i (from + count) then 0 else t.value_stack i },
)

unfoldable pub run_flow : FlowOp → M (Unit {0})
unfolding read_u32 pop push pop_rep goto br_table_to return_to_caller
run_flow select = do
  cond ← pop_rep 32
  false_ ← pop
  true_ ← pop
  push (if cond == 0 then false_ else true_)
run_flow br = read_u32 >>= goto
run_flow br_if = do new_pc ← read_u32; cond ← pop_rep 32; if cond == 0 then pure tt else goto new_pc
run_flow br_table = br_table_to
run_flow return = return_to_caller
run_flow unreachable = trap State.unreachable

pub data StackOp : Type 0 where
  interp_alloca interp_br_unless drop interp_drop_keep nop : StackOp
  i32_atomic_wait i64_atomic_wait atomic_wake : StackOp

unfoldable pub run_stack : StackOp → M (Unit {0})
unfolding read_u32 pop pop_rep goto raise_top check_stack clear_values drop_keep
run_stack interp_alloca = do
  count ← read_u32
  old_top ← raise_top count
  check_stack
  clear_values old_top count
run_stack interp_br_unless = do
  new_pc ← read_u32
  cond ← pop_rep 32
  if cond == 0 then goto new_pc else pure tt
run_stack drop = pop >>= λ v. pure tt
run_stack interp_drop_keep = do
  drop_count ← read_u32
  keep_count ← read_u32
  drop_keep drop_count keep_count
run_stack nop = pure tt
run_stack i32_atomic_wait = trap State.unreachable
run_stack i64_atomic_wait = trap State.unreachable
run_stack atomic_wake = trap State.unreachable

pub data VarOp : Type 0 where
  i32_const i64_const f32_const f64_const get_global set_global get_local set_local tee_local :
      VarOp

unfoldable pub global : ℕ → M ℕ
global i t = (next (t.env.globals i), t)

unfoldable pub assign_global : ℕ → ℕ → M (Unit {0})
assign_global i v t = (next tt, record t { env = record t.env { globals = put t.env.globals i v } })

unfoldable pub run_var : VarOp → M (Unit {0})
unfolding read_u32 read_u64 push_rep push pop pick set_pick global assign_global
run_var i32_const = read_u32 >>= push_rep 32
run_var i64_const = read_u64 >>= push_rep 64
run_var f32_const = read_u32 >>= push_rep 32
run_var f64_const = read_u64 >>= push_rep 64
run_var get_global = do i ← read_u32; v ← global i; push v
run_var set_global = do i ← read_u32; v ← pop; assign_global i v
run_var get_local = do depth ← read_u32; v ← pick depth; push v
run_var set_local = do v ← pop; depth ← read_u32; set_pick depth v
run_var tee_local = do depth ← read_u32; v ← pick 1; set_pick depth v

-- ===== src/BinaryReader/Body.antt =====
-- `ReadFunctionBody` of `BinaryReader` (src/binary-reader.cc). An opcode that is not one comes as
-- `none`.
use wasm_sandboxing.Base.{
  ℕ, zero, suc, Bool, false, ◌||◌, Option, none, some, ltb, ◌==◌, if◌then◌else◌,
}
use wasm_sandboxing.Interp.Control.{
  unreachable, br, br_if, br_table, return, select, nop, drop, interp_alloca, interp_br_unless,
  interp_drop_keep, atomic_wake, i32_atomic_wait, i64_atomic_wait, i32_const, i64_const, f32_const,
  f64_const, get_global, set_global, get_local, set_local, tee_local,
}
use wasm_sandboxing.Interp.Calls
use wasm_sandboxing.Interp.Ops.Rmw
use wasm_sandboxing.Interp.Ops.Lanes
use wasm_sandboxing.Interp.Ops.Lanes.{LaneOp}
use wasm_sandboxing.Interp.Ops.Vectors.{
  v128_const, v128_load, v128_store, v8x16_shuffle, v128_bit_select,
}
use wasm_sandboxing.Interp.Opcode.{
  Opcode, NeverOp, block_, loop_, if_, else_, try_, catch_, throw_, rethrow_, if_except, end_,
  interp_data,
}
use wasm_sandboxing.BinaryReader.State.{
  ◌>>=◌, ◌>>◌, M, ◌>>=◌, pure, ok, fail, no_fuel, error_unless, callback, on_instr, get_counts,
  collect, InstrEvent, on_opcode, on_opcode_bare, on_unreachable, on_else, on_select, on_return,
  on_nop, on_drop, on_end, on_end_func, on_memory_size, on_memory_grow, on_catch, on_rethrow,
  on_opcode_block_sig, on_block, on_loop, on_if, on_try, on_opcode_index, on_br, on_br_if, on_throw,
  on_if_except, on_br_table, on_opcode_uint32, on_opcode_uint64, on_opcode_f32, on_opcode_f64,
  on_opcode_v128, on_i32_const, on_i64_const, on_f32_const, on_f64_const, on_v128_const,
  on_get_global, on_get_local, on_set_global, on_set_local, on_tee_local, on_call, on_call_indirect,
  on_opcode_uint32_uint32, on_load, on_store, on_atomic_wake, on_atomic_wait, on_atomic_load,
  on_atomic_store, on_atomic_rmw, on_atomic_rmw_cmpxchg, on_binary, on_compare, on_unary,
  on_ternary, on_convert, on_simd_lane_op, on_simd_shuffle_op,
}
use wasm_sandboxing.BinaryReader.Read.{
  read_t, read_u8, read_f32, read_f64, read_v128, read_u32_leb, read_s32_leb, read_s64_leb,
  read_opcode, read_type, read_index, is_block_type, num_total_funcs,
}
use wasm_sandboxing.BinaryReader.Kinds.{
  ArithKind, binary, compare, unary, convert, i32_kind, i64_kind, f32_kind, f64_kind, rotate_kind,
  simd_int_kind, bitwise_kind, simd_float_kind,
}
use wasm_sandboxing.BinaryReader.Init.{error_unless_enabled}

abbrev bare : InstrEvent → M (Unit {0})
bare e = do on_instr e; on_instr on_opcode_bare

-- A block type, which `IsBlockType` accepts.
unfoldable pub read_sig_type : M ℕ
unfolding read_s32_leb is_block_type error_unless
read_sig_type = do
  sig_type ← read_type
  valid ← is_block_type sig_type
  error_unless valid
  pure sig_type

unfoldable pub with_sig : (ℕ → InstrEvent) → M (Unit {0})
unfolding read_sig_type callback
with_sig e = do
  sig_type ← read_sig_type
  on_instr (e sig_type)
  on_instr (on_opcode_block_sig sig_type)

unfoldable pub with_index : (ℕ → InstrEvent) → M (Unit {0})
unfolding read_u32_leb callback
with_index e = do index ← read_index; on_instr (e index); on_instr (on_opcode_index index)

-- The alignment and the offset of an access.
unfoldable pub with_access : (ℕ → ℕ → InstrEvent) → M (Unit {0})
unfolding read_u32_leb callback
with_access e = do
  alignment_log2 ← read_u32_leb
  offset ← read_u32_leb
  on_instr (e alignment_log2 offset)
  on_instr (on_opcode_uint32_uint32 alignment_log2 offset)

unfoldable pub with_value : M ℕ → (ℕ → InstrEvent) → (ℕ → InstrEvent) → M (Unit {0})
unfolding callback
with_value m e e₁ = do value ← m; on_instr (e value); on_instr (e₁ value)

unfoldable pub read_br_table : M (Unit {0})
unfolding read_u32_leb collect callback
read_br_table = do
  num_targets ← read_index
  target_depths ← collect num_targets read_index
  default_target_depth ← read_index
  on_instr (on_br_table target_depths default_target_depth)

unfoldable pub read_call : M (Unit {0})
unfolding read_u32_leb get_counts error_unless callback
read_call = do
  func_index ← read_index
  counts ← get_counts
  error_unless (ltb func_index (num_total_funcs counts))
  on_instr (on_call func_index)
  on_instr (on_opcode_index func_index)

unfoldable pub read_call_indirect : M (Unit {0})
unfolding read_u32_leb get_counts error_unless callback
read_call_indirect = do
  sig_index ← read_index
  counts ← get_counts
  error_unless (ltb sig_index counts.num_signatures)
  reserved ← read_u32_leb
  error_unless (reserved == 0)
  on_instr (on_call_indirect sig_index)
  on_instr (on_opcode_uint32_uint32 sig_index reserved)

-- `memory.size` and `memory.grow`.
unfoldable pub with_reserved : InstrEvent → M (Unit {0})
unfolding read_u32_leb error_unless callback
with_reserved e = do
  reserved ← read_u32_leb
  error_unless (reserved == 0)
  on_instr e
  on_instr (on_opcode_uint32 reserved)

abbrev kind_event : ArithKind → Opcode → InstrEvent
kind_event binary = on_binary
kind_event compare = on_compare
kind_event unary = on_unary
kind_event convert = on_convert

unfoldable pub arithmetic : InstrEvent → Opcode → M (Unit {0})
unfolding error_unless_enabled callback
arithmetic e opcode = do error_unless_enabled opcode; bare e

abbrev arith_of : ArithKind → Opcode → M (Unit {0})
arith_of kind opcode = arithmetic (kind_event kind opcode) opcode

-- The opcodes of the blocks, less `end`.
unfoldable pub read_never : NeverOp → M (Unit {0})
unfolding fail with_sig with_index callback read_sig_type read_u32_leb error_unless_enabled
read_never block_ = with_sig on_block
read_never loop_ = with_sig on_loop
read_never if_ = with_sig on_if
read_never else_ = bare on_else
read_never try_ = do error_unless_enabled (Opcode.never try_); with_sig on_try
read_never catch_ = do error_unless_enabled (Opcode.never catch_); bare on_catch
read_never rethrow_ = do error_unless_enabled (Opcode.never rethrow_); bare on_rethrow
read_never throw_ = do error_unless_enabled (Opcode.never throw_); with_index on_throw
read_never if_except = do
  error_unless_enabled (Opcode.never if_except)
  sig_type ← read_sig_type
  except_index ← read_index
  on_instr (on_if_except sig_type except_index)
read_never end_ = fail
read_never interp_data = fail

unfoldable pub read_lane : LaneOp → M (Unit {0})
unfolding arithmetic error_unless_enabled with_value read_t
read_lane Lanes.i8x16_splat = arith_of unary (Opcode.lane Lanes.i8x16_splat)
read_lane Lanes.i16x8_splat = arith_of unary (Opcode.lane Lanes.i16x8_splat)
read_lane Lanes.i32x4_splat = arith_of unary (Opcode.lane Lanes.i32x4_splat)
read_lane Lanes.i64x2_splat = arith_of unary (Opcode.lane Lanes.i64x2_splat)
read_lane Lanes.f32x4_splat = arith_of unary (Opcode.lane Lanes.f32x4_splat)
read_lane Lanes.f64x2_splat = arith_of unary (Opcode.lane Lanes.f64x2_splat)
read_lane o = do
  error_unless_enabled (Opcode.lane o)
  with_value read_u8 (on_simd_lane_op (Opcode.lane o)) on_opcode_uint64

-- The cases of the `switch`, less `End`.
unfoldable pub read_instr : Opcode → M (Unit {0})
unfolding fail with_index with_access with_value with_reserved read_br_table read_call
    read_call_indirect arithmetic read_never read_lane error_unless_enabled callback read_t
    read_s32_leb read_s64_leb i32_kind i64_kind f32_kind f64_kind rotate_kind simd_int_kind
    bitwise_kind simd_float_kind
read_instr (Opcode.flow unreachable) = bare on_unreachable
read_instr (Opcode.flow select) = bare on_select
read_instr (Opcode.flow br) = with_index on_br
read_instr (Opcode.flow br_if) = with_index on_br_if
read_instr (Opcode.flow br_table) = read_br_table
read_instr (Opcode.flow return) = bare on_return
read_instr (Opcode.stack nop) = bare on_nop
read_instr (Opcode.stack drop) = bare on_drop
read_instr (Opcode.stack atomic_wake) = with_access (on_atomic_wake (Opcode.stack atomic_wake))
read_instr (Opcode.stack i32_atomic_wait) =
    with_access (on_atomic_wait (Opcode.stack i32_atomic_wait))
read_instr (Opcode.stack i64_atomic_wait) =
    with_access (on_atomic_wait (Opcode.stack i64_atomic_wait))
read_instr (Opcode.stack interp_alloca) = fail
read_instr (Opcode.stack interp_br_unless) = fail
read_instr (Opcode.stack interp_drop_keep) = fail
read_instr (Opcode.var i32_const) = with_value read_s32_leb on_i32_const on_opcode_uint32
read_instr (Opcode.var i64_const) = with_value read_s64_leb on_i64_const on_opcode_uint64
read_instr (Opcode.var f32_const) = with_value read_f32 on_f32_const on_opcode_f32
read_instr (Opcode.var f64_const) = with_value read_f64 on_f64_const on_opcode_f64
read_instr (Opcode.var get_global) = with_index on_get_global
read_instr (Opcode.var set_global) = with_index on_set_global
read_instr (Opcode.var get_local) = with_index on_get_local
read_instr (Opcode.var set_local) = with_index on_set_local
read_instr (Opcode.var tee_local) = with_index on_tee_local
read_instr (Opcode.call Calls.call) = read_call
read_instr (Opcode.call Calls.call_indirect) = read_call_indirect
read_instr (Opcode.call Calls.interp_call_host) = fail
read_instr (Opcode.load o) = with_access (on_load (Opcode.load o))
read_instr (Opcode.store o) = with_access (on_store (Opcode.store o))
read_instr (Opcode.atomic_load o) = with_access (on_atomic_load (Opcode.atomic_load o))
read_instr (Opcode.atomic_store o) = with_access (on_atomic_store (Opcode.atomic_store o))
read_instr (Opcode.cmpxchg o) = with_access (on_atomic_rmw_cmpxchg (Opcode.cmpxchg o))
read_instr (Opcode.rmw f s) = with_access (on_atomic_rmw (Opcode.rmw f s))
read_instr (Opcode.memory Rmw.size) = with_reserved on_memory_size
read_instr (Opcode.memory Rmw.grow) = with_reserved on_memory_grow
read_instr (Opcode.i32 o) = arith_of (i32_kind o) (Opcode.i32 o)
read_instr (Opcode.i64 o) = arith_of (i64_kind o) (Opcode.i64 o)
read_instr (Opcode.f32 o) = arith_of (f32_kind o) (Opcode.f32 o)
read_instr (Opcode.f64 o) = arith_of (f64_kind o) (Opcode.f64 o)
read_instr (Opcode.rotate o) = arith_of (rotate_kind o) (Opcode.rotate o)
read_instr (Opcode.convert o) = arith_of convert (Opcode.convert o)
read_instr (Opcode.simd_int o) = arith_of (simd_int_kind o) (Opcode.simd_int o)
read_instr (Opcode.shift o) = arith_of binary (Opcode.shift o)
read_instr (Opcode.bitwise o) = arith_of (bitwise_kind o) (Opcode.bitwise o)
read_instr (Opcode.truth o) = arith_of unary (Opcode.truth o)
read_instr (Opcode.simd_eq o) = arith_of compare (Opcode.simd_eq o)
read_instr (Opcode.simd_order o) = arith_of compare (Opcode.simd_order o)
read_instr (Opcode.simd_float o) = arith_of (simd_float_kind o) (Opcode.simd_float o)
read_instr (Opcode.lane o) = read_lane o
read_instr (Opcode.vector v128_const) = do
  error_unless_enabled (Opcode.vector v128_const)
  with_value read_v128 on_v128_const on_opcode_v128
read_instr (Opcode.vector v128_load) = with_access (on_load (Opcode.vector v128_load))
read_instr (Opcode.vector v128_store) = with_access (on_store (Opcode.vector v128_store))
read_instr (Opcode.vector v8x16_shuffle) = do
  error_unless_enabled (Opcode.vector v8x16_shuffle)
  with_value read_v128 (on_simd_shuffle_op (Opcode.vector v8x16_shuffle)) on_opcode_v128
read_instr (Opcode.vector v128_bit_select) =
    arithmetic (on_ternary (Opcode.vector v128_bit_select)) (Opcode.vector v128_bit_select)
read_instr (Opcode.never o) = read_never o

abbrev at_offset : ℕ → M Bool
at_offset end_offset r = (ok (r.offset == end_offset), r)

-- Whether it is the `end` of the function.
unfoldable pub read_end_instr : ℕ → M Bool
unfolding callback
read_end_instr end_offset = do
  at_end ← at_offset end_offset
  on_instr (if at_end then on_end_func else on_end)
  pure at_end

unfoldable pub read_one : ℕ → Option Opcode → M Bool
unfolding fail read_end_instr read_instr
read_one end_offset none = fail
read_one end_offset (some (Opcode.never end_)) = read_end_instr end_offset
read_one end_offset (some opcode) = do read_instr opcode; pure false

-- A round of the loop of `ReadFunctionBody`.
unfoldable pub body_round : ℕ → M Bool
unfolding read_opcode callback read_one
body_round end_offset = do
  opcode ← read_opcode
  on_instr (on_opcode opcode)
  read_one end_offset opcode

-- The loop: whether an `end` was seen at the end of the body.
unfoldable pub body_loop : ℕ → ℕ → Bool → M Bool
unfolding body_round
body_loop zero end_offset seen r = (no_fuel, r)
body_loop (suc fuel) end_offset seen r =
    let more = (body_round end_offset >>= λ at_end. body_loop fuel end_offset (seen || at_end)) r in
    if ltb r.offset end_offset then more else (ok seen, r)

-- The fuel is one more than the bytes of the file.
unfoldable pub read_function_body : ℕ → ℕ → M (Unit {0})
unfolding body_loop error_unless
read_function_body fuel end_offset = do
  seen_end_opcode ← body_loop fuel end_offset false
  at_end ← at_offset end_offset
  error_unless at_end
  error_unless seen_end_opcode

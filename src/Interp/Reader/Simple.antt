-- ===== src/Interp/Reader/Simple.antt =====
-- The callbacks of `BinaryReaderInterp` for instructions that do not branch
-- (src/binary-reader-interp.cc). An opcode comes with its entry in the table of opcodes, `info`,
-- and with what the type checker knows of it.
use wasm_sandboxing.Base.{
  ℕ, ◌+◌, ◌%◌, ◌^◌, ◌||◌, not, some, List, leb, ltb, ◌==◌, if◌then◌else◌, length, get_elem?,
}
use wasm_sandboxing.TypeChecker.State
use wasm_sandboxing.TypeChecker.State.{ValueType, Checker}
use wasm_sandboxing.TypeChecker.Check
use wasm_sandboxing.TypeChecker.Simple.{
  on_unary, on_ternary, on_binary, on_load, on_store, on_atomic_load, on_atomic_store,
  on_atomic_rmw, on_atomic_rmw_cmpxchg, on_atomic_wait, on_atomic_wake, on_memory_grow,
  on_memory_size, on_const, on_get_local, on_set_local, on_tee_local, on_drop, on_select,
  on_unreachable, on_simd_lane_op, on_simd_shuffle_op, LaneOp,
}
use wasm_sandboxing.Interp.Opcode.{Opcode}
use wasm_sandboxing.Interp.Control
use wasm_sandboxing.Interp.Ops.Rmw
use wasm_sandboxing.Interp.Ops.Vectors
use wasm_sandboxing.Interp.Emit.{emit_opcode, emit_i8, emit_i32, emit_i64, emit_v128}
use wasm_sandboxing.Interp.Reader.{M, ◌>>=◌, ◌>>◌, pure, fail, check, emit, sub32}

abbrev Info : Type 0
Info = ℕ × Opcode

-- A check, then the opcode and nothing else.
unfoldable pub check_and_emit : (Checker → State.Result × Checker) → Info → M (Unit {0})
unfolding check emit emit_opcode
check_and_emit m info = do check m; emit (emit_opcode info)

unfoldable pub on_unary_expr : Check.Opcode → Info → M (Unit {0})
unfolding on_unary check_and_emit
on_unary_expr opcode = check_and_emit (on_unary opcode)

unfoldable pub on_ternary_expr : Check.Opcode → Info → M (Unit {0})
unfolding on_ternary check_and_emit
on_ternary_expr opcode = check_and_emit (on_ternary opcode)

unfoldable pub on_binary_expr : Check.Opcode → Info → M (Unit {0})
unfolding on_binary check_and_emit
on_binary_expr opcode = check_and_emit (on_binary opcode)

unfoldable pub on_simd_lane_op_expr : LaneOp → Check.Opcode → Info → ℕ → M (Unit {0})
unfolding on_simd_lane_op check_and_emit emit emit_i8
on_simd_lane_op_expr op opcode info value = do
  check_and_emit (on_simd_lane_op op opcode value) info
  emit (emit_i8 (value % 2 ^ 8))

unfoldable pub on_simd_shuffle_op_expr : Check.Opcode → Info → List ℕ → ℕ → M (Unit {0})
unfolding on_simd_shuffle_op check_and_emit emit emit_v128
on_simd_shuffle_op_expr opcode info lanes value = do
  check_and_emit (on_simd_shuffle_op opcode lanes) info
  emit (emit_v128 value)

unfoldable pub on_drop_expr : M (Unit {0})
unfolding on_drop check_and_emit
on_drop_expr = check_and_emit on_drop (0x1a, Opcode.stack Control.drop)

unfoldable pub on_i32_const_expr : ℕ → M (Unit {0})
unfolding on_const check_and_emit emit emit_i32
on_i32_const_expr value = do
  check_and_emit (on_const State.i32) (0x41, Opcode.var Control.i32_const)
  emit (emit_i32 value)

unfoldable pub on_i64_const_expr : ℕ → M (Unit {0})
unfolding on_const check_and_emit emit emit_i64
on_i64_const_expr value = do
  check_and_emit (on_const State.i64) (0x42, Opcode.var Control.i64_const)
  emit (emit_i64 value)

unfoldable pub on_f32_const_expr : ℕ → M (Unit {0})
unfolding on_const check_and_emit emit emit_i32
on_f32_const_expr value_bits = do
  check_and_emit (on_const State.f32) (0x43, Opcode.var Control.f32_const)
  emit (emit_i32 value_bits)

unfoldable pub on_f64_const_expr : ℕ → M (Unit {0})
unfolding on_const check_and_emit emit emit_i64
on_f64_const_expr value_bits = do
  check_and_emit (on_const State.f64) (0x44, Opcode.var Control.f64_const)
  emit (emit_i64 value_bits)

unfoldable pub on_v128_const_expr : ℕ → M (Unit {0})
unfolding on_const check_and_emit emit emit_v128
on_v128_const_expr value_bits = do
  check_and_emit (on_const State.v128) (0xfd00, Opcode.vector Vectors.v128_const)
  emit (emit_v128 value_bits)

-- `CheckLocal` with the type of the local.
unfoldable pub check_local : ℕ → M ValueType
check_local local_index r = (get_elem? r.param_and_local_types local_index, r)

unfoldable pub translate_local_index : ℕ → M ℕ
translate_local_index local_index r =
    (some (sub32 (length r.typechecker.type_stack + length r.param_and_local_types) local_index), r)

-- The index is taken before the check changes the operand stack.
unfoldable pub on_get_local_expr : ℕ → M (Unit {0})
unfolding check_local translate_local_index on_get_local check_and_emit emit emit_i32
on_get_local_expr local_index = do
  type ← check_local local_index
  translated_local_index ← translate_local_index local_index
  check_and_emit (on_get_local type) (0x20, Opcode.var Control.get_local)
  emit (emit_i32 translated_local_index)

unfoldable pub on_set_local_expr : ℕ → M (Unit {0})
unfolding check_local translate_local_index on_set_local check_and_emit emit emit_i32
on_set_local_expr local_index = do
  type ← check_local local_index
  check_and_emit (on_set_local type) (0x21, Opcode.var Control.set_local)
  translated_local_index ← translate_local_index local_index
  emit (emit_i32 translated_local_index)

unfoldable pub on_tee_local_expr : ℕ → M (Unit {0})
unfolding check_local translate_local_index on_tee_local check_and_emit emit emit_i32
on_tee_local_expr local_index = do
  type ← check_local local_index
  check_and_emit (on_tee_local type) (0x22, Opcode.var Control.tee_local)
  translated_local_index ← translate_local_index local_index
  emit (emit_i32 translated_local_index)

-- The index of the memory.
unfoldable pub check_has_memory : M ℕ
check_has_memory r = (r.memory_index, r)

unfoldable pub check_align : ℕ → ℕ → M (Unit {0})
check_align alignment_log2 natural_alignment =
    if leb 32 alignment_log2 || ltb natural_alignment (2 ^ alignment_log2) then fail else pure tt

unfoldable pub check_atomic_align : ℕ → ℕ → M (Unit {0})
check_atomic_align alignment_log2 natural_alignment =
    if leb 32 alignment_log2 || not (2 ^ alignment_log2 == natural_alignment) then fail else pure tt

-- The immediates of an access: `OnLoadExpr`, `OnStoreExpr`, and the atomic ones with the other
-- check of the alignment. `natural` is `GetMemorySize()`.
unfoldable pub emit_access :
    M (Unit {0}) → (Checker → State.Result × Checker) → Info → ℕ → M (Unit {0})
unfolding check_has_memory check_and_emit emit emit_i32
emit_access aligned m info offset = do
  memory_index ← check_has_memory
  aligned
  check_and_emit m info
  emit (emit_i32 memory_index)
  emit (emit_i32 offset)

module _ (opcode : Check.Opcode) (info : Info) (natural alignment_log2 offset : ℕ) where
  unfoldable pub on_load_expr : M (Unit {0})
  unfolding on_load check_align emit_access
  on_load_expr = emit_access (check_align alignment_log2 natural) (on_load opcode) info offset

  unfoldable pub on_store_expr : M (Unit {0})
  unfolding on_store check_align emit_access
  on_store_expr = emit_access (check_align alignment_log2 natural) (on_store opcode) info offset

  abbrev atomic : (Check.Opcode → Checker → State.Result × Checker) → M (Unit {0})
  atomic m = emit_access (check_atomic_align alignment_log2 natural) (m opcode) info offset

  unfoldable pub on_atomic_load_expr : M (Unit {0})
  unfolding on_atomic_load check_atomic_align emit_access
  on_atomic_load_expr = atomic on_atomic_load

  unfoldable pub on_atomic_store_expr : M (Unit {0})
  unfolding on_atomic_store check_atomic_align emit_access
  on_atomic_store_expr = atomic on_atomic_store

  unfoldable pub on_atomic_rmw_expr : M (Unit {0})
  unfolding on_atomic_rmw check_atomic_align emit_access
  on_atomic_rmw_expr = atomic on_atomic_rmw

  unfoldable pub on_atomic_rmw_cmpxchg_expr : M (Unit {0})
  unfolding on_atomic_rmw_cmpxchg check_atomic_align emit_access
  on_atomic_rmw_cmpxchg_expr = atomic on_atomic_rmw_cmpxchg

  unfoldable pub on_atomic_wait_expr : M (Unit {0})
  unfolding on_atomic_wait check_atomic_align emit_access
  on_atomic_wait_expr = atomic on_atomic_wait

  unfoldable pub on_atomic_wake_expr : M (Unit {0})
  unfolding on_atomic_wake check_atomic_align emit_access
  on_atomic_wake_expr = atomic on_atomic_wake

unfoldable pub on_memory_grow_expr : M (Unit {0})
unfolding check_has_memory on_memory_grow check_and_emit emit emit_i32
on_memory_grow_expr = do
  memory_index ← check_has_memory
  check_and_emit on_memory_grow (0x40, Opcode.memory Rmw.grow)
  emit (emit_i32 memory_index)

unfoldable pub on_memory_size_expr : M (Unit {0})
unfolding check_has_memory on_memory_size check_and_emit emit emit_i32
on_memory_size_expr = do
  memory_index ← check_has_memory
  check_and_emit on_memory_size (0x3f, Opcode.memory Rmw.size)
  emit (emit_i32 memory_index)

unfoldable pub on_nop_expr : M (Unit {0})
on_nop_expr = pure tt

unfoldable pub on_select_expr : M (Unit {0})
unfolding on_select check_and_emit
on_select_expr = check_and_emit on_select (0x1b, Opcode.flow Control.select)

unfoldable pub on_unreachable_expr : M (Unit {0})
unfolding on_unreachable check_and_emit
on_unreachable_expr = check_and_emit on_unreachable (0x00, Opcode.flow Control.unreachable)

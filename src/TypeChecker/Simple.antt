-- ===== src/TypeChecker/Simple.antt =====
-- The remaining operations of `TypeChecker`: those that neither open nor close a label
-- (src/type-checker.cc), and `GetSimdLaneCount` of src/opcode.cc.
use wasm_sandboxing.Base.{ℕ, ◌+◌, ◌-◌, ◌%◌, ◌^◌, List, [], ◌∷◌, leb, if◌then◌else◌, length}
use wasm_sandboxing.TypeChecker.State.{
  Result, ok, error, ◌⊕◌, ValueType, any, void, i32, except_ref, TypeVector, lane_too_large,
  shuffle_lane_too_large, M, pure, ◌>>=◌, ◌>>◌, check_result, check_label, print_error, get_label,
  set_unreachable,
}
use wasm_sandboxing.TypeChecker.Check.{
  peek_type, peek_and_check_type, drop_types, push_type, print_stack_if_failed, also,
  pop_and_check_signature, pop_and_check_1_type, Opcode, check_opcode_1, check_opcode_2,
  check_opcode_3,
}

-- The operations that do no more than check an opcode's operands and push its result.
unfoldable pub on_atomic_load : Opcode → M Result
unfolding check_opcode_1
on_atomic_load op = check_opcode_1 op

unfoldable pub on_atomic_store : Opcode → M Result
unfolding check_opcode_2
on_atomic_store op = check_opcode_2 op

unfoldable pub on_atomic_rmw : Opcode → M Result
unfolding check_opcode_2
on_atomic_rmw op = check_opcode_2 op

unfoldable pub on_atomic_rmw_cmpxchg : Opcode → M Result
unfolding check_opcode_3
on_atomic_rmw_cmpxchg op = check_opcode_3 op

unfoldable pub on_atomic_wait : Opcode → M Result
unfolding check_opcode_3
on_atomic_wait op = check_opcode_3 op

unfoldable pub on_atomic_wake : Opcode → M Result
unfolding check_opcode_2
on_atomic_wake op = check_opcode_2 op

unfoldable pub on_binary : Opcode → M Result
unfolding check_opcode_2
on_binary op = check_opcode_2 op

unfoldable pub on_compare : Opcode → M Result
unfolding check_opcode_2
on_compare op = check_opcode_2 op

unfoldable pub on_convert : Opcode → M Result
unfolding check_opcode_1
on_convert op = check_opcode_1 op

unfoldable pub on_load : Opcode → M Result
unfolding check_opcode_1
on_load op = check_opcode_1 op

unfoldable pub on_store : Opcode → M Result
unfolding check_opcode_2
on_store op = check_opcode_2 op

unfoldable pub on_unary : Opcode → M Result
unfolding check_opcode_1
on_unary op = check_opcode_1 op

unfoldable pub on_ternary : Opcode → M Result
unfolding check_opcode_3
on_ternary op = check_opcode_3 op

-- `Opcode::MemoryGrow`'s row of src/opcode.def.
abbrev pub memory_grow : Opcode
memory_grow = record {
  name = "memory.grow";
  result_type = i32;
  param1 = i32;
  param2 = void;
  param3 = void;
}

unfoldable pub on_memory_grow : M Result
unfolding check_opcode_1
on_memory_grow = check_opcode_1 memory_grow

unfoldable pub on_memory_size : M Result
unfolding ◌>>◌ push_type pure
on_memory_size = push_type i32 >> pure ok

unfoldable pub on_const : ValueType → M Result
unfolding ◌>>◌ push_type pure
on_const t = push_type t >> pure ok

unfoldable pub on_get_global : ValueType → M Result
unfolding ◌>>◌ push_type pure
on_get_global t = push_type t >> pure ok

unfoldable pub on_get_local : ValueType → M Result
unfolding ◌>>◌ push_type pure
on_get_local t = push_type t >> pure ok

unfoldable pub on_set_global : ValueType → M Result
unfolding pop_and_check_1_type
on_set_global t = pop_and_check_1_type t "set_global"

unfoldable pub on_set_local : ValueType → M Result
unfolding pop_and_check_1_type
on_set_local t = pop_and_check_1_type t "set_local"

unfoldable pub on_tee_local : ValueType → M Result
unfolding ◌>>=◌ ◌>>◌ pop_and_check_1_type push_type pure
on_tee_local t = do result ← pop_and_check_1_type t "tee_local"; push_type t; pure result

unfoldable pub on_drop : M Result
unfolding ◌>>=◌ ◌>>◌ drop_types print_stack_if_failed pure
on_drop = do result ← drop_types 1; print_stack_if_failed result "drop" (any ∷ []); pure result

unfoldable pub on_select : M Result
unfolding ◌>>=◌ ◌>>◌ peek_and_check_type peek_type print_stack_if_failed also drop_types push_type
    pure
on_select = do
  condition ← peek_and_check_type 0 i32
  second ← peek_type 1
  first ← peek_and_check_type 2 second.1
  let checked = condition ⊕ second.0 ⊕ first
  print_stack_if_failed checked "select" (i32 ∷ second.1 ∷ second.1 ∷ [])
  result ← also checked (drop_types 3)
  push_type second.1
  pure result

unfoldable pub on_rethrow : M Result
unfolding ◌>>=◌ pop_and_check_1_type check_result set_unreachable pure
on_rethrow = do
  result ← pop_and_check_1_type except_ref "rethrow"
  check_result set_unreachable (pure result)

unfoldable pub on_throw : TypeVector → M Result
unfolding ◌>>=◌ pop_and_check_signature check_result set_unreachable pure
on_throw sig = do
  result ← pop_and_check_signature sig "throw"
  check_result set_unreachable (pure result)

-- `label_stack_.size() - 1` wraps where there is no label.
unfoldable pub on_return : M Result
unfolding ◌>>=◌ check_label get_label pop_and_check_signature check_result set_unreachable pure
on_return = do
  depth ← λ s. ((length s.label_stack + 2 ^ 32 - 1) % 2 ^ 32, s)
  check_label error (get_label depth) λ l. do
    result ← pop_and_check_signature l.result_types "return"
    check_result set_unreachable (pure result)

unfoldable pub on_unreachable : M Result
unfolding set_unreachable
on_unreachable = set_unreachable

-- The opcodes of `OnSimdLaneOp`'s switch; any other does not reach it.
pub data LaneOp : Type 0 where
  i8x16_extract_lane_s i8x16_extract_lane_u i16x8_extract_lane_s i16x8_extract_lane_u : LaneOp
  i32x4_extract_lane f32x4_extract_lane i64x2_extract_lane f64x2_extract_lane : LaneOp
  i8x16_replace_lane i16x8_replace_lane i32x4_replace_lane : LaneOp
  f32x4_replace_lane i64x2_replace_lane f64x2_replace_lane : LaneOp

unfoldable pub simd_lane_count : LaneOp → ℕ
simd_lane_count i8x16_extract_lane_s = 16
simd_lane_count i8x16_extract_lane_u = 16
simd_lane_count i8x16_replace_lane = 16
simd_lane_count i16x8_extract_lane_s = 8
simd_lane_count i16x8_extract_lane_u = 8
simd_lane_count i16x8_replace_lane = 8
simd_lane_count f32x4_extract_lane = 4
simd_lane_count f32x4_replace_lane = 4
simd_lane_count i32x4_extract_lane = 4
simd_lane_count i32x4_replace_lane = 4
simd_lane_count f64x2_extract_lane = 2
simd_lane_count f64x2_replace_lane = 2
simd_lane_count i64x2_extract_lane = 2
simd_lane_count i64x2_replace_lane = 2

unfoldable pub check_lane_operands : LaneOp → Opcode → M Result
unfolding check_opcode_1 check_opcode_2
check_lane_operands i8x16_replace_lane op = check_opcode_2 op
check_lane_operands i16x8_replace_lane op = check_opcode_2 op
check_lane_operands i32x4_replace_lane op = check_opcode_2 op
check_lane_operands f32x4_replace_lane op = check_opcode_2 op
check_lane_operands i64x2_replace_lane op = check_opcode_2 op
check_lane_operands f64x2_replace_lane op = check_opcode_2 op
check_lane_operands _ op = check_opcode_1 op

unfoldable pub on_simd_lane_op : LaneOp → Opcode → ℕ → M Result
unfolding ◌>>◌ simd_lane_count print_error check_lane_operands pure
on_simd_lane_op lane op lane_idx = do
  (if leb (simd_lane_count lane) lane_idx
      then print_error (lane_too_large (simd_lane_count lane) lane_idx)
      else pure tt)
  check_lane_operands lane op

-- The 16 bytes of the shuffle mask, lowest address first.
unfoldable pub report_lanes : List ℕ → M (Unit {0})
unfolding ◌>>◌ print_error pure
report_lanes [] = pure tt
report_lanes (lane ∷ lanes) = do
  (if leb 32 lane then print_error (shuffle_lane_too_large lane) else pure tt)
  report_lanes lanes

unfoldable pub on_simd_shuffle_op : Opcode → List ℕ → M Result
unfolding ◌>>◌ report_lanes check_opcode_2
on_simd_shuffle_op op lanes = report_lanes lanes >> check_opcode_2 op

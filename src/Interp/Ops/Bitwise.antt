-- ===== src/Interp/Ops/Bitwise.antt =====
-- The bitwise operations on all 128 bits; the tests of lanes against 0 of `Thread::Run`
-- (src/interp.cc).
use wasm_sandboxing.Interp.State.{M}
use wasm_sandboxing.Interp.Operators.{unop, simd_unop, simd_binop, simd_is_lane_true}
use wasm_sandboxing.Interp.Ints.{int_and, int_or, int_xor, int_not}
use wasm_sandboxing.Interp.Host.{uint8, uint16, uint32, uint64}

pub data BitwiseOp : Type 0 where
  v128_and v128_or v128_xor v128_not : BitwiseOp

unfoldable pub run_bitwise : BitwiseOp → M (Unit {0})
unfolding simd_unop simd_binop
run_bitwise v128_and = simd_binop uint64 64 (int_and 64)
run_bitwise v128_or = simd_binop uint64 64 (int_or 64)
run_bitwise v128_xor = simd_binop uint64 64 (int_xor 64)
run_bitwise v128_not = simd_unop uint64 64 (int_not 64)

pub data TruthOp : Type 0 where
  i8x16_any_true i16x8_any_true i32x4_any_true i64x2_any_true i8x16_all_true : TruthOp
  i16x8_all_true i32x4_all_true i64x2_all_true : TruthOp

unfoldable pub run_truth : TruthOp → M (Unit {0})
unfolding unop simd_is_lane_true
run_truth i8x16_any_true = unop 32 128 (simd_is_lane_true uint8 1)
run_truth i16x8_any_true = unop 32 128 (simd_is_lane_true uint16 1)
run_truth i32x4_any_true = unop 32 128 (simd_is_lane_true uint32 1)
run_truth i64x2_any_true = unop 32 128 (simd_is_lane_true uint64 1)
run_truth i8x16_all_true = unop 32 128 (simd_is_lane_true uint8 16)
run_truth i16x8_all_true = unop 32 128 (simd_is_lane_true uint16 8)
run_truth i32x4_all_true = unop 32 128 (simd_is_lane_true uint32 4)
run_truth i64x2_all_true = unop 32 128 (simd_is_lane_true uint64 2)

-- ===== src/Interp/Ops/SimdInts.antt =====
-- The lane-wise integer arithmetic of `Thread::Run` (src/interp.cc).
use wasm_sandboxing.Interp.State.{M}
use wasm_sandboxing.Interp.Operators.{simd_unop, simd_binop}
use wasm_sandboxing.Interp.Ints.{int_add, int_sub, int_mul, int_neg, add_saturate, sub_saturate}
use wasm_sandboxing.Interp.Host.{uint8, int8, uint16, int16, uint32, int32, uint64, int64}

pub data SimdIntOp : Type 0 where
  i8x16_add i16x8_add i32x4_add i64x2_add i8x16_sub : SimdIntOp
  i16x8_sub i32x4_sub i64x2_sub i8x16_mul i16x8_mul : SimdIntOp
  i32x4_mul i8x16_neg i16x8_neg i32x4_neg i64x2_neg : SimdIntOp
  i8x16_add_saturate_s i8x16_add_saturate_u i16x8_add_saturate_s i16x8_add_saturate_u
        i8x16_sub_saturate_s :
      SimdIntOp
  i8x16_sub_saturate_u i16x8_sub_saturate_s i16x8_sub_saturate_u : SimdIntOp

unfoldable pub run_simd_int : SimdIntOp → M (Unit {0})
unfolding simd_unop simd_binop
run_simd_int i8x16_add = simd_binop uint8 32 (int_add 32)
run_simd_int i16x8_add = simd_binop uint16 32 (int_add 32)
run_simd_int i32x4_add = simd_binop uint32 32 (int_add 32)
run_simd_int i64x2_add = simd_binop uint64 64 (int_add 64)
run_simd_int i8x16_sub = simd_binop uint8 32 (int_sub 32)
run_simd_int i16x8_sub = simd_binop uint16 32 (int_sub 32)
run_simd_int i32x4_sub = simd_binop uint32 32 (int_sub 32)
run_simd_int i64x2_sub = simd_binop uint64 64 (int_sub 64)
run_simd_int i8x16_mul = simd_binop uint8 32 (int_mul 32)
run_simd_int i16x8_mul = simd_binop uint16 32 (int_mul 32)
run_simd_int i32x4_mul = simd_binop uint32 32 (int_mul 32)
run_simd_int i8x16_neg = simd_unop int8 32 (int_neg 32)
run_simd_int i16x8_neg = simd_unop int16 32 (int_neg 32)
run_simd_int i32x4_neg = simd_unop int32 32 (int_neg 32)
run_simd_int i64x2_neg = simd_unop int64 64 (int_neg 64)
run_simd_int i8x16_add_saturate_s = simd_binop int8 32 (add_saturate int8)
run_simd_int i8x16_add_saturate_u = simd_binop uint8 32 (add_saturate uint8)
run_simd_int i16x8_add_saturate_s = simd_binop int16 32 (add_saturate int16)
run_simd_int i16x8_add_saturate_u = simd_binop uint16 32 (add_saturate uint16)
run_simd_int i8x16_sub_saturate_s = simd_binop int8 32 (sub_saturate int8)
run_simd_int i8x16_sub_saturate_u = simd_binop uint8 32 (sub_saturate uint8)
run_simd_int i16x8_sub_saturate_s = simd_binop int16 32 (sub_saturate int16)
run_simd_int i16x8_sub_saturate_u = simd_binop uint16 32 (sub_saturate uint16)

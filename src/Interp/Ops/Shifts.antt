-- ===== src/Interp/Ops/Shifts.antt =====
-- The lane-wise shifts of `Thread::Run` (src/interp.cc).
use wasm_sandboxing.Interp.State.{M}
use wasm_sandboxing.Interp.Lanewise.{simd_shift}
use wasm_sandboxing.Interp.Ints.{int_shl, int_shr}
use wasm_sandboxing.Interp.Host.{uint8, int8, uint16, int16, uint32, int32, uint64, int64}

pub data ShiftOp : Type 0 where
  i8x16_shl i16x8_shl i32x4_shl i64x2_shl i8x16_shr_s : ShiftOp
  i8x16_shr_u i16x8_shr_s i16x8_shr_u i32x4_shr_s i32x4_shr_u : ShiftOp
  i64x2_shr_s i64x2_shr_u : ShiftOp

unfoldable pub run_shift : ShiftOp → M (Unit {0})
unfolding simd_shift
run_shift i8x16_shl = simd_shift 8 uint8 uint8 32 (int_shl 32)
run_shift i16x8_shl = simd_shift 16 uint16 uint16 32 (int_shl 32)
run_shift i32x4_shl = simd_shift 32 uint32 uint32 32 (int_shl 32)
run_shift i64x2_shl = simd_shift 64 uint64 uint64 64 (int_shl 64)
run_shift i8x16_shr_s = simd_shift 8 uint8 int8 32 (int_shr int32)
run_shift i8x16_shr_u = simd_shift 8 uint8 uint8 32 (int_shr uint32)
run_shift i16x8_shr_s = simd_shift 16 uint16 int16 32 (int_shr int32)
run_shift i16x8_shr_u = simd_shift 16 uint16 uint16 32 (int_shr uint32)
run_shift i32x4_shr_s = simd_shift 32 uint32 int32 32 (int_shr int32)
run_shift i32x4_shr_u = simd_shift 32 uint32 uint32 32 (int_shr uint32)
run_shift i64x2_shr_s = simd_shift 64 uint64 int64 64 (int_shr int64)
run_shift i64x2_shr_u = simd_shift 64 uint64 uint64 64 (int_shr uint64)

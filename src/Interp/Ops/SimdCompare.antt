-- ===== src/Interp/Ops/SimdCompare.antt =====
-- The lane-wise equalities; the lane-wise orders of `Thread::Run` (src/interp.cc).
use wasm_sandboxing.Interp.State.{M}
use wasm_sandboxing.Interp.Operators.{simd_binop}
use wasm_sandboxing.Interp.Compare.{eq, ne, lt, le, gt, ge}
use wasm_sandboxing.Interp.Host.{
  uint8, int8, uint16, int16, uint32, int32, int64, float, double, Host,
}

pub data SimdEqOp : Type 0 where
  i8x16_eq i16x8_eq i32x4_eq f32x4_eq f64x2_eq : SimdEqOp
  i8x16_ne i16x8_ne i32x4_ne f32x4_ne f64x2_ne : SimdEqOp

unfoldable pub run_simd_eq : Host → SimdEqOp → M (Unit {0})
unfolding simd_binop
run_simd_eq host i8x16_eq = simd_binop int8 32 (eq host int32)
run_simd_eq host i16x8_eq = simd_binop int16 32 (eq host int32)
run_simd_eq host i32x4_eq = simd_binop int32 32 (eq host int32)
run_simd_eq host f32x4_eq = simd_binop int32 32 (eq host float)
run_simd_eq host f64x2_eq = simd_binop int64 64 (eq host double)
run_simd_eq host i8x16_ne = simd_binop int8 32 (ne host int32)
run_simd_eq host i16x8_ne = simd_binop int16 32 (ne host int32)
run_simd_eq host i32x4_ne = simd_binop int32 32 (ne host int32)
run_simd_eq host f32x4_ne = simd_binop int32 32 (ne host float)
run_simd_eq host f64x2_ne = simd_binop int64 64 (ne host double)

pub data SimdOrderOp : Type 0 where
  i8x16_lt_s i8x16_lt_u i16x8_lt_s i16x8_lt_u i32x4_lt_s : SimdOrderOp
  i32x4_lt_u f32x4_lt f64x2_lt i8x16_le_s i8x16_le_u : SimdOrderOp
  i16x8_le_s i16x8_le_u i32x4_le_s i32x4_le_u f32x4_le : SimdOrderOp
  f64x2_le i8x16_gt_s i8x16_gt_u i16x8_gt_s i16x8_gt_u : SimdOrderOp
  i32x4_gt_s i32x4_gt_u f32x4_gt f64x2_gt i8x16_ge_s : SimdOrderOp
  i8x16_ge_u i16x8_ge_s i16x8_ge_u i32x4_ge_s i32x4_ge_u : SimdOrderOp
  f32x4_ge f64x2_ge : SimdOrderOp

unfoldable pub run_simd_order : Host → SimdOrderOp → M (Unit {0})
unfolding simd_binop
run_simd_order host i8x16_lt_s = simd_binop int8 32 (lt host int32)
run_simd_order host i8x16_lt_u = simd_binop uint8 32 (lt host uint32)
run_simd_order host i16x8_lt_s = simd_binop int16 32 (lt host int32)
run_simd_order host i16x8_lt_u = simd_binop uint16 32 (lt host uint32)
run_simd_order host i32x4_lt_s = simd_binop int32 32 (lt host int32)
run_simd_order host i32x4_lt_u = simd_binop uint32 32 (lt host uint32)
run_simd_order host f32x4_lt = simd_binop int32 32 (lt host float)
run_simd_order host f64x2_lt = simd_binop int64 64 (lt host double)
run_simd_order host i8x16_le_s = simd_binop int8 32 (le host int32)
run_simd_order host i8x16_le_u = simd_binop uint8 32 (le host uint32)
run_simd_order host i16x8_le_s = simd_binop int16 32 (le host int32)
run_simd_order host i16x8_le_u = simd_binop uint16 32 (le host uint32)
run_simd_order host i32x4_le_s = simd_binop int32 32 (le host int32)
run_simd_order host i32x4_le_u = simd_binop uint32 32 (le host uint32)
run_simd_order host f32x4_le = simd_binop int32 32 (le host float)
run_simd_order host f64x2_le = simd_binop int64 64 (le host double)
run_simd_order host i8x16_gt_s = simd_binop int8 32 (gt host int32)
run_simd_order host i8x16_gt_u = simd_binop uint8 32 (gt host uint32)
run_simd_order host i16x8_gt_s = simd_binop int16 32 (gt host int32)
run_simd_order host i16x8_gt_u = simd_binop uint16 32 (gt host uint32)
run_simd_order host i32x4_gt_s = simd_binop int32 32 (gt host int32)
run_simd_order host i32x4_gt_u = simd_binop uint32 32 (gt host uint32)
run_simd_order host f32x4_gt = simd_binop int32 32 (gt host float)
run_simd_order host f64x2_gt = simd_binop int64 64 (gt host double)
run_simd_order host i8x16_ge_s = simd_binop int8 32 (ge host int32)
run_simd_order host i8x16_ge_u = simd_binop uint8 32 (ge host uint32)
run_simd_order host i16x8_ge_s = simd_binop int16 32 (ge host int32)
run_simd_order host i16x8_ge_u = simd_binop uint16 32 (ge host uint32)
run_simd_order host i32x4_ge_s = simd_binop int32 32 (ge host int32)
run_simd_order host i32x4_ge_u = simd_binop uint32 32 (ge host uint32)
run_simd_order host f32x4_ge = simd_binop int32 32 (ge host float)
run_simd_order host f64x2_ge = simd_binop int64 64 (ge host double)

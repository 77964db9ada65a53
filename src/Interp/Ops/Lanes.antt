-- ===== src/Interp/Ops/Lanes.antt =====
-- The instructions that build, read and change lanes of `Thread::Run` (src/interp.cc).
use wasm_sandboxing.Interp.State.{M}
use wasm_sandboxing.Interp.Operators.{unop, simd_splat, simd_extract_lane, simd_replace_lane}
use wasm_sandboxing.Interp.Lanewise.{extract_lane, replace_lane}
use wasm_sandboxing.Interp.Host.{
  uint8, int8, uint16, int16, uint32, int32, uint64, int64, float, double,
}

pub data LaneOp : Type 0 where
  i8x16_splat i16x8_splat i32x4_splat i64x2_splat f32x4_splat : LaneOp
  f64x2_splat i8x16_extract_lane_s i8x16_extract_lane_u i16x8_extract_lane_s i16x8_extract_lane_u :
      LaneOp
  i32x4_extract_lane i64x2_extract_lane f32x4_extract_lane f64x2_extract_lane i8x16_replace_lane :
      LaneOp
  i16x8_replace_lane i32x4_replace_lane i64x2_replace_lane f32x4_replace_lane f64x2_replace_lane :
      LaneOp

unfoldable pub run_lane : LaneOp → M (Unit {0})
unfolding unop simd_splat simd_extract_lane simd_replace_lane extract_lane replace_lane
run_lane i8x16_splat = unop 128 32 (λ v. simd_splat uint8 v)
run_lane i16x8_splat = unop 128 32 (λ v. simd_splat uint16 v)
run_lane i32x4_splat = unop 128 32 (λ v. simd_splat uint32 v)
run_lane i64x2_splat = unop 128 64 (λ v. simd_splat uint64 v)
run_lane f32x4_splat = unop 128 32 (λ v. simd_splat float v)
run_lane f64x2_splat = unop 128 64 (λ v. simd_splat double v)
run_lane i8x16_extract_lane_s = extract_lane 32 (simd_extract_lane int8 32)
run_lane i8x16_extract_lane_u = extract_lane 32 (simd_extract_lane uint8 32)
run_lane i16x8_extract_lane_s = extract_lane 32 (simd_extract_lane int16 32)
run_lane i16x8_extract_lane_u = extract_lane 32 (simd_extract_lane uint16 32)
run_lane i32x4_extract_lane = extract_lane 32 (simd_extract_lane int32 32)
run_lane i64x2_extract_lane = extract_lane 64 (simd_extract_lane int64 64)
run_lane f32x4_extract_lane = extract_lane 32 (simd_extract_lane int32 32)
run_lane f64x2_extract_lane = extract_lane 64 (simd_extract_lane int64 64)
run_lane i8x16_replace_lane = replace_lane 32 (simd_replace_lane int8)
run_lane i16x8_replace_lane = replace_lane 32 (simd_replace_lane int16)
run_lane i32x4_replace_lane = replace_lane 32 (simd_replace_lane int32)
run_lane i64x2_replace_lane = replace_lane 64 (simd_replace_lane int64)
run_lane f32x4_replace_lane = replace_lane 32 (simd_replace_lane float)
run_lane f64x2_replace_lane = replace_lane 64 (simd_replace_lane double)

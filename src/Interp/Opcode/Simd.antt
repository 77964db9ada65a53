-- ===== src/Interp/Opcode/Simd.antt =====
-- The entries of the table of opcodes with the prefix for vectors (src/opcode.def), by
-- `PrefixCode`.
use wasm_sandboxing.Base.{ℕ, List, [], ◌∷◌}
use wasm_sandboxing.Interp.Ops.Bitwise
use wasm_sandboxing.Interp.Ops.Lanes
use wasm_sandboxing.Interp.Ops.Shifts
use wasm_sandboxing.Interp.Ops.SimdCompare
use wasm_sandboxing.Interp.Ops.SimdFloats
use wasm_sandboxing.Interp.Ops.SimdInts
use wasm_sandboxing.Interp.Ops.Vectors
use wasm_sandboxing.Interp.Opcode.{Opcode}

abbrev pub simd_infos : List (ℕ × Opcode)
simd_infos =
    (0xfd00, Opcode.vector Vectors.v128_const)
    ∷ (0xfd01, Opcode.vector Vectors.v128_load)
    ∷ (0xfd02, Opcode.vector Vectors.v128_store)
    ∷ (0xfd03, Opcode.lane Lanes.i8x16_splat)
    ∷ (0xfd04, Opcode.lane Lanes.i16x8_splat)
    ∷ (0xfd05, Opcode.lane Lanes.i32x4_splat)
    ∷ (0xfd06, Opcode.lane Lanes.i64x2_splat)
    ∷ (0xfd07, Opcode.lane Lanes.f32x4_splat)
    ∷ (0xfd08, Opcode.lane Lanes.f64x2_splat)
    ∷ (0xfd09, Opcode.lane Lanes.i8x16_extract_lane_s)
    ∷ (0xfd0a, Opcode.lane Lanes.i8x16_extract_lane_u)
    ∷ (0xfd0b, Opcode.lane Lanes.i16x8_extract_lane_s)
    ∷ (0xfd0c, Opcode.lane Lanes.i16x8_extract_lane_u)
    ∷ (0xfd0d, Opcode.lane Lanes.i32x4_extract_lane)
    ∷ (0xfd0e, Opcode.lane Lanes.i64x2_extract_lane)
    ∷ (0xfd0f, Opcode.lane Lanes.f32x4_extract_lane)
    ∷ (0xfd10, Opcode.lane Lanes.f64x2_extract_lane)
    ∷ (0xfd11, Opcode.lane Lanes.i8x16_replace_lane)
    ∷ (0xfd12, Opcode.lane Lanes.i16x8_replace_lane)
    ∷ (0xfd13, Opcode.lane Lanes.i32x4_replace_lane)
    ∷ (0xfd14, Opcode.lane Lanes.i64x2_replace_lane)
    ∷ (0xfd15, Opcode.lane Lanes.f32x4_replace_lane)
    ∷ (0xfd16, Opcode.lane Lanes.f64x2_replace_lane)
    ∷ (0xfd17, Opcode.vector Vectors.v8x16_shuffle)
    ∷ (0xfd18, Opcode.simd_int SimdInts.i8x16_add)
    ∷ (0xfd19, Opcode.simd_int SimdInts.i16x8_add)
    ∷ (0xfd1a, Opcode.simd_int SimdInts.i32x4_add)
    ∷ (0xfd1b, Opcode.simd_int SimdInts.i64x2_add)
    ∷ (0xfd1c, Opcode.simd_int SimdInts.i8x16_sub)
    ∷ (0xfd1d, Opcode.simd_int SimdInts.i16x8_sub)
    ∷ (0xfd1e, Opcode.simd_int SimdInts.i32x4_sub)
    ∷ (0xfd1f, Opcode.simd_int SimdInts.i64x2_sub)
    ∷ (0xfd20, Opcode.simd_int SimdInts.i8x16_mul)
    ∷ (0xfd21, Opcode.simd_int SimdInts.i16x8_mul)
    ∷ (0xfd22, Opcode.simd_int SimdInts.i32x4_mul)
    ∷ (0xfd23, Opcode.simd_int SimdInts.i8x16_neg)
    ∷ (0xfd24, Opcode.simd_int SimdInts.i16x8_neg)
    ∷ (0xfd25, Opcode.simd_int SimdInts.i32x4_neg)
    ∷ (0xfd26, Opcode.simd_int SimdInts.i64x2_neg)
    ∷ (0xfd27, Opcode.simd_int SimdInts.i8x16_add_saturate_s)
    ∷ (0xfd28, Opcode.simd_int SimdInts.i8x16_add_saturate_u)
    ∷ (0xfd29, Opcode.simd_int SimdInts.i16x8_add_saturate_s)
    ∷ (0xfd2a, Opcode.simd_int SimdInts.i16x8_add_saturate_u)
    ∷ (0xfd2b, Opcode.simd_int SimdInts.i8x16_sub_saturate_s)
    ∷ (0xfd2c, Opcode.simd_int SimdInts.i8x16_sub_saturate_u)
    ∷ (0xfd2d, Opcode.simd_int SimdInts.i16x8_sub_saturate_s)
    ∷ (0xfd2e, Opcode.simd_int SimdInts.i16x8_sub_saturate_u)
    ∷ (0xfd2f, Opcode.shift Shifts.i8x16_shl)
    ∷ (0xfd30, Opcode.shift Shifts.i16x8_shl)
    ∷ (0xfd31, Opcode.shift Shifts.i32x4_shl)
    ∷ (0xfd32, Opcode.shift Shifts.i64x2_shl)
    ∷ (0xfd33, Opcode.shift Shifts.i8x16_shr_s)
    ∷ (0xfd34, Opcode.shift Shifts.i8x16_shr_u)
    ∷ (0xfd35, Opcode.shift Shifts.i16x8_shr_s)
    ∷ (0xfd36, Opcode.shift Shifts.i16x8_shr_u)
    ∷ (0xfd37, Opcode.shift Shifts.i32x4_shr_s)
    ∷ (0xfd38, Opcode.shift Shifts.i32x4_shr_u)
    ∷ (0xfd39, Opcode.shift Shifts.i64x2_shr_s)
    ∷ (0xfd3a, Opcode.shift Shifts.i64x2_shr_u)
    ∷ (0xfd3b, Opcode.bitwise Bitwise.v128_and)
    ∷ (0xfd3c, Opcode.bitwise Bitwise.v128_or)
    ∷ (0xfd3d, Opcode.bitwise Bitwise.v128_xor)
    ∷ (0xfd3e, Opcode.bitwise Bitwise.v128_not)
    ∷ (0xfd3f, Opcode.vector Vectors.v128_bit_select)
    ∷ (0xfd40, Opcode.truth Bitwise.i8x16_any_true)
    ∷ (0xfd41, Opcode.truth Bitwise.i16x8_any_true)
    ∷ (0xfd42, Opcode.truth Bitwise.i32x4_any_true)
    ∷ (0xfd43, Opcode.truth Bitwise.i64x2_any_true)
    ∷ (0xfd44, Opcode.truth Bitwise.i8x16_all_true)
    ∷ (0xfd45, Opcode.truth Bitwise.i16x8_all_true)
    ∷ (0xfd46, Opcode.truth Bitwise.i32x4_all_true)
    ∷ (0xfd47, Opcode.truth Bitwise.i64x2_all_true)
    ∷ (0xfd48, Opcode.simd_eq SimdCompare.i8x16_eq)
    ∷ (0xfd49, Opcode.simd_eq SimdCompare.i16x8_eq)
    ∷ (0xfd4a, Opcode.simd_eq SimdCompare.i32x4_eq)
    ∷ (0xfd4b, Opcode.simd_eq SimdCompare.f32x4_eq)
    ∷ (0xfd4c, Opcode.simd_eq SimdCompare.f64x2_eq)
    ∷ (0xfd4d, Opcode.simd_eq SimdCompare.i8x16_ne)
    ∷ (0xfd4e, Opcode.simd_eq SimdCompare.i16x8_ne)
    ∷ (0xfd4f, Opcode.simd_eq SimdCompare.i32x4_ne)
    ∷ (0xfd50, Opcode.simd_eq SimdCompare.f32x4_ne)
    ∷ (0xfd51, Opcode.simd_eq SimdCompare.f64x2_ne)
    ∷ (0xfd52, Opcode.simd_order SimdCompare.i8x16_lt_s)
    ∷ (0xfd53, Opcode.simd_order SimdCompare.i8x16_lt_u)
    ∷ (0xfd54, Opcode.simd_order SimdCompare.i16x8_lt_s)
    ∷ (0xfd55, Opcode.simd_order SimdCompare.i16x8_lt_u)
    ∷ (0xfd56, Opcode.simd_order SimdCompare.i32x4_lt_s)
    ∷ (0xfd57, Opcode.simd_order SimdCompare.i32x4_lt_u)
    ∷ (0xfd58, Opcode.simd_order SimdCompare.f32x4_lt)
    ∷ (0xfd59, Opcode.simd_order SimdCompare.f64x2_lt)
    ∷ (0xfd5a, Opcode.simd_order SimdCompare.i8x16_le_s)
    ∷ (0xfd5b, Opcode.simd_order SimdCompare.i8x16_le_u)
    ∷ (0xfd5c, Opcode.simd_order SimdCompare.i16x8_le_s)
    ∷ (0xfd5d, Opcode.simd_order SimdCompare.i16x8_le_u)
    ∷ (0xfd5e, Opcode.simd_order SimdCompare.i32x4_le_s)
    ∷ (0xfd5f, Opcode.simd_order SimdCompare.i32x4_le_u)
    ∷ (0xfd60, Opcode.simd_order SimdCompare.f32x4_le)
    ∷ (0xfd61, Opcode.simd_order SimdCompare.f64x2_le)
    ∷ (0xfd62, Opcode.simd_order SimdCompare.i8x16_gt_s)
    ∷ (0xfd63, Opcode.simd_order SimdCompare.i8x16_gt_u)
    ∷ (0xfd64, Opcode.simd_order SimdCompare.i16x8_gt_s)
    ∷ (0xfd65, Opcode.simd_order SimdCompare.i16x8_gt_u)
    ∷ (0xfd66, Opcode.simd_order SimdCompare.i32x4_gt_s)
    ∷ (0xfd67, Opcode.simd_order SimdCompare.i32x4_gt_u)
    ∷ (0xfd68, Opcode.simd_order SimdCompare.f32x4_gt)
    ∷ (0xfd69, Opcode.simd_order SimdCompare.f64x2_gt)
    ∷ (0xfd6a, Opcode.simd_order SimdCompare.i8x16_ge_s)
    ∷ (0xfd6b, Opcode.simd_order SimdCompare.i8x16_ge_u)
    ∷ (0xfd6c, Opcode.simd_order SimdCompare.i16x8_ge_s)
    ∷ (0xfd6d, Opcode.simd_order SimdCompare.i16x8_ge_u)
    ∷ (0xfd6e, Opcode.simd_order SimdCompare.i32x4_ge_s)
    ∷ (0xfd6f, Opcode.simd_order SimdCompare.i32x4_ge_u)
    ∷ (0xfd70, Opcode.simd_order SimdCompare.f32x4_ge)
    ∷ (0xfd71, Opcode.simd_order SimdCompare.f64x2_ge)
    ∷ (0xfd72, Opcode.simd_float SimdFloats.f32x4_neg)
    ∷ (0xfd73, Opcode.simd_float SimdFloats.f64x2_neg)
    ∷ (0xfd74, Opcode.simd_float SimdFloats.f32x4_abs)
    ∷ (0xfd75, Opcode.simd_float SimdFloats.f64x2_abs)
    ∷ (0xfd76, Opcode.simd_float SimdFloats.f32x4_min)
    ∷ (0xfd77, Opcode.simd_float SimdFloats.f64x2_min)
    ∷ (0xfd78, Opcode.simd_float SimdFloats.f32x4_max)
    ∷ (0xfd79, Opcode.simd_float SimdFloats.f64x2_max)
    ∷ (0xfd7a, Opcode.simd_float SimdFloats.f32x4_add)
    ∷ (0xfd7b, Opcode.simd_float SimdFloats.f64x2_add)
    ∷ (0xfd7c, Opcode.simd_float SimdFloats.f32x4_sub)
    ∷ (0xfd7d, Opcode.simd_float SimdFloats.f64x2_sub)
    ∷ (0xfd7e, Opcode.simd_float SimdFloats.f32x4_div)
    ∷ (0xfd7f, Opcode.simd_float SimdFloats.f64x2_div)
    ∷ (0xfd80, Opcode.simd_float SimdFloats.f32x4_mul)
    ∷ (0xfd81, Opcode.simd_float SimdFloats.f64x2_mul)
    ∷ (0xfd82, Opcode.simd_float SimdFloats.f32x4_sqrt)
    ∷ (0xfd83, Opcode.simd_float SimdFloats.f64x2_sqrt)
    ∷ (0xfd84, Opcode.simd_float SimdFloats.f32x4_convert_s_i32x4)
    ∷ (0xfd85, Opcode.simd_float SimdFloats.f32x4_convert_u_i32x4)
    ∷ (0xfd86, Opcode.simd_float SimdFloats.f64x2_convert_s_i64x2)
    ∷ (0xfd87, Opcode.simd_float SimdFloats.f64x2_convert_u_i64x2)
    ∷ (0xfd88, Opcode.simd_float SimdFloats.i32x4_trunc_s_f32x4_sat)
    ∷ (0xfd89, Opcode.simd_float SimdFloats.i32x4_trunc_u_f32x4_sat)
    ∷ (0xfd8a, Opcode.simd_float SimdFloats.i64x2_trunc_s_f64x2_sat)
    ∷ (0xfd8b, Opcode.simd_float SimdFloats.i64x2_trunc_u_f64x2_sat)
    ∷ []

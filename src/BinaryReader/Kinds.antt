-- ===== src/BinaryReader/Kinds.antt =====
-- The callback that an arithmetic instruction has (src/binary-reader.cc), and the feature that an
-- opcode needs (src/opcode.cc).
use wasm_sandboxing.Base.{Bool, true, false}
use wasm_sandboxing.Interp.Control.{
  i32_atomic_wait, i64_atomic_wait, atomic_wake, interp_alloca, interp_br_unless, interp_drop_keep,
}
use wasm_sandboxing.Interp.Calls.{interp_call_host}
use wasm_sandboxing.Interp.Ops.Convert
use wasm_sandboxing.Interp.Opcode
use wasm_sandboxing.Interp.Ops.I32
use wasm_sandboxing.Interp.Ops.I32.{I32Op}
use wasm_sandboxing.Interp.Ops.I64
use wasm_sandboxing.Interp.Ops.I64.{I64Op}
use wasm_sandboxing.Interp.Ops.F32
use wasm_sandboxing.Interp.Ops.F32.{F32Op}
use wasm_sandboxing.Interp.Ops.F64
use wasm_sandboxing.Interp.Ops.F64.{F64Op}
use wasm_sandboxing.Interp.Ops.Rotate
use wasm_sandboxing.Interp.Ops.Rotate.{RotateOp}
use wasm_sandboxing.Interp.Ops.SimdInts
use wasm_sandboxing.Interp.Ops.SimdInts.{SimdIntOp}
use wasm_sandboxing.Interp.Ops.Bitwise
use wasm_sandboxing.Interp.Ops.Bitwise.{BitwiseOp}
use wasm_sandboxing.Interp.Ops.SimdFloats
use wasm_sandboxing.Interp.Ops.SimdFloats.{SimdFloatOp}
use wasm_sandboxing.Interp.Opcode.{
  Opcode, stack, call, atomic_load, atomic_store, cmpxchg, rmw, rotate, never, lane, simd_int,
  shift, bitwise, truth, simd_eq, simd_order, simd_float, vector,
}
use wasm_sandboxing.BinaryReader.State.{Features}

pub data ArithKind : Type 0 where
  binary compare unary convert : ArithKind

unfoldable pub i32_kind : I32Op → ArithKind
i32_kind I32.i32_eqz = convert
i32_kind I32.i32_eq = compare
i32_kind I32.i32_ne = compare
i32_kind I32.i32_lt_s = compare
i32_kind I32.i32_lt_u = compare
i32_kind I32.i32_gt_s = compare
i32_kind I32.i32_gt_u = compare
i32_kind I32.i32_le_s = compare
i32_kind I32.i32_le_u = compare
i32_kind I32.i32_ge_s = compare
i32_kind I32.i32_ge_u = compare
i32_kind I32.i32_clz = unary
i32_kind I32.i32_ctz = unary
i32_kind I32.i32_popcnt = unary
i32_kind _ = binary

unfoldable pub i64_kind : I64Op → ArithKind
i64_kind I64.i64_eq = compare
i64_kind I64.i64_ne = compare
i64_kind I64.i64_lt_s = compare
i64_kind I64.i64_lt_u = compare
i64_kind I64.i64_gt_s = compare
i64_kind I64.i64_gt_u = compare
i64_kind I64.i64_le_s = compare
i64_kind I64.i64_le_u = compare
i64_kind I64.i64_ge_s = compare
i64_kind I64.i64_ge_u = compare
i64_kind I64.i64_clz = unary
i64_kind I64.i64_ctz = unary
i64_kind I64.i64_popcnt = unary
i64_kind _ = binary

unfoldable pub f32_kind : F32Op → ArithKind
f32_kind F32.f32_eq = compare
f32_kind F32.f32_ne = compare
f32_kind F32.f32_lt = compare
f32_kind F32.f32_gt = compare
f32_kind F32.f32_le = compare
f32_kind F32.f32_ge = compare
f32_kind F32.f32_add = binary
f32_kind F32.f32_sub = binary
f32_kind F32.f32_mul = binary
f32_kind F32.f32_div = binary
f32_kind F32.f32_min = binary
f32_kind F32.f32_max = binary
f32_kind F32.f32_copysign = binary
f32_kind _ = unary

unfoldable pub f64_kind : F64Op → ArithKind
f64_kind F64.f64_eq = compare
f64_kind F64.f64_ne = compare
f64_kind F64.f64_lt = compare
f64_kind F64.f64_gt = compare
f64_kind F64.f64_le = compare
f64_kind F64.f64_ge = compare
f64_kind F64.f64_add = binary
f64_kind F64.f64_sub = binary
f64_kind F64.f64_mul = binary
f64_kind F64.f64_div = binary
f64_kind F64.f64_min = binary
f64_kind F64.f64_max = binary
f64_kind F64.f64_copysign = binary
f64_kind _ = unary

unfoldable pub rotate_kind : RotateOp → ArithKind
rotate_kind Rotate.i64_eqz = convert
rotate_kind Rotate.i32_rotl = binary
rotate_kind Rotate.i32_rotr = binary
rotate_kind Rotate.i64_rotl = binary
rotate_kind Rotate.i64_rotr = binary
rotate_kind _ = unary

unfoldable pub simd_int_kind : SimdIntOp → ArithKind
simd_int_kind SimdInts.i8x16_neg = unary
simd_int_kind SimdInts.i16x8_neg = unary
simd_int_kind SimdInts.i32x4_neg = unary
simd_int_kind SimdInts.i64x2_neg = unary
simd_int_kind _ = binary

unfoldable pub bitwise_kind : BitwiseOp → ArithKind
bitwise_kind Bitwise.v128_not = unary
bitwise_kind _ = binary

unfoldable pub simd_float_kind : SimdFloatOp → ArithKind
simd_float_kind SimdFloats.f32x4_neg = unary
simd_float_kind SimdFloats.f64x2_neg = unary
simd_float_kind SimdFloats.f32x4_abs = unary
simd_float_kind SimdFloats.f64x2_abs = unary
simd_float_kind SimdFloats.f32x4_sqrt = unary
simd_float_kind SimdFloats.f64x2_sqrt = unary
simd_float_kind SimdFloats.f32x4_convert_s_i32x4 = convert
simd_float_kind SimdFloats.f32x4_convert_u_i32x4 = convert
simd_float_kind SimdFloats.f64x2_convert_s_i64x2 = convert
simd_float_kind SimdFloats.f64x2_convert_u_i64x2 = convert
simd_float_kind SimdFloats.i32x4_trunc_s_f32x4_sat = convert
simd_float_kind SimdFloats.i32x4_trunc_u_f32x4_sat = convert
simd_float_kind SimdFloats.i64x2_trunc_s_f64x2_sat = convert
simd_float_kind SimdFloats.i64x2_trunc_u_f64x2_sat = convert
simd_float_kind _ = binary

-- `Opcode::IsEnabled`
unfoldable pub is_enabled : Features → Opcode → Bool
is_enabled features (never Opcode.try_) = features.exceptions
is_enabled features (never Opcode.catch_) = features.exceptions
is_enabled features (never Opcode.throw_) = features.exceptions
is_enabled features (never Opcode.rethrow_) = features.exceptions
is_enabled features (never Opcode.if_except) = features.exceptions
is_enabled features (never Opcode.interp_data) = false
is_enabled features (never _) = true
is_enabled features (Opcode.convert Convert.i32_trunc_s_sat_f32) = features.sat_float_to_int
is_enabled features (Opcode.convert Convert.i32_trunc_u_sat_f32) = features.sat_float_to_int
is_enabled features (Opcode.convert Convert.i32_trunc_s_sat_f64) = features.sat_float_to_int
is_enabled features (Opcode.convert Convert.i32_trunc_u_sat_f64) = features.sat_float_to_int
is_enabled features (Opcode.convert Convert.i64_trunc_s_sat_f32) = features.sat_float_to_int
is_enabled features (Opcode.convert Convert.i64_trunc_u_sat_f32) = features.sat_float_to_int
is_enabled features (Opcode.convert Convert.i64_trunc_s_sat_f64) = features.sat_float_to_int
is_enabled features (Opcode.convert Convert.i64_trunc_u_sat_f64) = features.sat_float_to_int
is_enabled features (Opcode.convert _) = true
is_enabled features (rotate Rotate.i32_extend8_s) = features.sign_extension
is_enabled features (rotate Rotate.i32_extend16_s) = features.sign_extension
is_enabled features (rotate Rotate.i64_extend8_s) = features.sign_extension
is_enabled features (rotate Rotate.i64_extend16_s) = features.sign_extension
is_enabled features (rotate Rotate.i64_extend32_s) = features.sign_extension
is_enabled features (rotate _) = true
is_enabled features (stack atomic_wake) = features.threads
is_enabled features (stack i32_atomic_wait) = features.threads
is_enabled features (stack i64_atomic_wait) = features.threads
is_enabled features (stack interp_alloca) = false
is_enabled features (stack interp_br_unless) = false
is_enabled features (stack interp_drop_keep) = false
is_enabled features (stack _) = true
is_enabled features (call interp_call_host) = false
is_enabled features (call _) = true
is_enabled features (atomic_load o) = features.threads
is_enabled features (atomic_store o) = features.threads
is_enabled features (cmpxchg o) = features.threads
is_enabled features (rmw f s) = features.threads
is_enabled features (vector o) = features.simd
is_enabled features (lane o) = features.simd
is_enabled features (simd_int o) = features.simd
is_enabled features (shift o) = features.simd
is_enabled features (bitwise o) = features.simd
is_enabled features (truth o) = features.simd
is_enabled features (simd_eq o) = features.simd
is_enabled features (simd_order o) = features.simd
is_enabled features (simd_float o) = features.simd
is_enabled features _ = true

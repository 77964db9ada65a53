-- ===== src/Interp/Opcode/Core.antt =====
-- The entries of the table of opcodes with no prefix (src/opcode.def), by `PrefixCode`.
use wasm_sandboxing.Base.{ℕ, List, [], ◌∷◌}
use wasm_sandboxing.Interp.Control
use wasm_sandboxing.Interp.Calls
use wasm_sandboxing.Interp.Ops.Convert
use wasm_sandboxing.Interp.Ops.F32
use wasm_sandboxing.Interp.Ops.F64
use wasm_sandboxing.Interp.Ops.I32
use wasm_sandboxing.Interp.Ops.I64
use wasm_sandboxing.Interp.Ops.Loads
use wasm_sandboxing.Interp.Ops.Rmw
use wasm_sandboxing.Interp.Ops.Rotate
use wasm_sandboxing.Interp.Ops.Stores
use wasm_sandboxing.Interp.Opcode
use wasm_sandboxing.Interp.Opcode.{Opcode}

abbrev pub core_infos : List (ℕ × Opcode)
core_infos =
    (0x0, Opcode.flow Control.unreachable)
    ∷ (0x1, Opcode.stack Control.nop)
    ∷ (0x2, Opcode.never Opcode.block_)
    ∷ (0x3, Opcode.never Opcode.loop_)
    ∷ (0x4, Opcode.never Opcode.if_)
    ∷ (0x5, Opcode.never Opcode.else_)
    ∷ (0x6, Opcode.never Opcode.try_)
    ∷ (0x7, Opcode.never Opcode.catch_)
    ∷ (0x8, Opcode.never Opcode.throw_)
    ∷ (0x9, Opcode.never Opcode.rethrow_)
    ∷ (0xa, Opcode.never Opcode.if_except)
    ∷ (0xb, Opcode.never Opcode.end_)
    ∷ (0xc, Opcode.flow Control.br)
    ∷ (0xd, Opcode.flow Control.br_if)
    ∷ (0xe, Opcode.flow Control.br_table)
    ∷ (0xf, Opcode.flow Control.return)
    ∷ (0x10, Opcode.call Calls.call)
    ∷ (0x11, Opcode.call Calls.call_indirect)
    ∷ (0x1a, Opcode.stack Control.drop)
    ∷ (0x1b, Opcode.flow Control.select)
    ∷ (0x20, Opcode.var Control.get_local)
    ∷ (0x21, Opcode.var Control.set_local)
    ∷ (0x22, Opcode.var Control.tee_local)
    ∷ (0x23, Opcode.var Control.get_global)
    ∷ (0x24, Opcode.var Control.set_global)
    ∷ (0x28, Opcode.load Loads.i32_load)
    ∷ (0x29, Opcode.load Loads.i64_load)
    ∷ (0x2a, Opcode.load Loads.f32_load)
    ∷ (0x2b, Opcode.load Loads.f64_load)
    ∷ (0x2c, Opcode.load Loads.i32_load8_s)
    ∷ (0x2d, Opcode.load Loads.i32_load8_u)
    ∷ (0x2e, Opcode.load Loads.i32_load16_s)
    ∷ (0x2f, Opcode.load Loads.i32_load16_u)
    ∷ (0x30, Opcode.load Loads.i64_load8_s)
    ∷ (0x31, Opcode.load Loads.i64_load8_u)
    ∷ (0x32, Opcode.load Loads.i64_load16_s)
    ∷ (0x33, Opcode.load Loads.i64_load16_u)
    ∷ (0x34, Opcode.load Loads.i64_load32_s)
    ∷ (0x35, Opcode.load Loads.i64_load32_u)
    ∷ (0x36, Opcode.store Stores.i32_store)
    ∷ (0x37, Opcode.store Stores.i64_store)
    ∷ (0x38, Opcode.store Stores.f32_store)
    ∷ (0x39, Opcode.store Stores.f64_store)
    ∷ (0x3a, Opcode.store Stores.i32_store8)
    ∷ (0x3b, Opcode.store Stores.i32_store16)
    ∷ (0x3c, Opcode.store Stores.i64_store8)
    ∷ (0x3d, Opcode.store Stores.i64_store16)
    ∷ (0x3e, Opcode.store Stores.i64_store32)
    ∷ (0x3f, Opcode.memory Rmw.size)
    ∷ (0x40, Opcode.memory Rmw.grow)
    ∷ (0x41, Opcode.var Control.i32_const)
    ∷ (0x42, Opcode.var Control.i64_const)
    ∷ (0x43, Opcode.var Control.f32_const)
    ∷ (0x44, Opcode.var Control.f64_const)
    ∷ (0x45, Opcode.i32 I32.i32_eqz)
    ∷ (0x46, Opcode.i32 I32.i32_eq)
    ∷ (0x47, Opcode.i32 I32.i32_ne)
    ∷ (0x48, Opcode.i32 I32.i32_lt_s)
    ∷ (0x49, Opcode.i32 I32.i32_lt_u)
    ∷ (0x4a, Opcode.i32 I32.i32_gt_s)
    ∷ (0x4b, Opcode.i32 I32.i32_gt_u)
    ∷ (0x4c, Opcode.i32 I32.i32_le_s)
    ∷ (0x4d, Opcode.i32 I32.i32_le_u)
    ∷ (0x4e, Opcode.i32 I32.i32_ge_s)
    ∷ (0x4f, Opcode.i32 I32.i32_ge_u)
    ∷ (0x50, Opcode.rotate Rotate.i64_eqz)
    ∷ (0x51, Opcode.i64 I64.i64_eq)
    ∷ (0x52, Opcode.i64 I64.i64_ne)
    ∷ (0x53, Opcode.i64 I64.i64_lt_s)
    ∷ (0x54, Opcode.i64 I64.i64_lt_u)
    ∷ (0x55, Opcode.i64 I64.i64_gt_s)
    ∷ (0x56, Opcode.i64 I64.i64_gt_u)
    ∷ (0x57, Opcode.i64 I64.i64_le_s)
    ∷ (0x58, Opcode.i64 I64.i64_le_u)
    ∷ (0x59, Opcode.i64 I64.i64_ge_s)
    ∷ (0x5a, Opcode.i64 I64.i64_ge_u)
    ∷ (0x5b, Opcode.f32 F32.f32_eq)
    ∷ (0x5c, Opcode.f32 F32.f32_ne)
    ∷ (0x5d, Opcode.f32 F32.f32_lt)
    ∷ (0x5e, Opcode.f32 F32.f32_gt)
    ∷ (0x5f, Opcode.f32 F32.f32_le)
    ∷ (0x60, Opcode.f32 F32.f32_ge)
    ∷ (0x61, Opcode.f64 F64.f64_eq)
    ∷ (0x62, Opcode.f64 F64.f64_ne)
    ∷ (0x63, Opcode.f64 F64.f64_lt)
    ∷ (0x64, Opcode.f64 F64.f64_gt)
    ∷ (0x65, Opcode.f64 F64.f64_le)
    ∷ (0x66, Opcode.f64 F64.f64_ge)
    ∷ (0x67, Opcode.i32 I32.i32_clz)
    ∷ (0x68, Opcode.i32 I32.i32_ctz)
    ∷ (0x69, Opcode.i32 I32.i32_popcnt)
    ∷ (0x6a, Opcode.i32 I32.i32_add)
    ∷ (0x6b, Opcode.i32 I32.i32_sub)
    ∷ (0x6c, Opcode.i32 I32.i32_mul)
    ∷ (0x6d, Opcode.i32 I32.i32_div_s)
    ∷ (0x6e, Opcode.i32 I32.i32_div_u)
    ∷ (0x6f, Opcode.i32 I32.i32_rem_s)
    ∷ (0x70, Opcode.i32 I32.i32_rem_u)
    ∷ (0x71, Opcode.i32 I32.i32_and)
    ∷ (0x72, Opcode.i32 I32.i32_or)
    ∷ (0x73, Opcode.i32 I32.i32_xor)
    ∷ (0x74, Opcode.i32 I32.i32_shl)
    ∷ (0x75, Opcode.i32 I32.i32_shr_s)
    ∷ (0x76, Opcode.i32 I32.i32_shr_u)
    ∷ (0x77, Opcode.rotate Rotate.i32_rotl)
    ∷ (0x78, Opcode.rotate Rotate.i32_rotr)
    ∷ (0x79, Opcode.i64 I64.i64_clz)
    ∷ (0x7a, Opcode.i64 I64.i64_ctz)
    ∷ (0x7b, Opcode.i64 I64.i64_popcnt)
    ∷ (0x7c, Opcode.i64 I64.i64_add)
    ∷ (0x7d, Opcode.i64 I64.i64_sub)
    ∷ (0x7e, Opcode.i64 I64.i64_mul)
    ∷ (0x7f, Opcode.i64 I64.i64_div_s)
    ∷ (0x80, Opcode.i64 I64.i64_div_u)
    ∷ (0x81, Opcode.i64 I64.i64_rem_s)
    ∷ (0x82, Opcode.i64 I64.i64_rem_u)
    ∷ (0x83, Opcode.i64 I64.i64_and)
    ∷ (0x84, Opcode.i64 I64.i64_or)
    ∷ (0x85, Opcode.i64 I64.i64_xor)
    ∷ (0x86, Opcode.i64 I64.i64_shl)
    ∷ (0x87, Opcode.i64 I64.i64_shr_s)
    ∷ (0x88, Opcode.i64 I64.i64_shr_u)
    ∷ (0x89, Opcode.rotate Rotate.i64_rotl)
    ∷ (0x8a, Opcode.rotate Rotate.i64_rotr)
    ∷ (0x8b, Opcode.f32 F32.f32_abs)
    ∷ (0x8c, Opcode.f32 F32.f32_neg)
    ∷ (0x8d, Opcode.f32 F32.f32_ceil)
    ∷ (0x8e, Opcode.f32 F32.f32_floor)
    ∷ (0x8f, Opcode.f32 F32.f32_trunc)
    ∷ (0x90, Opcode.f32 F32.f32_nearest)
    ∷ (0x91, Opcode.f32 F32.f32_sqrt)
    ∷ (0x92, Opcode.f32 F32.f32_add)
    ∷ (0x93, Opcode.f32 F32.f32_sub)
    ∷ (0x94, Opcode.f32 F32.f32_mul)
    ∷ (0x95, Opcode.f32 F32.f32_div)
    ∷ (0x96, Opcode.f32 F32.f32_min)
    ∷ (0x97, Opcode.f32 F32.f32_max)
    ∷ (0x98, Opcode.f32 F32.f32_copysign)
    ∷ (0x99, Opcode.f64 F64.f64_abs)
    ∷ (0x9a, Opcode.f64 F64.f64_neg)
    ∷ (0x9b, Opcode.f64 F64.f64_ceil)
    ∷ (0x9c, Opcode.f64 F64.f64_floor)
    ∷ (0x9d, Opcode.f64 F64.f64_trunc)
    ∷ (0x9e, Opcode.f64 F64.f64_nearest)
    ∷ (0x9f, Opcode.f64 F64.f64_sqrt)
    ∷ (0xa0, Opcode.f64 F64.f64_add)
    ∷ (0xa1, Opcode.f64 F64.f64_sub)
    ∷ (0xa2, Opcode.f64 F64.f64_mul)
    ∷ (0xa3, Opcode.f64 F64.f64_div)
    ∷ (0xa4, Opcode.f64 F64.f64_min)
    ∷ (0xa5, Opcode.f64 F64.f64_max)
    ∷ (0xa6, Opcode.f64 F64.f64_copysign)
    ∷ (0xa7, Opcode.convert Convert.i32_wrap_i64)
    ∷ (0xa8, Opcode.convert Convert.i32_trunc_s_f32)
    ∷ (0xa9, Opcode.convert Convert.i32_trunc_u_f32)
    ∷ (0xaa, Opcode.convert Convert.i32_trunc_s_f64)
    ∷ (0xab, Opcode.convert Convert.i32_trunc_u_f64)
    ∷ (0xac, Opcode.convert Convert.i64_extend_s_i32)
    ∷ (0xad, Opcode.convert Convert.i64_extend_u_i32)
    ∷ (0xae, Opcode.convert Convert.i64_trunc_s_f32)
    ∷ (0xaf, Opcode.convert Convert.i64_trunc_u_f32)
    ∷ (0xb0, Opcode.convert Convert.i64_trunc_s_f64)
    ∷ (0xb1, Opcode.convert Convert.i64_trunc_u_f64)
    ∷ (0xb2, Opcode.convert Convert.f32_convert_s_i32)
    ∷ (0xb3, Opcode.convert Convert.f32_convert_u_i32)
    ∷ (0xb4, Opcode.convert Convert.f32_convert_s_i64)
    ∷ (0xb5, Opcode.convert Convert.f32_convert_u_i64)
    ∷ (0xb6, Opcode.convert Convert.f32_demote_f64)
    ∷ (0xb7, Opcode.convert Convert.f64_convert_s_i32)
    ∷ (0xb8, Opcode.convert Convert.f64_convert_u_i32)
    ∷ (0xb9, Opcode.convert Convert.f64_convert_s_i64)
    ∷ (0xba, Opcode.convert Convert.f64_convert_u_i64)
    ∷ (0xbb, Opcode.convert Convert.f64_promote_f32)
    ∷ (0xbc, Opcode.convert Convert.i32_reinterpret_f32)
    ∷ (0xbd, Opcode.convert Convert.i64_reinterpret_f64)
    ∷ (0xbe, Opcode.convert Convert.f32_reinterpret_i32)
    ∷ (0xbf, Opcode.convert Convert.f64_reinterpret_i64)
    ∷ (0xc0, Opcode.rotate Rotate.i32_extend8_s)
    ∷ (0xc1, Opcode.rotate Rotate.i32_extend16_s)
    ∷ (0xc2, Opcode.rotate Rotate.i64_extend8_s)
    ∷ (0xc3, Opcode.rotate Rotate.i64_extend16_s)
    ∷ (0xc4, Opcode.rotate Rotate.i64_extend32_s)
    ∷ (0xe0, Opcode.stack Control.interp_alloca)
    ∷ (0xe1, Opcode.stack Control.interp_br_unless)
    ∷ (0xe2, Opcode.call Calls.interp_call_host)
    ∷ (0xe3, Opcode.never Opcode.interp_data)
    ∷ (0xe4, Opcode.stack Control.interp_drop_keep)
    ∷ []

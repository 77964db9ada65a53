-- ===== src/Interp/Opcode/Math.antt =====
-- The entries of the table of opcodes with the prefix for conversions (src/opcode.def), by
-- `PrefixCode`.
use wasm_sandboxing.Base.{ℕ, List, [], ◌∷◌}
use wasm_sandboxing.Interp.Ops.Convert
use wasm_sandboxing.Interp.Opcode.{Opcode}

abbrev pub math_infos : List (ℕ × Opcode)
math_infos =
    (0xfc00, Opcode.convert Convert.i32_trunc_s_sat_f32)
    ∷ (0xfc01, Opcode.convert Convert.i32_trunc_u_sat_f32)
    ∷ (0xfc02, Opcode.convert Convert.i32_trunc_s_sat_f64)
    ∷ (0xfc03, Opcode.convert Convert.i32_trunc_u_sat_f64)
    ∷ (0xfc04, Opcode.convert Convert.i64_trunc_s_sat_f32)
    ∷ (0xfc05, Opcode.convert Convert.i64_trunc_u_sat_f32)
    ∷ (0xfc06, Opcode.convert Convert.i64_trunc_s_sat_f64)
    ∷ (0xfc07, Opcode.convert Convert.i64_trunc_u_sat_f64)
    ∷ []

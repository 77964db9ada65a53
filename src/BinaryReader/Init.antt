-- ===== src/BinaryReader/Init.antt =====
-- `ReadInitExpr` of `BinaryReader` (src/binary-reader.cc). An opcode that is not one comes as
-- `none`.
use wasm_sandboxing.Base.{ℕ, Bool, true, false, ◌||◌, Option, some, if◌then◌else◌}
use wasm_sandboxing.Interp.Control.{i32_const, i64_const, f32_const, f64_const, get_global}
use wasm_sandboxing.Interp.Ops.Vectors.{v128_const}
use wasm_sandboxing.Interp.Opcode.{Opcode, end_}
use wasm_sandboxing.BinaryReader.State.{
  ◌>>=◌, ◌>>◌, M, pure, fail, error_unless, callback, get_options, on_init_expr_i32_const,
  on_init_expr_i64_const, on_init_expr_f32_const, on_init_expr_f64_const, on_init_expr_v128_const,
  on_init_expr_get_global,
}
use wasm_sandboxing.BinaryReader.Read.{
  read_t, read_f32, read_f64, read_v128, read_u32_leb, read_s32_leb, read_s64_leb, read_opcode,
  read_index,
}
use wasm_sandboxing.BinaryReader.Kinds.{is_enabled}

-- `ERROR_UNLESS_OPCODE_ENABLED`
unfoldable pub error_unless_enabled : Opcode → M (Unit {0})
unfolding get_options error_unless is_enabled
error_unless_enabled opcode = do
  options ← get_options
  error_unless (is_enabled options.features opcode)

-- Whether the opcode gives an `i32` where one is required.
unfoldable pub init_expr : ℕ → Option Opcode → M Bool
unfolding read_t read_u32_leb read_s32_leb read_s64_leb callback fail error_unless_enabled
init_expr index (some (Opcode.var i32_const)) = do
  value ← read_s32_leb
  callback (on_init_expr_i32_const index value)
  pure true
init_expr index (some (Opcode.var i64_const)) = do
  value ← read_s64_leb
  callback (on_init_expr_i64_const index value)
  pure false
init_expr index (some (Opcode.var f32_const)) = do
  value_bits ← read_f32
  callback (on_init_expr_f32_const index value_bits)
  pure false
init_expr index (some (Opcode.var f64_const)) = do
  value_bits ← read_f64
  callback (on_init_expr_f64_const index value_bits)
  pure false
init_expr index (some (Opcode.vector v128_const)) = do
  error_unless_enabled (Opcode.vector v128_const)
  value_bits ← read_v128
  callback (on_init_expr_v128_const index value_bits)
  pure false
init_expr index (some (Opcode.var get_global)) = do
  global_index ← read_index
  callback (on_init_expr_get_global index global_index)
  pure true
init_expr index _ = fail

abbrev is_end : Option Opcode → Bool
is_end (some (Opcode.never end_)) = true
is_end _ = false

unfoldable pub read_init_expr : ℕ → Bool → M (Unit {0})
unfolding read_opcode init_expr error_unless
read_init_expr index require_i32 = do
  opcode ← read_opcode
  if is_end opcode then pure tt else (do
    is_i32 ← init_expr index opcode
    error_unless (is_i32 || (if require_i32 then false else true))
    last ← read_opcode
    error_unless (is_end last))

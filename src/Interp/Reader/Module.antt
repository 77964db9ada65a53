-- ===== src/Interp/Reader/Module.antt =====
-- The callbacks of `BinaryReaderInterp` for instructions that name a global, a function or the
-- table of the module (src/binary-reader-interp.cc). What the module's indices stand for in the
-- environment comes as an argument.
use wasm_sandboxing.Base.{ℕ, Bool, Option, List, ◌==◌, if◌then◌else◌, get_elem?}
use wasm_sandboxing.TypeChecker.State.{ValueType, TypeVector}
use wasm_sandboxing.TypeChecker.Ops.{on_call, on_call_indirect}
use wasm_sandboxing.TypeChecker.Simple.{on_get_global, on_set_global}
use wasm_sandboxing.Interp.Opcode.{Opcode}
use wasm_sandboxing.Interp.Control
use wasm_sandboxing.Interp.Calls
use wasm_sandboxing.Interp.Emit.{emit_opcode, emit_i32}
use wasm_sandboxing.Interp.Reader.{
  M, ◌>>=◌, ◌>>◌, pure, fail, check, emit, invalid_istream_offset, append_fixup,
}
use wasm_sandboxing.Interp.Reader.Simple.{check_and_emit}

-- A global of the module, with its index in the environment.
pub record GlobalEntry : Type 0 where
  pub value_type : ValueType
  pub is_mutable : Bool
  pub env_index : ℕ

-- `CheckGlobal` with what is found.
unfoldable pub check_global : List GlobalEntry → ℕ → M GlobalEntry
check_global globals global_index r = (get_elem? globals global_index, r)

unfoldable pub on_get_global_expr : List GlobalEntry → ℕ → M (Unit {0})
unfolding check_global on_get_global check_and_emit emit emit_i32
on_get_global_expr globals global_index = do
  global ← check_global globals global_index
  check_and_emit (on_get_global global.value_type) (0x23, Opcode.var Control.get_global)
  emit (emit_i32 global.env_index)

unfoldable pub on_set_global_expr : List GlobalEntry → ℕ → M (Unit {0})
unfolding check_global on_set_global check_and_emit emit emit_i32
on_set_global_expr globals global_index = do
  global ← check_global globals global_index
  (if global.is_mutable then pure tt else fail)
  check_and_emit (on_set_global global.value_type) (0x24, Opcode.var Control.set_global)
  emit (emit_i32 global.env_index)

-- A function of the module: its index in the environment where the host defines it, and otherwise
-- the offset of its body, which is invalid until the body is read, with its index among the defined
-- ones.
pub data Callee : Type 0 where
  host : ℕ → Callee
  defined : ℕ → ℕ → Callee

abbrev append_func_fixup : ℕ → M (Unit {0})
append_func_fixup index r = (
  Option.some tt,
  record r { func_fixups = append_fixup r.func_fixups index r.emitter.istream_offset },
)

unfoldable pub emit_func_offset : ℕ → ℕ → M (Unit {0})
unfolding append_fixup emit emit_i32
emit_func_offset offset defined_index = do
  (if offset == invalid_istream_offset then append_func_fixup defined_index else pure tt)
  emit (emit_i32 offset)

abbrev emit_call : Callee → M (Unit {0})
emit_call (host env_index) = do
  emit (emit_opcode (0xe2, Opcode.call Calls.interp_call_host))
  emit (emit_i32 env_index)
emit_call (defined offset defined_index) = do
  emit (emit_opcode (0x10, Opcode.call Calls.call))
  emit_func_offset offset defined_index

unfoldable pub on_call_expr : TypeVector → TypeVector → Callee → M (Unit {0})
unfolding check on_call emit emit_opcode emit_i32 emit_func_offset
on_call_expr params results callee = do check (on_call params results); emit_call callee

-- `table_index` is `none` where the module has no table, and `sig_index` is the index of the
-- signature in the environment.
unfoldable pub on_call_indirect_expr : Option ℕ → TypeVector → TypeVector → ℕ → M (Unit {0})
unfolding on_call_indirect check_and_emit emit emit_i32
on_call_indirect_expr table_index params results sig_index = do
  index ← λ r. (table_index, r)
  check_and_emit (on_call_indirect params results) (0x11, Opcode.call Calls.call_indirect)
  emit (emit_i32 index)
  emit (emit_i32 sig_index)

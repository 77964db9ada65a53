-- ===== src/Interp/Emit.antt =====
-- What `BinaryReaderInterp` writes to the instruction stream (src/binary-reader-interp.cc): numbers
-- with their lowest byte first, and the codes of opcodes.
pub mod RoundTrip
pub mod Executes
use wasm_sandboxing.Base.{ℕ, ◌+◌, ◌*◌, ◌/◌, ◌%◌, ◌^◌, Bool, ◌&&◌, ltb, ◌==◌, if◌then◌else◌}
use wasm_sandboxing.Interp.Memory.{write_bytes}
use wasm_sandboxing.Interp.Control
use wasm_sandboxing.Interp.Opcode.{Opcode}

pub record Emitter : Type 0 where
  pub istream : ℕ → ℕ
  pub istream_offset : ℕ

-- `size` bytes of `number`.
unfoldable pub emit_data_at : ℕ → ℕ → ℕ → Emitter → Emitter
emit_data_at offset number size e = record e { istream = write_bytes e.istream offset size number }

unfoldable pub emit_data : ℕ → ℕ → Emitter → Emitter
unfolding emit_data_at
emit_data number size e =
    let e₁ = emit_data_at e.istream_offset number size e in
    record e₁ { istream_offset = (e₁.istream_offset + size) % 2 ^ 32 }

unfoldable pub emit_i8 : ℕ → Emitter → Emitter
unfolding emit_data
emit_i8 value = emit_data value 1

unfoldable pub emit_i32 : ℕ → Emitter → Emitter
unfolding emit_data
emit_i32 value = emit_data value 4

unfoldable pub emit_i64 : ℕ → Emitter → Emitter
unfolding emit_data
emit_i64 value = emit_data value 8

unfoldable pub emit_v128 : ℕ → Emitter → Emitter
unfolding emit_data
emit_v128 value = emit_data value 16

unfoldable pub emit_i32_at : ℕ → ℕ → Emitter → Emitter
unfolding emit_data_at
emit_i32_at offset value = emit_data_at offset value 4

-- The opcode with its entry in the table of opcodes.
unfoldable pub emit_opcode : ℕ × Opcode → Emitter → Emitter
unfolding emit_i8
emit_opcode (code, opcode) e =
    if ltb 0 (code / 0x100)
    then emit_i8 (code % 0x100) (emit_i8 (code / 0x100) e)
    else emit_i8 (code % 0x100) e

abbrev pub drop_info : ℕ × Opcode
drop_info = (0x1a, Opcode.stack Control.drop)

abbrev pub drop_keep_info : ℕ × Opcode
drop_keep_info = (0xe4, Opcode.stack Control.interp_drop_keep)

unfoldable pub emit_drop_keep : ℕ → ℕ → Emitter → Emitter
unfolding emit_i32 emit_opcode
emit_drop_keep drop keep e =
    if ltb 0 drop
    then (if drop == 1 && keep == 0
        then emit_opcode drop_info e
        else emit_i32 keep (emit_i32 drop (emit_opcode drop_keep_info e)))
    else e

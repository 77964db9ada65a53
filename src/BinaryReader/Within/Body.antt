-- ===== src/BinaryReader/Within/Body.antt =====
-- The instructions of a body stay within the section, and the loop over them ends
-- (src/binary-reader.cc).
use wasm_sandboxing.Base.{
  ℕ, zero, suc, ◌+◌, ◌≤◌, ◌<◌, inl, inr, refl, Bool, false, Bool-cases, ◌||◌, Option, none, some,
  length, ltb, arith,
}
use wasm_sandboxing.Interp.Control
use wasm_sandboxing.Interp.Calls
use wasm_sandboxing.Interp.Ops.Rmw
use wasm_sandboxing.Interp.Ops.Vectors
use wasm_sandboxing.Interp.Ops.Lanes
use wasm_sandboxing.Interp.Ops.Lanes.{LaneOp}
use wasm_sandboxing.Interp.Opcode
use wasm_sandboxing.Interp.Opcode.{Opcode, NeverOp}
use wasm_sandboxing.BinaryReader.State.{Reader, M, InstrEvent, on_opcode, instr, callback}
use wasm_sandboxing.BinaryReader.Read.{read_opcode}
use wasm_sandboxing.BinaryReader.Body.{
  read_sig_type, with_sig, with_index, with_access, with_value, read_br_table, read_call,
  read_call_indirect, with_reserved, arithmetic, read_never, read_lane, read_instr, read_end_instr,
  read_one, body_round, body_loop, read_function_body,
}
use wasm_sandboxing.BinaryReader.Init.{error_unless_enabled, init_expr, read_init_expr}
use wasm_sandboxing.BinaryReader.Within.{
  IsWithin, Keeps-self, Good, Told, continue-Told, Safe, Safe-bind, round-Good, Safe-then,
}
use wasm_sandboxing.BinaryReader.Within.Primitives.{steps, callback-Safe, fail-Safe}
use wasm_sandboxing.BinaryReader.Within.Reads.{reads, read_opcode-moves}

module _ (n : ℕ) where
  error_unless_enabled-Safe : (o : Opcode) → Safe n 0 (error_unless_enabled o)
  unfolding error_unless_enabled
  error_unless_enabled-Safe o = search steps

  init_expr-Safe : (index : ℕ) (o : Option Opcode) → Safe n 0 (init_expr index o)
  unfolding init_expr
  init_expr-Safe index (some (Opcode.var Control.i32_const)) = search steps
  init_expr-Safe index (some (Opcode.vector Vectors.v128_const)) =
      search (steps, error_unless_enabled-Safe)
  init_expr-Safe index _ = search steps

  pub read_init_expr-Safe : (index : ℕ) (b : Bool) → Safe n 0 (read_init_expr index b)
  unfolding read_init_expr
  read_init_expr-Safe index b = search (reads, init_expr-Safe) depth 16

  read_sig_type-Safe : Safe n 0 read_sig_type
  unfolding read_sig_type
  read_sig_type-Safe = search reads

  with_sig-Safe : (e : ℕ → InstrEvent) → Safe n 0 (with_sig e)
  unfolding with_sig
  with_sig-Safe e = search (steps, read_sig_type-Safe)

  with_index-Safe : (e : ℕ → InstrEvent) → Safe n 0 (with_index e)
  unfolding with_index
  with_index-Safe e = search steps

  with_access-Safe : (e : ℕ → ℕ → InstrEvent) → Safe n 0 (with_access e)
  unfolding with_access
  with_access-Safe e = search steps

  with_value-Safe : (m : M ℕ) (e f : ℕ → InstrEvent) → Safe n 0 m → Safe n 0 (with_value m e f)
  unfolding with_value
  with_value-Safe m e f s = search steps

  read_br_table-Safe : Safe n 0 read_br_table
  unfolding read_br_table
  read_br_table-Safe = search steps

  read_call-Safe : Safe n 0 read_call
  unfolding read_call
  read_call-Safe = search steps depth 16

  read_call_indirect-Safe : Safe n 0 read_call_indirect
  unfolding read_call_indirect
  read_call_indirect-Safe = search steps depth 16

  with_reserved-Safe : (e : InstrEvent) → Safe n 0 (with_reserved e)
  unfolding with_reserved
  with_reserved-Safe e = search steps

  arithmetic-Safe : (e : InstrEvent) (o : Opcode) → Safe n 0 (arithmetic e o)
  unfolding arithmetic
  arithmetic-Safe e o = search (steps, error_unless_enabled-Safe)

  read_never-Safe : (o : NeverOp) → Safe n 0 (read_never o)
  unfolding read_never
  read_never-Safe Opcode.block_ = search (with_sig-Safe)
  read_never-Safe _ =
      search (steps, with_sig-Safe, with_index-Safe, read_sig_type-Safe, error_unless_enabled-Safe)

  read_lane-Safe : (o : LaneOp) → Safe n 0 (read_lane o)
  unfolding read_lane
  read_lane-Safe Lanes.i8x16_splat = search (arithmetic-Safe)
  read_lane-Safe _ = search (steps, arithmetic-Safe, with_value-Safe, error_unless_enabled-Safe)

ruleset instrs = (
  steps, with_index-Safe, with_access-Safe, with_value-Safe, with_reserved-Safe, read_br_table-Safe,
  read_call-Safe, read_call_indirect-Safe, arithmetic-Safe, error_unless_enabled-Safe,
  read_never-Safe, read_lane-Safe,
)

module _ (n : ℕ) where
  read_instr-Safe : (o : Opcode) → Safe n 0 (read_instr o)
  unfolding read_instr
  read_instr-Safe (Opcode.flow Control.br) = search instrs
  read_instr-Safe (Opcode.stack Control.nop) = search instrs
  read_instr-Safe (Opcode.var Control.i32_const) = search instrs
  read_instr-Safe (Opcode.call Calls.call) = search instrs
  read_instr-Safe (Opcode.memory Rmw.size) = search instrs
  read_instr-Safe (Opcode.vector Vectors.v128_const) = search instrs
  read_instr-Safe _ = search instrs

  read_end_instr-Safe : (end_offset : ℕ) → Safe n 0 (read_end_instr end_offset)
  unfolding read_end_instr
  read_end_instr-Safe end_offset = search steps

  read_one-Safe : (end_offset : ℕ) (o : Option Opcode) → Safe n 0 (read_one end_offset o)
  unfolding read_one
  read_one-Safe end_offset none = fail-Safe n 0
  read_one-Safe end_offset (some (Opcode.never Opcode.end_)) = read_end_instr-Safe end_offset
  read_one-Safe end_offset (some _) = search (steps, read_instr-Safe)

  body_round-moves : (end_offset : ℕ) → Safe n 1 (body_round end_offset)
  unfolding body_round
  body_round-moves end_offset = Safe-bind n 1 read_opcode _ (read_opcode-moves n) λ opcode.
      Safe-then n 0 (callback (instr (on_opcode opcode))) _ (callback-Safe n _)
        (read_one-Safe end_offset opcode)

  -- The fuel left is above the bytes left.
  body_loop-run :
      (fuel end_offset : ℕ) (seen : Bool) (r : Reader)
      → length r.bytes ≤ n
      → IsWithin r
      → r.read_end < r.offset + fuel
      → Good 0 r (body_loop fuel end_offset seen r)
  unfolding body_loop
  body_loop-run zero end_offset seen r h w f = absurd (omega (arith, f, w.offset-le))
  body_loop-run (suc fuel) end_offset seen r h w f = elim (Bool-cases (ltb r.offset end_offset)) [
    | inl more ↦ rw more (
        round-Good n (λ at_end. body_loop fuel end_offset (seen || at_end)) r
          (body_round end_offset r) h w
          (λ at_end s hs ws e p.
            body_loop-run fuel end_offset (seen || at_end) s hs ws (omega (arith, f, p, e)))
          ((body_round-moves end_offset).run r h w))
    | inr done ↦ rw done (tt, Keeps-self r w, omega arith)
  ]

  body_loop-Told :
      (fuel end_offset : ℕ) (seen : Bool) (r : Reader) → Told r (body_loop fuel end_offset seen r)
  unfolding body_loop
  body_loop-Told zero end_offset seen r = (refl, omega arith)
  body_loop-Told (suc fuel) end_offset seen r = elim (Bool-cases (ltb r.offset end_offset)) [
    | inl more ↦ rw more (
        continue-Told (λ at_end. body_loop fuel end_offset (seen || at_end)) r
          (body_round end_offset r) (λ at_end. body_loop-Told fuel end_offset (seen || at_end))
          ((body_round-moves end_offset).told r))
    | inr done ↦ rw done (refl, omega arith)
  ]

pub read_function_body-Safe : (n end_offset : ℕ) → Safe n 0 (read_function_body (suc n) end_offset)
unfolding read_function_body
read_function_body-Safe n end_offset =
    Safe-bind n 0 (body_loop (suc n) end_offset false) _
      (record {
        run = λ r h w. body_loop-run n (suc n) end_offset false r h w (omega (arith, h, w.end-le));
        told = body_loop-Told n (suc n) end_offset false;
      })
      (λ seen. search steps)

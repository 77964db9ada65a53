-- ===== src/Interp/Emit/RoundTrip.antt =====
-- What is emitted is what is read: `EmitOpcode` (src/binary-reader-interp.cc) and `ReadOpcode`
-- (src/interp.cc).
use native.Mathlib.Nat.{mod-eq_of_lt}
use wasm_sandboxing.Base.{
  ℕ, ◌+◌, ◌/◌, ◌%◌, ◌^◌, ◌<◌, ◌≡◌, ◌∙◌, ◌⊎◌, inl, inr, refl, sym, ap, true, false, Bool-cases,
  Option, some, get_elem?, ltb, if◌then◌else◌, arith,
}
use wasm_sandboxing.Interp.State.{
  Thread, next, M, ◌>>=◌, continue, pure, read_u8, read_ux, read_bytes,
}
use wasm_sandboxing.Interp.Memory.Bytes.{write_bytes-byte, write_bytes-outside}
use wasm_sandboxing.Interp.Opcode.{Opcode}
use wasm_sandboxing.Interp.Decode.{infos, is_prefix_byte, from_code, read_opcode}
use wasm_sandboxing.Interp.Decode.Table.{
  fits, from_code-infos, fits-unprefixed, fits-prefixed, fits_lt,
}
use wasm_sandboxing.Interp.Emit.{Emitter, emit_data_at, emit_data, emit_i8, emit_opcode}

read_u8_lem : (t : Thread) → read_u8 t ≡ (next (t.env.istream t.pc), record t { pc = t.pc + 1 })
unfolding read_u8 read_ux
read_u8_lem t =
    let e : read_bytes t.env.istream t.pc 1 ≡ t.env.istream t.pc = omega arith in
    ap (λ b. (next b, record t { pc = t.pc + 1 })) e

abbrev decoded : ℕ → M (Option Opcode)
decoded value =
    if is_prefix_byte value
    then (read_u8 >>= λ code. pure (from_code value code))
    else pure (from_code 0 value)

pub read_opcode-plain :
    (t : Thread) (value : ℕ) (opcode : Opcode)
    → t.env.istream t.pc ≡ value
    → is_prefix_byte value ≡ false
    → from_code 0 value ≡ some opcode
    → read_opcode t ≡ (next (some opcode), record t { pc = t.pc + 1 })
unfolding read_opcode
read_opcode-plain t value opcode e p f = ap (continue decoded) (read_u8_lem t) ∙ rw (e, p, f) refl

read_opcode-prefixed :
    (t : Thread) (value code : ℕ) (opcode : Opcode)
    → t.env.istream t.pc ≡ value
    → t.env.istream (t.pc + 1) ≡ code
    → is_prefix_byte value ≡ true
    → from_code value code ≡ some opcode
    → read_opcode t ≡ (next (some opcode), record t { pc = t.pc + 1 + 1 })
unfolding read_opcode
read_opcode-prefixed t value code opcode e ec p f =
    ap (continue decoded) (read_u8_lem t)
    ∙ rw (e, p)
        (ap (continue λ c. pure (from_code value c)) (read_u8_lem (record t { pc = t.pc + 1 }))
          ∙ rw (ec, f) refl)

module _ (v : ℕ) (e : Emitter) where
  pub emit_i8-offset :
      e.istream_offset + 1 < 2 ^ 32 → (emit_i8 v e).istream_offset ≡ e.istream_offset + 1
  unfolding emit_i8 emit_data emit_data_at
  emit_i8-offset h = mod-eq_of_lt h

  pub emit_i8-byte : v < 0x100 → (emit_i8 v e).istream e.istream_offset ≡ v
  unfolding emit_i8 emit_data emit_data_at
  emit_i8-byte h = write_bytes-byte e.istream e.istream_offset v ∙ mod-eq_of_lt h

  emit_i8-before : (x : ℕ) → x < e.istream_offset → (emit_i8 v e).istream x ≡ e.istream x
  unfolding emit_i8 emit_data emit_data_at
  emit_i8-before x h = write_bytes-outside e.istream e.istream_offset 1 v x (inl h)

-- `e₁` is what was emitted for the code, one byte or two.
Emitted : ℕ → Emitter → Emitter → Type 0
Emitted code e e₁ =
    ((code / 0x100 ≡ 0)
      × (e₁.istream e.istream_offset ≡ code % 0x100)
      × (e₁.istream_offset ≡ e.istream_offset + 1))
    ⊎ ((0 < code / 0x100)
        × (e₁.istream e.istream_offset ≡ code / 0x100)
        × (e₁.istream (e.istream_offset + 1) ≡ code % 0x100)
        × (e₁.istream_offset ≡ e.istream_offset + 1 + 1))

emit_opcode-Emitted :
    (code : ℕ) (opcode : Opcode) (e : Emitter)
    → code < 0x10000
    → e.istream_offset + 2 < 2 ^ 32
    → Emitted code e (emit_opcode (code, opcode) e)
unfolding emit_opcode Emitted
emit_opcode-Emitted code opcode e h b = elim (Bool-cases (ltb 0 (code / 0x100))) [
  | inl two ↦
      let e₁ = emit_i8 (code / 0x100) e in
      let o₁ : e₁.istream_offset ≡ e.istream_offset + 1 =
        emit_i8-offset (code / 0x100) e (omega (arith, b)) in
      let lt : e₁.istream_offset + 1 < 2 ^ 32 = omega (arith, b, o₁) in
      inr (
        ground arith,
        rw two (
            emit_i8-before (code % 0x100) e₁ e.istream_offset (omega (arith, o₁))
            ∙ emit_i8-byte (code / 0x100) e (omega (arith, h))),
        rw two (
            ap (emit_i8 (code % 0x100) e₁).istream (sym o₁)
            ∙ emit_i8-byte (code % 0x100) e₁ (omega arith)),
        rw two (emit_i8-offset (code % 0x100) e₁ lt ∙ ap (λ x. x + 1) o₁),
      )
  | inr one ↦ inl (
    ground arith,
    rw one (emit_i8-byte (code % 0x100) e (omega arith)),
    rw one (emit_i8-offset (code % 0x100) e (omega (arith, b))),
  )
]

read-Emitted :
    (code : ℕ) (opcode : Opcode) (e e₁ : Emitter) (t : Thread)
    → fits code ≡ true
    → from_code (code / 0x100) (code % 0x100) ≡ some opcode
    → t.pc ≡ e.istream_offset
    → t.env.istream ≡ e₁.istream
    → Emitted code e e₁
    → read_opcode t ≡ (next (some opcode), record t { pc = e₁.istream_offset })
unfolding Emitted
read-Emitted code opcode e e₁ t f c hp hs (inl (z, byte, offset)) =
    let at_pc : t.env.istream t.pc ≡ code % 0x100 = rw (hs, hp) byte in
    read_opcode-plain t (code % 0x100) opcode at_pc (fits-unprefixed code f z) (rw z at c)
    ∙ ap (λ k. (next (some opcode), record t { pc = k })) (omega (arith, hp, offset))
read-Emitted code opcode e e₁ t f c hp hs (inr (pos, high, low, offset)) =
    let at_pc : t.env.istream t.pc ≡ code / 0x100 = rw (hs, hp) high in
    let after_pc : t.env.istream (t.pc + 1) ≡ code % 0x100 = rw (hs, hp) low in
    let p = fits-prefixed code f pos in
    read_opcode-prefixed t (code / 0x100) (code % 0x100) opcode at_pc after_pc p c
    ∙ ap (λ k. (next (some opcode), record t { pc = k })) (omega (arith, hp, offset))

-- `ReadOpcode` reads each opcode of the table back from what `EmitOpcode` wrote for it, and leaves
-- `pc` at the offset after it, where that is below 2³².
pub read_opcode-emit_opcode :
    (i code : ℕ) (opcode : Opcode) (e : Emitter) (t : Thread)
    → e.istream_offset + 2 < 2 ^ 32
    → get_elem? infos i ≡ some (code, opcode)
    → t.pc ≡ e.istream_offset
    → t.env.istream ≡ (emit_opcode (code, opcode) e).istream
    → read_opcode t
      ≡ (next (some opcode), record t { pc = (emit_opcode (code, opcode) e).istream_offset })
read_opcode-emit_opcode i code opcode e t b h hp hs =
    let (f, c) = from_code-infos i code opcode h in
    read-Emitted code opcode e (emit_opcode (code, opcode) e) t f c hp hs
      (emit_opcode-Emitted code opcode e (fits_lt code f) b)

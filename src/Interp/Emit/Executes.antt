-- ===== src/Interp/Emit/Executes.antt =====
-- The code for `DropKeep` between its emission by `EmitDropKeep` (src/binary-reader-interp.cc) and
-- its execution by `Thread::Run` (src/interp.cc).
use native.Mathlib.Nat.{mod-eq_of_lt}
use wasm_sandboxing.Base.{
  ℕ, zero, suc, ◌+◌, ◌^◌, ◌<◌, ◌≡◌, ◌∙◌, inl, inr, refl, sym, ap, true, false, Bool-cases, ◌&&◌,
  ltb, ◌==◌, some, arith,
}
use wasm_sandboxing.Interp.State.{
  Thread, next, continue, ◌>>=◌, read_bytes, read_ux, read_u32, pop, keep_loop, drop_values,
  drop_keep,
}
use wasm_sandboxing.Interp.Memory.Bytes.{read_bytes-write_bytes, write_bytes-outside}
use wasm_sandboxing.Interp.Host.{Host}
use wasm_sandboxing.Interp.Control
use wasm_sandboxing.Interp.Control.{run_stack}
use wasm_sandboxing.Interp.Opcode.{Opcode}
use wasm_sandboxing.Interp.Decode.{infos, is_prefix_byte, find_code, from_code}
use wasm_sandboxing.Interp.Run.{run_opcode, run_valid, instruction}
use wasm_sandboxing.Interp.Emit.{
  Emitter, emit_data_at, emit_data, emit_i8, emit_i32, emit_opcode, emit_drop_keep,
}
use wasm_sandboxing.Interp.Emit.RoundTrip.{read_opcode-plain, emit_i8-offset, emit_i8-byte}

read_bytes-agree :
    (f g : ℕ → ℕ) (a n : ℕ)
    → ((x : ℕ) → x < a + n → f x ≡ g x)
    → read_bytes f a n ≡ read_bytes g a n
read_bytes-agree f g a zero h = refl
read_bytes-agree f g a (suc n) h =
    omega (arith, h a (omega arith), read_bytes-agree f g (a + 1) n (λ x b. h x (omega (arith, b))))

module _ (v : ℕ) (e : Emitter) where
  emit_i32-offset :
      e.istream_offset + 4 < 2 ^ 32 → (emit_i32 v e).istream_offset ≡ e.istream_offset + 4
  unfolding emit_i32 emit_data emit_data_at
  emit_i32-offset h = mod-eq_of_lt h

  emit_i32-before : (x : ℕ) → x < e.istream_offset → (emit_i32 v e).istream x ≡ e.istream x
  unfolding emit_i32 emit_data emit_data_at
  emit_i32-before x h = write_bytes-outside e.istream e.istream_offset 4 v x (inl h)

  emit_i32-bytes : v < 2 ^ 32 → read_bytes (emit_i32 v e).istream e.istream_offset 4 ≡ v
  unfolding emit_i32 emit_data emit_data_at
  emit_i32-bytes h = read_bytes-write_bytes e.istream e.istream_offset 4 v ∙ mod-eq_of_lt h

read_u32_lem :
    (t : Thread) (v : ℕ)
    → read_bytes t.env.istream t.pc 4 ≡ v
    → read_u32 t ≡ (next v, record t { pc = t.pc + 4 })
unfolding read_u32 read_ux
read_u32_lem t v h = ap (λ x. (next x, record t { pc = t.pc + 4 })) h

drop_keep-code : from_code 0 0xe4 ≡ some (Opcode.stack Control.interp_drop_keep)
unfolding from_code find_code infos
drop_keep-code = refl

drop-code : from_code 0 0x1a ≡ some (Opcode.stack Control.drop)
unfolding from_code find_code infos
drop-code = refl

e4-plain : is_prefix_byte 0xe4 ≡ false
unfolding is_prefix_byte
e4-plain = refl

one_a-plain : is_prefix_byte 0x1a ≡ false
unfolding is_prefix_byte
one_a-plain = refl

-- The code, the two counts, and what the instruction does with them.
drop_keep-executes :
    (host : Host) (d k : ℕ) (t : Thread)
    → t.env.istream t.pc ≡ 0xe4
    → read_bytes t.env.istream (t.pc + 1) 4 ≡ d
    → read_bytes t.env.istream (t.pc + 1 + 4) 4 ≡ k
    → instruction host t ≡ drop_keep d k (record t { pc = t.pc + 1 + 4 + 4 })
unfolding instruction run_opcode run_stack
drop_keep-executes host d k t hc hd hk =
    ap (continue (run_valid host))
      (read_opcode-plain t 0xe4 (Opcode.stack Control.interp_drop_keep) hc e4-plain drop_keep-code)
    ∙ ap (continue λ x. read_u32 >>= λ y. drop_keep x y)
        (read_u32_lem (record t { pc = t.pc + 1 }) d hd)
    ∙ ap (continue (drop_keep d)) (read_u32_lem (record t { pc = t.pc + 1 + 4 }) k hk)

drop-executes :
    (host : Host) (t : Thread)
    → t.env.istream t.pc ≡ 0x1a
    → instruction host t ≡ drop_keep 1 0 (record t { pc = t.pc + 1 })
unfolding instruction run_opcode run_stack pop drop_keep keep_loop drop_values
drop-executes host t hc =
    ap (continue (run_valid host))
      (read_opcode-plain t 0x1a (Opcode.stack Control.drop) hc one_a-plain drop-code)

module _ (d k : ℕ) (e : Emitter) where
  abbrev coded : Emitter
  coded = emit_i8 0xe4 e

  abbrev counted : Emitter
  counted = emit_i32 d coded

  module _ (room : e.istream_offset + 9 < 2 ^ 32) where
    coded-offset : coded.istream_offset ≡ e.istream_offset + 1
    coded-offset = emit_i8-offset 0xe4 e (omega (arith, room))

    counted-offset : counted.istream_offset ≡ e.istream_offset + 1 + 4
    counted-offset =
        emit_i32-offset d coded (omega (arith, room, coded-offset)) ∙ ap (λ x. x + 4) coded-offset

    end-offset : (emit_i32 k counted).istream_offset ≡ e.istream_offset + 1 + 4 + 4
    end-offset =
        emit_i32-offset k counted (omega (arith, room, counted-offset))
        ∙ ap (λ x. x + 4) counted-offset

    code-emitted : (emit_i32 k counted).istream e.istream_offset ≡ 0xe4
    code-emitted =
        emit_i32-before k counted e.istream_offset (omega (arith, counted-offset))
        ∙ emit_i32-before d coded e.istream_offset (omega (arith, coded-offset))
        ∙ emit_i8-byte 0xe4 e (omega arith)

    drop-emitted : d < 2 ^ 32 → read_bytes (emit_i32 k counted).istream (e.istream_offset + 1) 4 ≡ d
    drop-emitted h =
        read_bytes-agree _ counted.istream (e.istream_offset + 1) 4
          (λ x b. emit_i32-before k counted x (omega (arith, b, counted-offset)))
        ∙ ap (λ x. read_bytes counted.istream x 4) (sym coded-offset)
        ∙ emit_i32-bytes d coded h

    keep-emitted :
        k < 2 ^ 32 → read_bytes (emit_i32 k counted).istream (e.istream_offset + 1 + 4) 4 ≡ k
    keep-emitted h =
        ap (λ x. read_bytes (emit_i32 k counted).istream x 4) (sym counted-offset)
        ∙ emit_i32-bytes k counted h

    executes-counts :
        (host : Host) (t : Thread)
        → d < 2 ^ 32
        → k < 2 ^ 32
        → t.pc ≡ e.istream_offset
        → t.env.istream ≡ (emit_i32 k counted).istream
        → instruction host t ≡ drop_keep d k (record t { pc = (emit_i32 k counted).istream_offset })
    executes-counts host t hd hk hp hs =
        drop_keep-executes host d k t (rw (hs, hp) code-emitted) (rw (hs, hp) (drop-emitted hd))
          (rw (hs, hp) (keep-emitted hk))
        ∙ ap (λ x. drop_keep d k (record t { pc = x })) (omega (arith, hp, end-offset))

module _ (d k : ℕ) (e : Emitter) (h : 0 < d) where
  emit_drop_keep-counts :
      (d == 1 && k == 0) ≡ false → emit_drop_keep d k e ≡ emit_i32 k (counted d k e)
  unfolding emit_drop_keep emit_opcode
  emit_drop_keep-counts b = let pos : ltb 0 d ≡ true = ground arith in rw (pos, b) refl

  emit_drop_keep-one : (d == 1 && k == 0) ≡ true → emit_drop_keep d k e ≡ emit_i8 0x1a e
  unfolding emit_drop_keep emit_opcode
  emit_drop_keep-one b = let pos : ltb 0 d ≡ true = ground arith in rw (pos, b) refl

only_one : (d k : ℕ) → (d == 1 && k == 0) ≡ true → (1 ≡ d) × (0 ≡ k)
only_one d k b = (ground arith, ground arith)

-- The instruction that `EmitDropKeep` writes for a drop count above 0 is executed as the call of
-- `DropKeep` with the two counts, with `pc` at the offset after it, where that is below 2³² and the
-- counts are.
pub instruction-emit_drop_keep :
    (host : Host) (d k : ℕ) (e : Emitter) (t : Thread)
    → 0 < d
    → d < 2 ^ 32
    → k < 2 ^ 32
    → e.istream_offset + 9 < 2 ^ 32
    → t.pc ≡ e.istream_offset
    → t.env.istream ≡ (emit_drop_keep d k e).istream
    → instruction host t ≡ drop_keep d k (record t { pc = (emit_drop_keep d k e).istream_offset })
instruction-emit_drop_keep host d k e t h hd hk room hp hs = elim (Bool-cases (d == 1 && k == 0)) [
  | inl one ↦
      let emitted = emit_drop_keep-one d k e h one in
      let (d_one, k_zero) = only_one d k one in
      let at_pc : t.env.istream t.pc ≡ 0x1a =
        rw (hs, hp, emitted) (emit_i8-byte 0x1a e (omega arith)) in
      let offset : t.pc + 1 ≡ (emit_drop_keep d k e).istream_offset =
        rw (hp, emitted) (sym (emit_i8-offset 0x1a e (omega (arith, room)))) in
      drop-executes host t at_pc
      ∙ ap (λ x. drop_keep x 0 (record t { pc = t.pc + 1 })) d_one
      ∙ ap (λ x. drop_keep d x (record t { pc = t.pc + 1 })) k_zero
      ∙ ap (λ x. drop_keep d k (record t { pc = x })) offset
  | inr counts ↦
      let emitted = emit_drop_keep-counts d k e h counts in
      executes-counts d k e room host t hd hk hp (hs ∙ ap (λ x. x.istream) emitted)
      ∙ ap (λ x. drop_keep d k (record t { pc = x.istream_offset })) (sym emitted)
]

-- ===== src/Interp/Opcode/Threads.antt =====
-- The entries of the table of opcodes with the prefix for atomics (src/opcode.def), by
-- `PrefixCode`.
use wasm_sandboxing.Base.{ℕ, List, [], ◌∷◌}
use wasm_sandboxing.Interp.Control
use wasm_sandboxing.Interp.Ops.Atomics
use wasm_sandboxing.Interp.Ops.Cmpxchg
use wasm_sandboxing.Interp.Ops.Rmw
use wasm_sandboxing.Interp.Opcode.{Opcode}

abbrev pub threads_infos : List (ℕ × Opcode)
threads_infos =
    (0xfe00, Opcode.stack Control.atomic_wake)
    ∷ (0xfe01, Opcode.stack Control.i32_atomic_wait)
    ∷ (0xfe02, Opcode.stack Control.i64_atomic_wait)
    ∷ (0xfe10, Opcode.atomic_load Atomics.i32_atomic_load)
    ∷ (0xfe11, Opcode.atomic_load Atomics.i64_atomic_load)
    ∷ (0xfe12, Opcode.atomic_load Atomics.i32_atomic_load8_u)
    ∷ (0xfe13, Opcode.atomic_load Atomics.i32_atomic_load16_u)
    ∷ (0xfe14, Opcode.atomic_load Atomics.i64_atomic_load8_u)
    ∷ (0xfe15, Opcode.atomic_load Atomics.i64_atomic_load16_u)
    ∷ (0xfe16, Opcode.atomic_load Atomics.i64_atomic_load32_u)
    ∷ (0xfe17, Opcode.atomic_store Atomics.i32_atomic_store)
    ∷ (0xfe18, Opcode.atomic_store Atomics.i64_atomic_store)
    ∷ (0xfe19, Opcode.atomic_store Atomics.i32_atomic_store8)
    ∷ (0xfe1a, Opcode.atomic_store Atomics.i32_atomic_store16)
    ∷ (0xfe1b, Opcode.atomic_store Atomics.i64_atomic_store8)
    ∷ (0xfe1c, Opcode.atomic_store Atomics.i64_atomic_store16)
    ∷ (0xfe1d, Opcode.atomic_store Atomics.i64_atomic_store32)
    ∷ (0xfe1e, Opcode.rmw Rmw.add Rmw.i32_full)
    ∷ (0xfe1f, Opcode.rmw Rmw.add Rmw.i64_full)
    ∷ (0xfe20, Opcode.rmw Rmw.add Rmw.i32_8_u)
    ∷ (0xfe21, Opcode.rmw Rmw.add Rmw.i32_16_u)
    ∷ (0xfe22, Opcode.rmw Rmw.add Rmw.i64_8_u)
    ∷ (0xfe23, Opcode.rmw Rmw.add Rmw.i64_16_u)
    ∷ (0xfe24, Opcode.rmw Rmw.add Rmw.i64_32_u)
    ∷ (0xfe25, Opcode.rmw Rmw.sub Rmw.i32_full)
    ∷ (0xfe26, Opcode.rmw Rmw.sub Rmw.i64_full)
    ∷ (0xfe27, Opcode.rmw Rmw.sub Rmw.i32_8_u)
    ∷ (0xfe28, Opcode.rmw Rmw.sub Rmw.i32_16_u)
    ∷ (0xfe29, Opcode.rmw Rmw.sub Rmw.i64_8_u)
    ∷ (0xfe2a, Opcode.rmw Rmw.sub Rmw.i64_16_u)
    ∷ (0xfe2b, Opcode.rmw Rmw.sub Rmw.i64_32_u)
    ∷ (0xfe2c, Opcode.rmw Rmw.and Rmw.i32_full)
    ∷ (0xfe2d, Opcode.rmw Rmw.and Rmw.i64_full)
    ∷ (0xfe2e, Opcode.rmw Rmw.and Rmw.i32_8_u)
    ∷ (0xfe2f, Opcode.rmw Rmw.and Rmw.i32_16_u)
    ∷ (0xfe30, Opcode.rmw Rmw.and Rmw.i64_8_u)
    ∷ (0xfe31, Opcode.rmw Rmw.and Rmw.i64_16_u)
    ∷ (0xfe32, Opcode.rmw Rmw.and Rmw.i64_32_u)
    ∷ (0xfe33, Opcode.rmw Rmw.or Rmw.i32_full)
    ∷ (0xfe34, Opcode.rmw Rmw.or Rmw.i64_full)
    ∷ (0xfe35, Opcode.rmw Rmw.or Rmw.i32_8_u)
    ∷ (0xfe36, Opcode.rmw Rmw.or Rmw.i32_16_u)
    ∷ (0xfe37, Opcode.rmw Rmw.or Rmw.i64_8_u)
    ∷ (0xfe38, Opcode.rmw Rmw.or Rmw.i64_16_u)
    ∷ (0xfe39, Opcode.rmw Rmw.or Rmw.i64_32_u)
    ∷ (0xfe3a, Opcode.rmw Rmw.xor Rmw.i32_full)
    ∷ (0xfe3b, Opcode.rmw Rmw.xor Rmw.i64_full)
    ∷ (0xfe3c, Opcode.rmw Rmw.xor Rmw.i32_8_u)
    ∷ (0xfe3d, Opcode.rmw Rmw.xor Rmw.i32_16_u)
    ∷ (0xfe3e, Opcode.rmw Rmw.xor Rmw.i64_8_u)
    ∷ (0xfe3f, Opcode.rmw Rmw.xor Rmw.i64_16_u)
    ∷ (0xfe40, Opcode.rmw Rmw.xor Rmw.i64_32_u)
    ∷ (0xfe41, Opcode.rmw Rmw.exchange Rmw.i32_full)
    ∷ (0xfe42, Opcode.rmw Rmw.exchange Rmw.i64_full)
    ∷ (0xfe43, Opcode.rmw Rmw.exchange Rmw.i32_8_u)
    ∷ (0xfe44, Opcode.rmw Rmw.exchange Rmw.i32_16_u)
    ∷ (0xfe45, Opcode.rmw Rmw.exchange Rmw.i64_8_u)
    ∷ (0xfe46, Opcode.rmw Rmw.exchange Rmw.i64_16_u)
    ∷ (0xfe47, Opcode.rmw Rmw.exchange Rmw.i64_32_u)
    ∷ (0xfe48, Opcode.cmpxchg Cmpxchg.i32_atomic_rmw_cmpxchg)
    ∷ (0xfe49, Opcode.cmpxchg Cmpxchg.i64_atomic_rmw_cmpxchg)
    ∷ (0xfe4a, Opcode.cmpxchg Cmpxchg.i32_atomic_rmw8_u_cmpxchg)
    ∷ (0xfe4b, Opcode.cmpxchg Cmpxchg.i32_atomic_rmw16_u_cmpxchg)
    ∷ (0xfe4c, Opcode.cmpxchg Cmpxchg.i64_atomic_rmw8_u_cmpxchg)
    ∷ (0xfe4d, Opcode.cmpxchg Cmpxchg.i64_atomic_rmw16_u_cmpxchg)
    ∷ (0xfe4e, Opcode.cmpxchg Cmpxchg.i64_atomic_rmw32_u_cmpxchg)
    ∷ []

-- ===== src/Runtime/Memory/Sbrk.antt =====
-- `sbrk_impl` over the break that is kept in linear memory (wasm2c/wasm-rt-impl.cpp).
use wasm_sandboxing.Base.{ℕ, ◌+◌, ◌%◌, ◌^◌, ◌≤◌, ◌<◌, ◌≡◌, ◌⊎◌, inl, inr, arith}
use wasm_sandboxing.Runtime.Memory.{Memory, returns, aborts, read_i32, sbrk_impl}
use wasm_sandboxing.Runtime.Memory.Access.{stored, i32_store-ok, i32_load-ok}
use native.Mathlib.Decide.{dec_le}

-- Where the break's cell lies inside the memory and holds no negative number, `sbrk_impl` adds
-- the signed increment: if the sum is from 0 to the total memory, that becomes the break, the
-- old break is returned, and nothing else changes; else the call aborts.
pub sbrk_impl_lem :
    (m : Memory) (ptr errno increment : ℕ)
    → ptr < 2 ^ 32
    → ptr + 4 ≤ m.size
    → increment < 2 ^ 32
    → read_i32 m.bytes ptr < 2 ^ 31
    → let old = read_i32 m.bytes ptr in
      let new = (old + increment) % 2 ^ 32 in
      ((new ≤ 0x7fff0000) × (sbrk_impl m ptr errno increment ≡ returns (stored m ptr new, old)))
      ⊎ ((0x7fff0000 < new) × (sbrk_impl m ptr errno increment ≡ aborts))
unfolding sbrk_impl
sbrk_impl_lem m ptr errno increment h k g b =
    elim (dec_le ((read_i32 m.bytes ptr + increment) % 2 ^ 32) 0x7fff0000) [
      | yes y ↦ inl (
        y,
        rw
            (
              i32_load-ok m ptr h k,
              i32_store-ok m ptr ((read_i32 m.bytes ptr + increment) % 2 ^ 32) h k,
            )
            (ground arith),
      )
      | no n ↦ inr (
        omega arith,
        rw
            (
              i32_load-ok m ptr h k,
              i32_store-ok m ptr ((read_i32 m.bytes ptr + increment) % 2 ^ 32) h k,
            )
            (ground arith),
      )
    ]

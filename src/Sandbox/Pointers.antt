-- ===== src/Sandbox/Pointers.antt =====
-- Pointers that cross the boundary of the sandbox stay in its memory (wasm2c/wasm_sandbox.cpp).
use wasm_sandboxing.Base.{
  ℕ, ◌+◌, ◌-◌, ◌%◌, ◌^◌, ◌≤◌, ◌<◌, ◌≡◌, ◌⊎◌, inl, inr, true, false, ◌&&◌, ltb, ◌==◌, arith,
  Bool-cases, refl,
}
use wasm_sandboxing.Runtime.Memory.{Outcome, returns, aborts}
use wasm_sandboxing.Sandbox.{
  Sandbox, get_unsandboxed_pointer, get_sandboxed_pointer, is_address_in_sandbox_memory_or_null,
  is_address_in_non_sandbox_memory_or_null, malloc_in_sandbox,
}

-- Where an allocation puts the memory: not at null, and not up to the end of the address space.
pub record IsPlaced (w : Sandbox) : Type 0 where
  pub not_null : 1 ≤ w.wasm_memory
  pub fits : w.wasm_memory + w.wasm_memory_size < 2 ^ 64
  pub small : w.wasm_memory_size ≤ 2 ^ 32

-- Of a sandbox whose memory is placed, `getUnsandboxedPointer` gives, for any 64 bits that the
-- module passes, null or an address strictly inside the memory, which
-- `isAddressInSandboxMemoryOrNull` accepts and which `getSandboxedPointer` takes back to the low
-- 32 bits; or else it aborts, and those bits are an offset outside the memory.
pub get_unsandboxed_pointer-inside :
    (w : Sandbox) (p : ℕ)
    → IsPlaced w
    → ((q : ℕ) × (get_unsandboxed_pointer w p ≡ returns q)
        × ((q ≡ 0) ⊎ ((w.wasm_memory < q) × (q < w.wasm_memory + w.wasm_memory_size)))
        × (is_address_in_sandbox_memory_or_null w q ≡ true)
        × (get_sandboxed_pointer w q ≡ returns (p % 2 ^ 32)))
      ⊎ ((get_unsandboxed_pointer w p ≡ aborts) × (w.wasm_memory_size ≤ p % 2 ^ 32))
unfolding get_unsandboxed_pointer get_sandboxed_pointer is_address_in_sandbox_memory_or_null
get_unsandboxed_pointer-inside w p h =
    let a = h.not_null in
    let b = h.fits in
    let c = h.small in
    elim (Bool-cases (p % 2 ^ 32 == 0)) [
      | inl z ↦ inl (0, ground arith, inl refl, ground arith, ground arith)
      | inr n ↦ elim (Bool-cases (ltb (p % 2 ^ 32) w.wasm_memory_size)) [
        | inl y ↦ inl (
          p % 2 ^ 32 + w.wasm_memory,
          ground arith,
          inr (ground arith, ground arith),
          ground arith,
          ground arith,
        )
        | inr y ↦ inr (ground arith, ground arith)
      ]
    ]

-- Of a sandbox whose memory is placed, a 64-bit address that `getSandboxedPointer` accepts is null
-- or in the memory, and comes back from `getUnsandboxedPointer`; it accepts exactly those that
-- `isAddressInSandboxMemoryOrNull` accepts, less the start of the memory.
pub get_sandboxed_pointer-back :
    (w : Sandbox) (q : ℕ)
    → IsPlaced w
    → ((p : ℕ) × (get_sandboxed_pointer w q ≡ returns p)
        × (is_address_in_sandbox_memory_or_null w q ≡ true)
        × (get_unsandboxed_pointer w p ≡ returns q))
      ⊎ ((get_sandboxed_pointer w q ≡ aborts)
          × ((q ≡ w.wasm_memory)
              ⊎ ((is_address_in_sandbox_memory_or_null w q ≡ false)
                  × (is_address_in_non_sandbox_memory_or_null w q ≡ true))))
unfolding get_unsandboxed_pointer get_sandboxed_pointer is_address_in_sandbox_memory_or_null
    is_address_in_non_sandbox_memory_or_null
get_sandboxed_pointer-back w q h =
    let a = h.not_null in
    let b = h.fits in
    let c = h.small in
    elim (Bool-cases (q == 0)) [
      | inl z ↦ inl (0, ground arith, ground arith, ground arith)
      | inr n ↦
          elim (Bool-cases (ltb w.wasm_memory q && ltb (q - w.wasm_memory) w.wasm_memory_size)) [
            | inl y ↦ inl (q - w.wasm_memory, ground arith, ground arith, ground arith)
            | inr y ↦ elim (Bool-cases (q == w.wasm_memory)) [
              | inl e ↦ inr (ground arith, inl (ground arith))
              | inr e ↦ inr (ground arith, inr (ground arith, ground arith))
            ]
          ]
    ]

-- Of a sandbox whose memory is placed, and of a module whose `malloc` answers a 32-bit number,
-- `mallocInSandbox` gives null for 0, the unsandboxed address for an offset from the heap's base
-- up to the memory's end, and aborts for all else.
pub malloc_in_sandbox_lem :
    {G : Type 0} (wasm_malloc : G → ℕ → Outcome (G × ℕ)) (w : Sandbox) (g g' : G) (size ret : ℕ)
    → IsPlaced w
    → ret < 2 ^ 32
    → wasm_malloc g size ≡ returns (g', ret)
    → ((ret ≡ 0) × (malloc_in_sandbox wasm_malloc w g size ≡ returns (g', 0)))
      ⊎ ((w.heap_base ≤ ret)
          × (ret < w.wasm_memory_size)
          × (malloc_in_sandbox wasm_malloc w g size ≡ returns (g', ret + w.wasm_memory)))
      ⊎ (((ret < w.heap_base) ⊎ (w.wasm_memory_size ≤ ret))
          × (malloc_in_sandbox wasm_malloc w g size ≡ aborts))
unfolding malloc_in_sandbox get_unsandboxed_pointer
malloc_in_sandbox_lem wasm_malloc w g g' size ret h small e =
    let a = h.not_null in
    let b = h.fits in
    let c = h.small in
    let low : ret % 2 ^ 32 ≡ ret = omega arith in
    elim (Bool-cases (ret == 0)) [
      | inl z ↦ inl (ground arith, rw e (ground arith))
      | inr n ↦ elim (Bool-cases (ltb ret w.heap_base)) [
        | inl y ↦ inr (inr (inl (ground arith), rw e (ground arith)))
        | inr y ↦ elim (Bool-cases (ltb ret w.wasm_memory_size)) [
          | inl k ↦ inr (inl (ground arith, ground arith, rw e (ground arith)))
          | inr k ↦ inr (inr (inr (ground arith), rw e (ground arith)))
        ]
      ]
    ]

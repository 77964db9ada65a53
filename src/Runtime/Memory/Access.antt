-- ===== src/Runtime/Memory/Access.antt =====
-- Four-byte accesses stay in the sandbox, and a load sees the last store (wasm2c/wasm-rt-impl.cpp).
use wasm_sandboxing.Base.{
  ℕ, ◌+◌, ◌%◌, ◌^◌, ◌≤◌, ◌<◌, ◌≡◌, ◌⊎◌, ◌↔◌, refl, sym, ap, ◌∙◌, subst, arith,
}
use wasm_sandboxing.Runtime.Memory.{
  Memory, Outcome, returns, traps, oob, read_i32, write_i32, i32_load, i32_store,
}

-- For a 32-bit address, a store traps exactly if one of its four bytes lies outside the memory.
pub i32_store-traps :
    (m : Memory) (addr v : ℕ)
    → addr < 2 ^ 32
    → (i32_store m addr v ≡ traps oob) ↔ (m.size < addr + 4)
unfolding i32_store
i32_store-traps m addr v h = (λ e. ground arith, λ e. ground arith)

abbrev pub stored : Memory → ℕ → ℕ → Memory
stored m addr v = record m { bytes = write_i32 m.bytes addr (v % 2 ^ 32) }

result_or : Memory → Outcome Memory → Memory
result_or m (returns x) = x
result_or m _ = m

pub i32_store-ok :
    (m : Memory) (addr v : ℕ)
    → addr < 2 ^ 32
    → addr + 4 ≤ m.size
    → i32_store m addr v ≡ returns (stored m addr v)
unfolding i32_store
i32_store-ok m addr v h k = ground arith

i32_store-returns :
    (m m' : Memory) (addr v : ℕ)
    → addr < 2 ^ 32
    → i32_store m addr v ≡ returns m'
    → (addr + 4 ≤ m.size) × (stored m addr v ≡ m')
unfolding i32_store result_or
i32_store-returns m m' addr v h e =
    (ground arith, ap (result_or m) (sym (i32_store-ok m addr v h (ground arith)) ∙ e))

pub read-write_i32 : (d : ℕ → ℕ) (a v : ℕ) → v < 2 ^ 32 → read_i32 (write_i32 d a v) a ≡ v
read-write_i32 d a v h = ground arith

pub read-write_i32_ne :
    (d : ℕ → ℕ) (a b v : ℕ)
    → (b + 4 ≤ a) ⊎ (a + 4 ≤ b)
    → read_i32 (write_i32 d a v) b ≡ read_i32 d b
read-write_i32_ne d a b v h = ground arith

pub i32_load-ok :
    (m : Memory) (addr : ℕ)
    → addr < 2 ^ 32
    → addr + 4 ≤ m.size
    → i32_load m addr ≡ returns (read_i32 m.bytes addr)
unfolding i32_load
i32_load-ok m addr h k = ground arith

-- A store that does not trap keeps the memory's size and page counts and every byte but those at
-- `addr` to `addr + 3`, which lie inside the memory; a load of that address then gives the stored
-- 32-bit value.
pub i32_load-store :
    (m m' : Memory) (addr v : ℕ)
    → addr < 2 ^ 32
    → v < 2 ^ 32
    → i32_store m addr v ≡ returns m'
    → (i32_load m' addr ≡ returns v)
      × (addr + 4 ≤ m.size)
      × (m'.size ≡ m.size)
      × (m'.pages ≡ m.pages)
      × (m'.max_pages ≡ m.max_pages)
      × ((x : ℕ) → (x < addr) ⊎ (addr + 4 ≤ x) → m'.bytes x ≡ m.bytes x)
i32_load-store m m' addr v h k e =
    let (fits, is) = i32_store-returns m m' addr v h e in
    subst
      (λ t.
        (i32_load t addr ≡ returns v)
        × (addr + 4 ≤ m.size)
        × (t.size ≡ m.size)
        × (t.pages ≡ m.pages)
        × (t.max_pages ≡ m.max_pages)
        × ((x : ℕ) → (x < addr) ⊎ (addr + 4 ≤ x) → t.bytes x ≡ m.bytes x))
      is
      (
        i32_load-ok (stored m addr v) addr h fits
            ∙ ap returns (read-write_i32 m.bytes addr _ (omega arith) ∙ omega arith),
        fits,
        refl,
        refl,
        refl,
        λ x o. ground arith,
      )

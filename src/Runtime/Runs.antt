-- ===== src/Runtime/Runs.antt =====
-- Concrete runs of the runtime.
use wasm_sandboxing.Runtime.Memory.{build_environment, grow_memory, allocate_memory}
use wasm_sandboxing.Runtime.FuncTable.{allocate_table}
use wasm_sandboxing.Base.{
  ℕ, ◌+◌, ◌%◌, ◌^◌, ◌≤◌, ◌<◌, ◌≡◌, ◌≢◌, ◌⊎◌, ◌↔◌, refl, [], ◌∷◌, List, arith,
}
use wasm_sandboxing.Runtime.Memory.{
  Memory, returns, traps, aborts, oob, i32_load, i32_store, sbrk_impl, mark_memory,
  check_stack_cookie,
}
use wasm_sandboxing.Runtime.Memory.Access.{stored, i32_load-store, i32_store-ok, i32_store-traps}
use wasm_sandboxing.Runtime.Memory.Cookie.{marked, mark_memory_lem}
use wasm_sandboxing.Runtime.Memory.Sbrk.{sbrk_impl_lem}
use wasm_sandboxing.Runtime.Layout.{
  Constants, set_constants, IsLaidOut, align_memory, set_constants_lem, align_memory_rounds_down,
}
use wasm_sandboxing.Runtime.FuncTypes.{
  FuncType, i32, i64, register_func_type, register_func_type_twice,
}
use wasm_sandboxing.Runtime.FuncTable.{
  Table, allocate_table_real, register_func, unregister_func, get_registered_func, func_table_size,
  register_func_lem,
}

abbrev page : Memory
page = record { bytes = λ x. 0; pages = 1; max_pages = 1; size = 65536 }

i32_store-traps_example : (i32_store page 65533 7 ≡ traps oob) ↔ (65536 < 65533 + 4)
i32_store-traps_example = i32_store-traps page 65533 7 (omega arith)

abbrev page_with_7 : Memory
page_with_7 = stored page 1000 7

i32_load-store_example :
    (i32_load page_with_7 1000 ≡ returns 7)
    × (1000 + 4 ≤ page.size)
    × (page_with_7.size ≡ page.size)
    × (page_with_7.pages ≡ page.pages)
    × (page_with_7.max_pages ≡ page.max_pages)
    × ((x : ℕ) → (x < 1000) ⊎ (1000 + 4 ≤ x) → page_with_7.bytes x ≡ page.bytes x)
i32_load-store_example =
    i32_load-store page page_with_7 1000 7 (omega arith) (omega arith)
      (i32_store-ok page 1000 7 (omega arith) (omega arith))

mark_memory_lem_example :
    (mark_memory page 4096 ≡ returns (marked page 4096))
    × (check_stack_cookie (marked page 4096) 4096 ≡ returns tt)
    × ((x : ℕ) → 4 ≤ x → (x + 8 < 4096) ⊎ (4096 ≤ x) → (marked page 4096).bytes x ≡ page.bytes x)
mark_memory_lem_example =
    mark_memory_lem page 4096 (omega arith) (omega arith) (omega arith) (omega arith)

sbrk_impl_lem_example :
    let new = (0 + 64) % 2 ^ 32 in
    ((new ≤ 0x7fff0000) × (sbrk_impl page 1040 1100 64 ≡ returns (stored page 1040 new, 0)))
    ⊎ ((0x7fff0000 < new) × (sbrk_impl page 1040 1100 64 ≡ aborts))
sbrk_impl_lem_example =
    sbrk_impl_lem page 1040 1100 64 (omega arith) (omega arith) (omega arith) (omega arith)

abbrev whole : Memory
whole = record { bytes = λ x. 0; pages = 32767; max_pages = 32767; size = 0x7fff0000 }

set_constants_lem_example :
    ((c : Constants) × (set_constants whole 5000
        ≡ returns (stored whole c.dynamictop_ptr c.dynamic_base, c))
      × (5000 % 8 ≡ 0)
      × IsLaidOut 5000 c)
    ⊎ ((5000 % 8 ≢ 0) × (set_constants whole 5000 ≡ aborts))
set_constants_lem_example = set_constants_lem whole 5000 (omega arith) refl

start_up_asserts_alignment : set_constants whole 1 ≡ aborts
unfolding set_constants
start_up_asserts_alignment = refl

align_memory_rounds_down_example :
    (align_memory 6053 ≤ 6053) × (6053 < align_memory 6053 + 16) × (align_memory 6053 % 16 ≡ 0)
align_memory_rounds_down_example = align_memory_rounds_down 6053 (omega arith)

abbrev unary : FuncType
unary = record { params = i32 ∷ []; results = i32 ∷ [] }

abbrev binary : FuncType
binary = record { params = i32 ∷ i64 ∷ []; results = i32 ∷ [] }

abbrev types : List FuncType
types = unary ∷ []

register_func_type_twice_example :
    let first = register_func_type types binary in
    let second = register_func_type first.0 unary in
    ((second.1 ≡ first.1) ↔ (binary ≡ unary)) × (binary ≡ unary → second.0 ≡ first.0)
register_func_type_twice_example = register_func_type_twice types binary unary

abbrev fresh_table : Table
fresh_table = allocate_table_real 1024 1024

register_func_lem_example :
    ((t' : Table) × (i : ℕ) × (register_func fresh_table 4096 3 ≡ returns (t', i))
      × (1 ≤ i)
      × (i < func_table_size)
      × (get_registered_func fresh_table i ≡ 0)
      × ((j : ℕ) → 1 ≤ j → j < i → get_registered_func fresh_table j ≢ 0)
      × (get_registered_func t' i ≡ 4096)
      × ((t'.elems i).func_type ≡ 3)
      × ((j : ℕ) → j ≢ i → t'.elems j ≡ fresh_table.elems j)
      × (get_registered_func (unregister_func t' i) i ≡ 0))
    ⊎ ((register_func fresh_table 4096 3 ≡ aborts)
        × ((j : ℕ) → 1 ≤ j → j < func_table_size → get_registered_func fresh_table j ≢ 0))
register_func_lem_example = register_func_lem fresh_table 4096 3

allocated_size : (allocate_memory 2 4).size ≡ 131072
unfolding allocate_memory
allocated_size = refl

environment_out_of_bounds : build_environment page 65534 ≡ traps oob
unfolding build_environment i32_store
environment_out_of_bounds = refl

cannot_grow : grow_memory page 1 ≡ aborts
unfolding grow_memory
cannot_grow = refl

module_gets_own_table : (allocate_table fresh_table 4 8).size ≡ 1024
unfolding allocate_table allocate_table_real
module_gets_own_table = refl

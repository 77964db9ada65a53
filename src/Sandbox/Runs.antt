-- ===== src/Sandbox/Runs.antt =====
-- Concrete runs of the host's side.
use wasm_sandboxing.Sandbox.{free_in_sandbox, get_total_memory, register_internal_callback_impl}
use wasm_sandboxing.Base.{
  ℕ, ◌+◌, ◌%◌, ◌^◌, ◌≤◌, ◌<◌, ◌≡◌, ◌≢◌, ◌⊎◌, refl, true, false, none, some, [], ◌∷◌, arith,
}
use wasm_sandboxing.Runtime.Memory.{Outcome, returns, aborts}
use wasm_sandboxing.Runtime.FuncTypes.{FuncType, Registered, i32}
use wasm_sandboxing.Runtime.FuncTable.{
  allocate_table_real, func_table_size, register_func, find_empty,
}
use wasm_sandboxing.Sandbox.{
  Sandbox, Callback, get_unsandboxed_pointer, get_sandboxed_pointer,
  is_address_in_sandbox_memory_or_null, is_address_in_non_sandbox_memory_or_null,
  register_callback_impl, unregister_callback, get_unsandboxed_func_pointer, malloc_in_sandbox,
}
use wasm_sandboxing.Sandbox.Pointers.{
  IsPlaced, get_unsandboxed_pointer-inside, get_sandboxed_pointer-back, malloc_in_sandbox_lem,
}
use wasm_sandboxing.Sandbox.Callbacks.{register_callback_impl_lem}

abbrev box : Sandbox
box = record {
  wasm_memory = 0x1_0000_0000_0000;
  wasm_memory_size = 0x7fff0000;
  heap_base = 5250000;
  register_callback_map = λ j. none;
  callback_state_map = λ j. none;
  func_types = [];
  table = allocate_table_real 1024 1024;
}

box-IsPlaced : IsPlaced box
box-IsPlaced = record { not_null = omega arith; fits = omega arith; small = omega arith }

below_the_heap_aborts : malloc_in_sandbox (λ g size. returns (g, 100)) box tt 8 ≡ aborts
unfolding malloc_in_sandbox
below_the_heap_aborts = refl

get_unsandboxed_pointer-inside_example :
    ((q : ℕ) × (get_unsandboxed_pointer box 6000000 ≡ returns q)
      × ((q ≡ 0) ⊎ ((box.wasm_memory < q) × (q < box.wasm_memory + box.wasm_memory_size)))
      × (is_address_in_sandbox_memory_or_null box q ≡ true)
      × (get_sandboxed_pointer box q ≡ returns (6000000 % 2 ^ 32)))
    ⊎ ((get_unsandboxed_pointer box 6000000 ≡ aborts) × (box.wasm_memory_size ≤ 6000000 % 2 ^ 32))
get_unsandboxed_pointer-inside_example = get_unsandboxed_pointer-inside box 6000000 box-IsPlaced

get_sandboxed_pointer-back_example :
    ((p : ℕ) × (get_sandboxed_pointer box 0x1_0000_0000_1000 ≡ returns p)
      × (is_address_in_sandbox_memory_or_null box 0x1_0000_0000_1000 ≡ true)
      × (get_unsandboxed_pointer box p ≡ returns 0x1_0000_0000_1000))
    ⊎ ((get_sandboxed_pointer box 0x1_0000_0000_1000 ≡ aborts)
        × ((0x1_0000_0000_1000 ≡ box.wasm_memory)
            ⊎ ((is_address_in_sandbox_memory_or_null box 0x1_0000_0000_1000 ≡ false)
                × (is_address_in_non_sandbox_memory_or_null box 0x1_0000_0000_1000 ≡ true))))
get_sandboxed_pointer-back_example = get_sandboxed_pointer-back box 0x1_0000_0000_1000 box-IsPlaced

abbrev sig : FuncType
sig = record { params = i32 ∷ []; results = [] }

register_callback_impl_lem_example :
    ((w' : Sandbox) × (c : Callback) × (n : ℕ) × (register_callback_impl box 1 4096 8192 sig
        ≡ returns (w', c))
      × (get_unsandboxed_func_pointer box c.callback_slot ≡ 0)
      × (get_unsandboxed_func_pointer w' c.callback_slot ≡ 8192)
      × ((w'.table.elems c.callback_slot).func_type ≡ n + 1)
      × Registered n w'.func_types sig
      × (w'.register_callback_map c.callback_slot ≡ some 4096)
      × (w'.callback_state_map c.callback_slot ≡ some 1)
      × ((j : ℕ) → j ≢ c.callback_slot → w'.table.elems j ≡ box.table.elems j)
      × (get_unsandboxed_func_pointer (unregister_callback w' (some c)) c.callback_slot ≡ 0)
      × ((unregister_callback w' (some c)).register_callback_map c.callback_slot ≡ none)
      × ((unregister_callback w' (some c)).callback_state_map c.callback_slot ≡ none))
    ⊎ ((register_callback_impl box 1 4096 8192 sig ≡ aborts)
        × ((j : ℕ) → 1 ≤ j → j < func_table_size → get_unsandboxed_func_pointer box j ≢ 0))
register_callback_impl_lem_example = register_callback_impl_lem box 1 4096 8192 sig

malloc_in_sandbox_lem_example :
    let malloc = malloc_in_sandbox (λ g size. returns (g, 6000000)) box tt 8 in
    let ret : ℕ = 6000000 in
    ((ret ≡ 0) × (malloc ≡ returns (tt, 0)))
    ⊎ ((box.heap_base ≤ ret)
        × (ret < box.wasm_memory_size)
        × (malloc ≡ returns (tt, ret + box.wasm_memory)))
    ⊎ (((ret < box.heap_base) ⊎ (box.wasm_memory_size ≤ ret)) × (malloc ≡ aborts))
malloc_in_sandbox_lem_example =
    malloc_in_sandbox_lem (λ g size. returns (g, 6000000)) box tt tt 8 6000000 box-IsPlaced
      (omega arith) refl

free_passes_offset : free_in_sandbox (λ g p. returns p) box 0 0x1_0000_0000_1000 ≡ returns 0x1000
unfolding free_in_sandbox
free_passes_offset = refl

free_of_start_aborts : free_in_sandbox (λ g p. returns p) box 0 0x1_0000_0000_0000 ≡ aborts
unfolding free_in_sandbox
free_of_start_aborts = refl

two_gigabytes_less_a_page : get_total_memory box ≡ 0x7fff0000
unfolding get_total_memory
two_gigabytes_less_a_page = refl

abbrev slot_of : Outcome (Sandbox × ℕ) → ℕ
slot_of (returns (w, slot)) = slot
slot_of _ = 0

internal_takes_slot_1 : slot_of (register_internal_callback_impl box 4096 sig) ≡ 1
unfolding register_internal_callback_impl register_func find_empty allocate_table_real
internal_takes_slot_1 = refl

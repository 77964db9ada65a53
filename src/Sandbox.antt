-- ===== src/Sandbox.antt =====
-- The host's side of a sandboxed module, wasm2c/wasm_sandbox.cpp: pointers that cross the
-- boundary, and the callbacks that the module may call. A pointer is its 64 bits as a number.
pub mod Pointers
pub mod Callbacks
mod Runs
use wasm_sandboxing.Base.{
  ℕ, ◌+◌, ◌-◌, ◌*◌, ◌%◌, ◌^◌, Bool, true, false, not, ◌&&◌, ◌||◌, Option, none, some, List, ltb,
  leb, ◌==◌, if◌then◌else◌,
}
use wasm_sandboxing.Runtime.Memory.{Outcome, returns, aborts, ◌>>=◌}
use wasm_sandboxing.Runtime.FuncTypes.{RtType, FuncType, register_func_type}
use wasm_sandboxing.Runtime.FuncTable.{Table, register_func, unregister_func, get_registered_func}

-- `wasm_memory`, `wasm_memory_size` and what `wasm_get_heap_base` answers; the two maps of
-- callbacks by their slots; the runtime's tables.
pub record Sandbox : Type 0 where
  pub wasm_memory : ℕ
  pub wasm_memory_size : ℕ
  pub heap_base : ℕ
  pub register_callback_map : ℕ → Option ℕ
  pub callback_state_map : ℕ → Option ℕ
  pub func_types : List FuncType
  pub table : Table

pub get_unsandboxed_pointer : Sandbox → ℕ → Outcome ℕ
get_unsandboxed_pointer w p =
    let p_val = p % 2 ^ 32 in
    if p_val == 0
    then returns 0
    else if ltb p_val w.wasm_memory_size
    then returns ((p_val + w.wasm_memory) % 2 ^ 64)
    else aborts

pub get_sandboxed_pointer : Sandbox → ℕ → Outcome ℕ
get_sandboxed_pointer w p =
    if p == 0
    then returns 0
    else if p == w.wasm_memory
    then aborts
    else if ltb w.wasm_memory p && ltb (p - w.wasm_memory) w.wasm_memory_size
    then returns (p - w.wasm_memory)
    else aborts

abbrev memory_end : Sandbox → ℕ
memory_end w = (w.wasm_memory + w.wasm_memory_size) % 2 ^ 64

pub is_address_in_non_sandbox_memory_or_null : Sandbox → ℕ → Bool
is_address_in_non_sandbox_memory_or_null w p = p == 0 || ltb p w.wasm_memory || leb (memory_end w) p

pub is_address_in_sandbox_memory_or_null : Sandbox → ℕ → Bool
is_address_in_sandbox_memory_or_null w p =
    p == 0 || not (ltb p w.wasm_memory || leb (memory_end w) p)

-- `wasm_malloc` and `wasm_free` are code of the module, which runs on a state of its own.
pub malloc_in_sandbox : {G : Type 0} → (G → ℕ → Outcome (G × ℕ)) → Sandbox → G → ℕ → Outcome (G × ℕ)
unfolding get_unsandboxed_pointer
malloc_in_sandbox wasm_malloc w g size = do
  (g', ret) ← wasm_malloc g size
  if not (ret == 0) && ltb ret w.heap_base
      then aborts
      else do p ← get_unsandboxed_pointer w ret; returns (g', p)

pub free_in_sandbox : {G : Type 0} → (G → ℕ → Outcome G) → Sandbox → G → ℕ → Outcome G
unfolding get_sandboxed_pointer
free_in_sandbox wasm_free w g ptr = do ret ← get_sandboxed_pointer w ptr; wasm_free g (ret % 2 ^ 32)

pub get_total_memory : Sandbox → ℕ
get_total_memory w = w.wasm_memory_size

abbrev pub update : ℕ → Option ℕ → (ℕ → Option ℕ) → ℕ → Option ℕ
update k v m j = if j == k then v else m j

pub record Callback : Type 0 where
  pub callback_slot : ℕ
  pub original_callback : ℕ
  pub callback_stub : ℕ

pub register_internal_callback_impl : Sandbox → ℕ → FuncType → Outcome (Sandbox × ℕ)
register_internal_callback_impl w callback sig = do
  let types = register_func_type w.func_types sig
  (table, slot) ← register_func w.table callback types.1
  returns (record w { func_types = types.0; table = table }, slot)

pub register_callback_impl : Sandbox → ℕ → ℕ → ℕ → FuncType → Outcome (Sandbox × Callback)
register_callback_impl w state callback stub sig = do
  let types = register_func_type w.func_types sig
  (table, slot) ← register_func w.table stub types.1
  returns (
    record w {
      register_callback_map = update slot (some callback) w.register_callback_map;
      callback_state_map = update slot (some state) w.callback_state_map;
      func_types = types.0;
      table = table;
    },
    record { callback_slot = slot; original_callback = callback; callback_stub = stub },
  )

-- `none` is the null pointer.
pub unregister_callback : Sandbox → Option Callback → Sandbox
unregister_callback w none = w
unregister_callback w (some c) = record w {
  register_callback_map = update c.callback_slot none w.register_callback_map;
  callback_state_map = update c.callback_slot none w.callback_state_map;
  table = unregister_func w.table c.callback_slot;
}

pub get_unsandboxed_func_pointer : Sandbox → ℕ → ℕ
get_unsandboxed_func_pointer w p = get_registered_func w.table (p % 2 ^ 32)

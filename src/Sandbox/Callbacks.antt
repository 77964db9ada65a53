-- ===== src/Sandbox/Callbacks.antt =====
-- A callback can be called from its registration on until it is taken back
-- (wasm2c/wasm_sandbox.cpp).
use wasm_sandboxing.Base.{
  ℕ, ◌+◌, ◌%◌, ◌^◌, ◌≤◌, ◌<◌, ◌≡◌, ◌≢◌, ◌⊎◌, inl, inr, none, some, ◌∙◌, arith,
}
use wasm_sandboxing.Runtime.Memory.{returns, aborts}
use wasm_sandboxing.Runtime.FuncTypes.{
  FuncType, Registered, register_func_type, register_func_type-Registered,
}
use wasm_sandboxing.Runtime.FuncTable.{
  Table, register_func, get_registered_func, register_func_lem, func_table_size,
}
use wasm_sandboxing.Sandbox.{
  Sandbox, Callback, update, register_callback_impl, unregister_callback,
  get_unsandboxed_func_pointer,
}

module _ (w : Sandbox) (state callback stub : ℕ) (sig : FuncType) where
  abbrev entry : ℕ
  entry = (register_func_type w.func_types sig).1

  abbrev with_callback : Table → ℕ → Sandbox
  with_callback t slot = record w {
    register_callback_map = update slot (some callback) w.register_callback_map;
    callback_state_map = update slot (some state) w.callback_state_map;
    func_types = (register_func_type w.func_types sig).0;
    table = t;
  }

  abbrev callback_at : ℕ → Callback
  callback_at slot = record {
    callback_slot = slot;
    original_callback = callback;
    callback_stub = stub;
  }

  register_callback_impl-returns :
      (t : Table) (i : ℕ)
      → register_func w.table stub entry ≡ returns (t, i)
      → register_callback_impl w state callback stub sig
        ≡ returns (with_callback t i, callback_at i)
  unfolding register_callback_impl
  register_callback_impl-returns t i e = rw (e, register_callback_impl)

  -- After `registerCallbackImpl` the slot it chose calls the stub under an index at which the type
  -- table has the signature, both maps have the callback and its state, and no other slot calls
  -- anything else than before; `unregisterCallback` makes the slot null and clears both maps at
  -- it. It aborts only if every slot from 1 to 1023 is in use.
  pub register_callback_impl_lem :
      ((w' : Sandbox) × (c : Callback) × (n : ℕ) × (register_callback_impl w state callback stub sig
          ≡ returns (w', c))
        × (get_unsandboxed_func_pointer w c.callback_slot ≡ 0)
        × (get_unsandboxed_func_pointer w' c.callback_slot ≡ stub)
        × ((w'.table.elems c.callback_slot).func_type ≡ n + 1)
        × Registered n w'.func_types sig
        × (w'.register_callback_map c.callback_slot ≡ some callback)
        × (w'.callback_state_map c.callback_slot ≡ some state)
        × ((j : ℕ) → j ≢ c.callback_slot → w'.table.elems j ≡ w.table.elems j)
        × (get_unsandboxed_func_pointer (unregister_callback w' (some c)) c.callback_slot ≡ 0)
        × ((unregister_callback w' (some c)).register_callback_map c.callback_slot ≡ none)
        × ((unregister_callback w' (some c)).callback_state_map c.callback_slot ≡ none))
      ⊎ ((register_callback_impl w state callback stub sig ≡ aborts)
          × ((j : ℕ) → 1 ≤ j → j < func_table_size → get_unsandboxed_func_pointer w j ≢ 0))
  unfolding register_callback_impl get_unsandboxed_func_pointer unregister_callback
  register_callback_impl_lem = elim (register_func_lem w.table stub entry) [
    | inr (e, used) ↦ inr (rw (e, register_callback_impl), λ j p q. subst_used used j p q)
    | inl (t, i, e, lo, hi, empty, first, at, type_at, rest, gone) ↦
        let (n, k, is) = register_func_type-Registered w.func_types sig in
        let wide : i % 2 ^ 32 ≡ i = ground arith in
        inl (
          with_callback t i,
          callback_at i,
          n,
          register_callback_impl-returns t i e,
          rw wide empty,
          rw wide at,
          type_at ∙ k,
          is,
          ground arith,
          ground arith,
          rest,
          rw wide gone,
          ground arith,
          ground arith,
        )
  ]
    where
      subst_used :
          ((j : ℕ) → 1 ≤ j → j < func_table_size → get_registered_func w.table j ≢ 0)
          → (j : ℕ) → 1 ≤ j
          → j < func_table_size
          → get_registered_func w.table (j % 2 ^ 32) ≢ 0
      subst_used used j p q = let wide : j % 2 ^ 32 ≡ j = ground arith in rw wide (used j p q)

-- ===== src/Interp/Memory/RoundTrip.antt =====
-- Loads and stores of src/interp.cc as instructions.
use native.Mathlib.Nat.{mod-mod}
use wasm_sandboxing.Base.{
  ℕ, ◌+◌, ◌*◌, ◌%◌, ◌^◌, ◌≤◌, ◌<◌, ◌≡◌, ◌∙◌, ◌⊎◌, refl, sym, ap, subst, Bool, true, false, ltb,
  if◌then◌else◌, arith,
}
use wasm_sandboxing.Interp.State
use wasm_sandboxing.Interp.State.{
  Memory, Thread, Flow, next, stop, M, ◌>>=◌, ◌>>◌, continue, pure, put, read_u32, read_ux,
  read_bytes, below, pop, pop_rep, push_rep, memory_access_out_of_bounds,
}
use wasm_sandboxing.Interp.Host.{CType, uint8, bits}
use wasm_sandboxing.Interp.Memory.{
  write_bytes, memory_at, set_memory, get_access_address, load_from_memory, store_to_memory,
  size_of, extended, load, store,
}
use wasm_sandboxing.Interp.Memory.Bytes.{read_bytes-write_bytes, write_bytes-outside}

-- The immediates at `pc`, and the operands: the memory's index and the offset, and the base address
-- on top of a stack.
abbrev pub memory_index : Thread → ℕ
memory_index t = read_bytes t.env.istream t.pc 4

abbrev pub address : Thread → ℕ → ℕ
address t base = base % 2 ^ 32 + read_bytes t.env.istream (t.pc + 4) 4

-- The thread with the immediates read and one value taken.
abbrev pub accessed : Thread → Thread
accessed t = record t { pc = t.pc + 4 + 4; value_stack_top = below t.value_stack_top 1 }

abbrev pub top : Thread → ℕ
top t = t.value_stack (below t.value_stack_top 1)

trap_if-pure :
    {A : Type 0} (c : Bool) (r : State.Result) (a : A) (t : Thread)
    → (State.trap_if c r >> pure a) t ≡ (if c then (stop r, t) else (next a, t))
trap_if-pure true r a t = refl
trap_if-pure false r a t = refl

continue-if :
    {A B : Type 0} (c : Bool) (f : A → M B) (r : State.Result) (a : A) (t t' : Thread)
    → continue f (if c then (stop r, t) else (next a, t')) ≡ (if c then (stop r, t) else f a t')
continue-if true f r a t t' = refl
continue-if false f r a t t' = refl

abbrev out_of_bounds : ℕ → Thread → Bool
out_of_bounds n t = ltb (t.env.memories (memory_index t)).data_size (address t (top t) + n)

get_access_address_lem :
    (n : ℕ) (t : Thread)
    → get_access_address n t ≡ (
        if out_of_bounds n t
        then (stop memory_access_out_of_bounds, accessed t)
        else (next (memory_index t, address t (top t) % 2 ^ 32), accessed t))
unfolding get_access_address read_u32 read_ux memory_at pop_rep pop
get_access_address_lem n t =
    trap_if-pure (out_of_bounds n t) memory_access_out_of_bounds
      (memory_index t, address t (top t) % 2 ^ 32) (accessed t)

-- The address and the bytes at it.
abbrev pub effective : Thread → ℕ
effective t = address t (top t) % 2 ^ 32

abbrev loaded : ℕ → Thread → ℕ
loaded n t = read_bytes (t.env.memories (memory_index t)).bytes (effective t) n

abbrev stored : ℕ → ℕ → Thread → Memory
stored n v t =
    let m = t.env.memories (memory_index t) in
    record m { bytes = write_bytes m.bytes (effective t) n v }

abbrev pub with_memory : ℕ → Memory → Thread → Thread
with_memory i m t = record t { env = record t.env { memories = put t.env.memories i m } }

load_lem :
    (c : CType) (w : ℕ) (t : Thread)
    → load c w t ≡ (
        if out_of_bounds (size_of c) t
        then (stop memory_access_out_of_bounds, accessed t)
        else push_rep w (extended c w (loaded (size_of c) t)) (accessed t))
unfolding load load_from_memory memory_at
load_lem c w t =
    ap (continue body) (get_access_address_lem (size_of c) t)
    ∙ continue-if (out_of_bounds (size_of c) t) body memory_access_out_of_bounds _ _ _
  where
    body : ℕ × ℕ → M (Unit {0})
    body src = load_from_memory (size_of c) src >>= λ value. push_rep w (extended c w value)

-- The thread whose operands are below the value to store.
abbrev pub popped : Thread → Thread
popped t = record t { value_stack_top = below t.value_stack_top 1 }

store_lem :
    (c : CType) (w : ℕ) (t : Thread)
    → store c w t ≡ (
        let t₁ = popped t in
        let v = top t % 2 ^ w % 2 ^ bits c in
        if out_of_bounds (size_of c) t₁
        then (stop memory_access_out_of_bounds, accessed t₁)
        else (next tt, with_memory (memory_index t₁) (stored (size_of c) v t₁) (accessed t₁)))
unfolding store store_to_memory memory_at set_memory pop_rep pop
store_lem c w t =
    ap (continue body) (get_access_address_lem (size_of c) (popped t))
    ∙ continue-if (out_of_bounds (size_of c) (popped t)) body memory_access_out_of_bounds _ _ _
  where
    body : ℕ × ℕ → M (Unit {0})
    body dst = store_to_memory (size_of c) dst (top t % 2 ^ w % 2 ^ bits c)

-- The thread that a store leaves.
if-next :
    (c : Bool) (r : State.Result) (t₁ t₂ t₃ : Thread) (a : Unit {0})
    → ◌≡◌ {A = Flow (Unit {0}) × Thread} (if c then (stop r, t₁) else (next a, t₂)) (next a, t₃)
    → (c ≡ false) × (t₂ ≡ t₃)
if-next true r t₁ t₂ t₃ a e = absurd (ground arith)
if-next false r t₁ t₂ t₃ a e = (refl, cc)

pub put_same : {A : Type 0} (f : ℕ → A) (i : ℕ) (a : A) → put f i a i ≡ a
put_same f i a = ground arith

bits-size_of : (c : CType) → 2 ^ (8 * size_of c) ≡ 2 ^ bits c
bits-size_of uint8 = refl
bits-size_of c = refl

-- A thread whose next instruction has the immediates at `pc`, with the stack `s` of height `k`.
abbrev pub at_again : Thread → ℕ → (ℕ → ℕ) → ℕ → Thread
at_again t pc s k = record t { pc = pc; value_stack = s; value_stack_top = k }

-- The same immediates and the same base address, in the memory after a store.
module _ (n v : ℕ) (t : Thread) (s : ℕ → ℕ) (k : ℕ) (es : s (below k 1) ≡ top t) where
  abbrev after_store : Thread
  after_store = at_again (with_memory (memory_index t) (stored n v t) (accessed t)) t.pc s k

  the_memory : after_store.env.memories (memory_index t) ≡ stored n v t
  the_memory = put_same t.env.memories (memory_index t) (stored n v t)

  out_of_bounds-after : out_of_bounds n after_store ≡ out_of_bounds n t
  out_of_bounds-after =
      ap (λ (m : Memory). ltb m.data_size (address t (s (below k 1)) + n)) the_memory
      ∙ ap (λ b. ltb (t.env.memories (memory_index t)).data_size (address t b + n)) es

  loaded-after : loaded n after_store ≡ v % 2 ^ (8 * n)
  loaded-after =
      ap (λ (m : Memory). read_bytes m.bytes (address t (s (below k 1)) % 2 ^ 32) n) the_memory
      ∙ ap (λ b. read_bytes (stored n v t).bytes (address t b % 2 ^ 32) n) es
      ∙ read_bytes-write_bytes (t.env.memories (memory_index t)).bytes (effective t) n v

  abbrev load_at : CType → ℕ → ℕ → Bool → Flow (Unit {0}) × Thread
  load_at c w value outside =
      if outside
      then (stop memory_access_out_of_bounds, accessed after_store)
      else push_rep w (extended c w value) (accessed after_store)

  load-after :
      (c : CType) (w : ℕ)
      → size_of c ≡ n
      → out_of_bounds n t ≡ false
      → v % 2 ^ (8 * n) ≡ v
      → load c w after_store ≡ push_rep w (extended c w v) (accessed after_store)
  load-after c w en inside ev =
      load_lem c w after_store
      ∙ ap (λ i. load_at c w (loaded i after_store) (out_of_bounds i after_store)) en
      ∙ ap (load_at c w (loaded n after_store)) (out_of_bounds-after ∙ inside)
      ∙ ap (λ x. load_at c w x false) (loaded-after ∙ ev)

  bytes-after :
      (x : ℕ)
      → (x < effective t) ⊎ (effective t + n ≤ x)
      → (after_store.env.memories (memory_index t)).bytes x
        ≡ (t.env.memories (memory_index t)).bytes x
  bytes-after x h =
      ap (λ (m : Memory). m.bytes x) the_memory
      ∙ write_bytes-outside (t.env.memories (memory_index t)).bytes (effective t) n v x h

-- What a load then finds, and the byte `x` that the store left alone.
abbrev StoredValue : CType → ℕ → Thread → (ℕ → ℕ) → ℕ → ℕ → Thread → Type 0
StoredValue c w t s k x t₁ =
    (load c w (at_again t₁ t.pc s k)
      ≡ push_rep w (extended c w (top t % 2 ^ w % 2 ^ bits c)) (accessed (at_again t₁ t.pc s k)))
    × ((t₁.env.memories (memory_index t)).bytes x ≡ (t.env.memories (memory_index t)).bytes x)

-- A load with the immediates and the base address of a store that succeeded, from any stack,
-- finds the value that was stored, cut to the width in memory and extended again, and the other
-- bytes of the memory are as they were.
pub load-store :
    (c : CType) (w : ℕ) (t t₁ : Thread) (s : ℕ → ℕ) (k x : ℕ)
    → store c w t ≡ (next tt, t₁)
    → s (below k 1) ≡ top (popped t)
    → (x < effective (popped t)) ⊎ (effective (popped t) + size_of c ≤ x)
    → (load c w (at_again t₁ t.pc s k)
        ≡ push_rep w (extended c w (top t % 2 ^ w % 2 ^ bits c)) (accessed (at_again t₁ t.pc s k)))
      × ((t₁.env.memories (memory_index t)).bytes x ≡ (t.env.memories (memory_index t)).bytes x)
load-store c w t t₁ s k x e es outside =
    let n = size_of c in
    let v = top t % 2 ^ w % 2 ^ bits c in
    let (inside, e₁) =
      if-next (out_of_bounds n (popped t)) memory_access_out_of_bounds _ _ t₁ tt
        (sym (store_lem c w t) ∙ e) in
    let ev : v % 2 ^ (8 * n) ≡ v =
      ap (λ x. v % x) (bits-size_of c) ∙ mod-mod (top t % 2 ^ w) (2 ^ bits c) in
    subst (StoredValue c w t s k x) e₁ (
      load-after n v (popped t) s k es c w refl inside ev,
      bytes-after n v (popped t) s k es x outside,
    )

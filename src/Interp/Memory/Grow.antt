-- ===== src/Interp/Memory/Grow.antt =====
-- `memory.grow` of src/interp.cc.
use wasm_sandboxing.Base.{
  ℕ, ◌+◌, ◌-◌, ◌*◌, ◌%◌, ◌^◌, ◌≤◌, ◌<◌, ◌≡◌, inl, inr, refl, sym, ap, subst, Bool, true, false,
  Bool-cases, leb, ◌==◌, if◌then◌else◌, arith,
}
use wasm_sandboxing.Interp.State
use wasm_sandboxing.Interp.State.{
  Memory, Thread, Flow, next, stop, M, ◌>>=◌, ◌>>◌, continue, pure, put, thread_after, read_u32,
  read_ux, read_bytes, below, pop, pop_rep, push, push_rep,
}
use wasm_sandboxing.Interp.Memory.{
  memory_at, set_memory, page_size, max_pages, resized, grow_fails, memory_grow,
}
use wasm_sandboxing.Interp.Memory.RoundTrip.{memory_index, top, with_memory}

-- The thread with the memory's index read and the number of pages taken.
abbrev pub asked : Thread → Thread
asked t = record t { pc = t.pc + 4; value_stack_top = below t.value_stack_top 1 }

abbrev pub the_memory : Thread → Memory
the_memory t = t.env.memories (memory_index t)

abbrev pub new_pages : Thread → ℕ
new_pages t = ((the_memory t).page_limits.initial + top t % 2 ^ 32) % 2 ^ 32

if-at :
    {A : Type 0} (c : Bool) (f g : M A) (t : Thread)
    → (if c then f else g) t ≡ (if c then f t else g t)
if-at true f g t = refl
if-at false f g t = refl

memory_grow_lem :
    (t : Thread)
    → memory_grow t ≡ (
        if grow_fails (the_memory t) (new_pages t)
        then push_rep 32 (2 ^ 32 - 1) (asked t)
        else push_rep 32
            (the_memory t).page_limits.initial
            (with_memory (memory_index t) (resized (the_memory t) (new_pages t)) (asked t)))
unfolding memory_grow memory_at set_memory read_u32 read_ux pop_rep pop
memory_grow_lem t =
    if-at (grow_fails (the_memory t) (new_pages t)) (push_rep 32 (2 ^ 32 - 1))
      (set_memory (memory_index t) (resized (the_memory t) (new_pages t))
        >> push_rep 32 (the_memory t).page_limits.initial)
      (asked t)

if-env :
    (c : Bool) (r : State.Result) (t₁ t₂ : Thread)
    → t₂.env ≡ t₁.env
    → (thread_after (if c then (stop r, t₁) else (next tt, t₂))).env ≡ t₁.env
if-env true r t₁ t₂ e = refl
if-env false r t₁ t₂ e = e

push_rep-env : (w v : ℕ) (t : Thread) → (thread_after (push_rep w v t)).env ≡ t.env
unfolding push_rep push
push_rep-env w v t =
    if-env (leb t.value_stack_size t.value_stack_top) State.value_stack_exhausted t _ refl

-- As many bytes as its pages have, which a uint32_t can count.
unfoldable pub WellFormed : Memory → Type 0
WellFormed m = (m.data_size ≡ m.page_limits.initial * page_size) × (m.data_size < 2 ^ 32)

resized-WellFormed : (m : Memory) (p : ℕ) → grow_fails m p ≡ false → WellFormed (resized m p)
unfolding WellFormed
resized-WellFormed m p e = (ground arith, ground arith)

put-WellFormed :
    (f : ℕ → Memory) (i j : ℕ) (m : Memory)
    → WellFormed (f j)
    → WellFormed m
    → WellFormed (put f i m j)
put-WellFormed f i j m hf hm = elim (Bool-cases (j == i)) [ inl e ↦ rw e hm | inr e ↦ rw e hf ]

push_rep-WellFormed :
    (v j : ℕ) (t : Thread)
    → WellFormed (t.env.memories j)
    → WellFormed ((thread_after (push_rep 32 v t)).env.memories j)
push_rep-WellFormed v j t h =
    subst (λ (env : State.Environment). WellFormed (env.memories j)) (sym (push_rep-env 32 v t)) h

-- `memory.grow` keeps every memory well formed, as many bytes as its pages have and fewer than
-- 2³², whether it grows the memory, refuses to, or finds no room on the stack for its result.
pub memory_grow-WellFormed :
    (t : Thread) (j : ℕ)
    → WellFormed (t.env.memories j)
    → WellFormed ((thread_after (memory_grow t)).env.memories j)
memory_grow-WellFormed t j h = elim (Bool-cases (grow_fails (the_memory t) (new_pages t))) [
  | inl e ↦ rw (memory_grow_lem t, e) (push_rep-WellFormed (2 ^ 32 - 1) j (asked t) h)
  | inr e ↦
      rw (memory_grow_lem t, e)
        (push_rep-WellFormed _ j _ (
          put-WellFormed t.env.memories (memory_index t) j _ h
            (resized-WellFormed (the_memory t) (new_pages t) e)))
]

abbrev pub limit : Memory → ℕ
limit m = if m.page_limits.has_max then m.page_limits.max else max_pages

grow_fails-below :
    (m : Memory) (p : ℕ) → p ≤ limit m → p * page_size < 2 ^ 32 → grow_fails m p ≡ false
grow_fails-below m p h b = ground arith

wrap_down : (p d g : ℕ) → 0 < d → d ≤ p → p < 2 ^ 32 → g ≡ 2 ^ 32 - d → (p + g) % 2 ^ 32 ≡ p - d
wrap_down p d g pos le lt e = omega arith

-- A `memory.grow` by 2³² − `d` pages, with `d` at least 1 and at most the number of pages, wraps
-- round: on a well-formed memory within its limit it succeeds, and the memory has lost `d` pages.
pub memory_grow-shrinks :
    (t : Thread) (d : ℕ)
    → 0 < d
    → d ≤ (the_memory t).page_limits.initial
    → (the_memory t).page_limits.initial ≤ limit (the_memory t)
    → WellFormed (the_memory t)
    → top t % 2 ^ 32 ≡ 2 ^ 32 - d
    → memory_grow t
      ≡ push_rep 32 (the_memory t).page_limits.initial (
          with_memory
            (memory_index t)
            (resized (the_memory t) ((the_memory t).page_limits.initial - d))
            (asked t))
unfolding WellFormed
memory_grow-shrinks t d pos le fits wf e =
    let p = (the_memory t).page_limits.initial in
    let (size, small) = wf in
    let new : new_pages t ≡ p - d =
      wrap_down p d (top t % 2 ^ 32) pos le (omega (arith, size, small)) e in
    let ok : grow_fails (the_memory t) (new_pages t) ≡ false =
      grow_fails-below (the_memory t) (new_pages t) (omega (arith, new, fits))
        (omega (arith, new, size, small)) in
    rw (memory_grow_lem t, ok)
      (ap (λ n. push_rep 32 p (with_memory (memory_index t) (resized (the_memory t) n) (asked t)))
        new)

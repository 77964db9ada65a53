-- ===== src/Interp/Runs/Access.antt =====
-- Tests of the memory instructions, and their theorems at concrete inputs (src/interp.cc).
use wasm_sandboxing.Base.{[], ◌∷◌, ◌≡◌, refl, inr, arith}
use wasm_sandboxing.Interp.State.{Thread, next, thread_after, push_rep}
use wasm_sandboxing.Interp.Host.{int8}
use wasm_sandboxing.Interp.Memory.{extended, load, store, memory_grow, resized}
use wasm_sandboxing.Interp.Memory.RoundTrip.{at_again, accessed, with_memory, load-store}
use wasm_sandboxing.Interp.Memory.Grow.{
  WellFormed, asked, memory_grow-WellFormed, memory_grow-shrinks,
}
use wasm_sandboxing.Interp.Runs.{with_values, three_pages}

abbrev stored_thread : Thread
stored_thread = thread_after (store int8 32 (with_values (3 ∷ 300 ∷ [])))

stored_ok : store int8 32 (with_values (3 ∷ 300 ∷ [])) ≡ (next tt, stored_thread)
unfolding store
stored_ok = refl

load-store_example :
    (load int8 32 (at_again stored_thread 0 (λ i. 3) 1)
      ≡ push_rep 32 (extended int8 32 44) (accessed (at_again stored_thread 0 (λ i. 3) 1)))
    × ((stored_thread.env.memories 0).bytes 4 ≡ 0)
load-store_example =
    load-store int8 32 (with_values (3 ∷ 300 ∷ [])) stored_thread (λ i. 3) 1 4 stored_ok refl
      (inr (omega arith))

three_pages-WellFormed : WellFormed three_pages
unfolding WellFormed
three_pages-WellFormed = (refl, omega arith)

memory_grow-WellFormed_example :
    WellFormed ((thread_after (memory_grow (with_values (2 ∷ [])))).env.memories 0)
memory_grow-WellFormed_example =
    memory_grow-WellFormed (with_values (2 ∷ [])) 0 three_pages-WellFormed

-- By -1 as a uint32_t: 2 of the 3 pages are left.
memory_grow-shrinks_example :
    memory_grow (with_values (0xffffffff ∷ []))
    ≡ push_rep 32 3 (with_memory 0 (resized three_pages 2) (asked (with_values (0xffffffff ∷ []))))
memory_grow-shrinks_example =
    memory_grow-shrinks (with_values (0xffffffff ∷ [])) 1 (omega arith) (omega arith) (omega arith)
      three_pages-WellFormed refl

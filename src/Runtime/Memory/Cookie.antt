-- ===== src/Runtime/Memory/Cookie.antt =====
-- The cookies at the end of the stack and the mark at address 0 (wasm2c/wasm-rt-impl.cpp).
use wasm_sandboxing.Base.{
  ℕ, ◌+◌, ◌-◌, ◌^◌, ◌≤◌, ◌<◌, ◌≡◌, ◌⊎◌, inl, inr, refl, ◌∙◌, true, ◌%◌, ◌==◌, bit_and, arith,
}
use wasm_sandboxing.Base.Bits.{bit_and_0x03}
use wasm_sandboxing.Runtime.Memory.{
  Memory, returns, read_i32, i32_load, write_stack_cookie, check_stack_cookie, mark_memory, sub_u32,
  emsc, stack_cookie_1, stack_cookie_2,
}
use wasm_sandboxing.Runtime.Memory.Access.{
  stored, i32_store-ok, i32_load-ok, read-write_i32, read-write_i32_ne,
}

pub marked : Memory → ℕ → Memory
marked m stack_max =
    stored (stored (stored m 0 emsc) (stack_max - 4) stack_cookie_1) (stack_max - 8) stack_cookie_2

module _ (m : Memory) (stack_max : ℕ) (aligned : stack_max % 4 ≡ 0) (lo : 12 ≤ stack_max)
    (hi : stack_max ≤ m.size) (w : m.size < 2 ^ 32) where
  abbrev one : Memory
  one = stored m 0 emsc

  abbrev two : Memory
  two = stored one (stack_max - 4) stack_cookie_1

  below : (k : ℕ) → k ≤ 12 → sub_u32 stack_max k ≡ stack_max - k
  below k h = omega arith

  aligned_bits : (bit_and stack_max 3 == 0) ≡ true
  aligned_bits =
      let e : bit_and stack_max 3 ≡ stack_max % 4 = bit_and_0x03 stack_max in ground arith

  write_cookies : write_stack_cookie (stored m 0 emsc) stack_max ≡ returns (marked m stack_max)
  unfolding write_stack_cookie marked
  write_cookies =
      rw
        (
          aligned_bits,
          below 4 (omega arith),
          below 8 (omega arith),
          i32_store-ok (stored m 0 emsc) (stack_max - 4) stack_cookie_1 (omega arith) (omega arith),
        )
        (i32_store-ok (stored (stored m 0 emsc) (stack_max - 4) stack_cookie_1) (stack_max - 8)
          stack_cookie_2 (omega arith) (omega arith))

  load_marked :
      (a : ℕ)
      → a + 4 ≤ stack_max
      → i32_load (marked m stack_max) a ≡ returns (read_i32 (marked m stack_max).bytes a)
  unfolding marked
  load_marked a h = i32_load-ok (marked m stack_max) a (omega arith) (omega arith)

  first_cookie : read_i32 (marked m stack_max).bytes (stack_max - 4) ≡ stack_cookie_1
  unfolding marked
  first_cookie =
      read-write_i32_ne two.bytes (stack_max - 8) (stack_max - 4) stack_cookie_2 (inr (omega arith))
      ∙ read-write_i32 one.bytes (stack_max - 4) stack_cookie_1 (omega arith)

  second_cookie : read_i32 (marked m stack_max).bytes (stack_max - 8) ≡ stack_cookie_2
  unfolding marked
  second_cookie = read-write_i32 two.bytes (stack_max - 8) stack_cookie_2 (omega arith)

  mark_at_zero : read_i32 (marked m stack_max).bytes 0 ≡ emsc
  unfolding marked
  mark_at_zero =
      read-write_i32_ne two.bytes (stack_max - 8) 0 stack_cookie_2 (inl (omega arith))
      ∙ read-write_i32_ne one.bytes (stack_max - 4) 0 stack_cookie_1 (inl (omega arith))
      ∙ read-write_i32 m.bytes 0 emsc (omega arith)

  check_marked : check_stack_cookie (marked m stack_max) stack_max ≡ returns tt
  unfolding check_stack_cookie
  check_marked =
      rw
        (
          below 4 (omega arith),
          below 8 (omega arith),
          load_marked (stack_max - 4) (omega arith),
          load_marked (stack_max - 8) (omega arith),
          load_marked 0 (omega arith),
          first_cookie,
          second_cookie,
          mark_at_zero,
        )
        refl

-- Where the stack ends inside the memory at a multiple of 4, at 12 or above, and the memory is below
-- 4 GB, the start-up code marks address 0 and the stack's end, its own check of those marks passes,
-- and every other byte keeps its value.
pub mark_memory_lem :
    (m : Memory) (stack_max : ℕ)
    → stack_max % 4 ≡ 0
    → 12 ≤ stack_max
    → stack_max ≤ m.size
    → m.size < 2 ^ 32
    → (mark_memory m stack_max ≡ returns (marked m stack_max))
      × (check_stack_cookie (marked m stack_max) stack_max ≡ returns tt)
      × ((x : ℕ)
          → 4 ≤ x
          → (x + 8 < stack_max) ⊎ (stack_max ≤ x)
          → (marked m stack_max).bytes x ≡ m.bytes x)
unfolding mark_memory
mark_memory_lem m stack_max aligned lo hi w = (
  rw
      (
        i32_store-ok m 0 emsc (omega arith) (omega arith),
        write_cookies m stack_max aligned lo hi w,
        check_marked m stack_max aligned lo hi w,
      )
      refl,
  check_marked m stack_max aligned lo hi w,
  λ x h o. unfold marked in ground arith,
)

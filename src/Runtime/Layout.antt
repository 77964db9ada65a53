-- ===== src/Runtime/Layout.antt =====
-- How `wasm_set_constants` of wasm2c/wasm-rt-impl.cpp lays out linear memory: static data from
-- 1024 on, the temporary double, the cell of the break, the stack, and the dynamic memory.
use wasm_sandboxing.Base.{
  ℕ, ◌+◌, ◌*◌, ◌/◌, ◌%◌, ◌^◌, ◌≤◌, ◌<◌, ◌≡◌, ◌≢◌, ◌⊎◌, inl, inr, refl, true, Bool-cases, ltb, ◌==◌,
  arith,
}
use wasm_sandboxing.Runtime.Memory.{
  Memory, Outcome, returns, aborts, asserted, ◌>>=◌, i32_store, get_total_memory,
}
use wasm_sandboxing.Runtime.Memory.Access.{stored, i32_store-ok}

abbrev pub stack_align : ℕ
stack_align = 16

-- What is returned, and the new `*STATICTOP`; `& -16` clears four bits.
unfoldable pub static_alloc : ℕ → ℕ → Outcome (ℕ × ℕ)
unfolding get_total_memory
static_alloc static_top size =
    let new_top = (static_top + size + 15) % 2 ^ 32 / 16 * 16 in
    do fits ← asserted (ltb new_top get_total_memory); returns (static_top, new_top)

-- The quotient is an integer when `ceil` gets it.
pub align_memory : ℕ → ℕ
align_memory size = size / stack_align * stack_align % 2 ^ 32

abbrev pub total_stack : ℕ
total_stack = 5242880

abbrev pub global_base : ℕ
global_base = 1024

pub record Constants : Type 0 where
  pub temp_double_ptr : ℕ
  pub dynamictop_ptr : ℕ
  pub stack_top : ℕ
  pub stack_max : ℕ
  pub dynamic_base : ℕ

-- `*STATIC_BUMP` is the module's.
unfoldable pub set_constants : Memory → ℕ → Outcome (Memory × Constants)
unfolding get_total_memory static_alloc align_memory
set_constants m static_bump = do
  let temp_double_ptr = (global_base + static_bump) % 2 ^ 32
  aligned ← asserted (temp_double_ptr % 8 == 0)
  (dynamictop_ptr, static_top) ← static_alloc ((temp_double_ptr + 16) % 2 ^ 32) 4
  let stack_base = align_memory static_top
  let stack_max = (stack_base + total_stack) % 2 ^ 32
  let dynamic_base = align_memory stack_max
  m' ← i32_store m dynamictop_ptr dynamic_base
  fits ← asserted (ltb dynamic_base get_total_memory)
  returns (
    m',
    record {
      temp_double_ptr = temp_double_ptr;
      dynamictop_ptr = dynamictop_ptr;
      stack_top = stack_base;
      stack_max = stack_max;
      dynamic_base = dynamic_base;
    },
  )

-- Regions that follow one another without overlap, aligned to 8 and to 16 bytes.
pub record IsLaidOut (static_bump : ℕ) (c : Constants) : Type 0 where
  pub temp_double : c.temp_double_ptr ≡ 1024 + static_bump
  pub temp_double_aligned : c.temp_double_ptr % 8 ≡ 0
  pub break_cell : c.dynamictop_ptr ≡ c.temp_double_ptr + 16
  pub stack_above : c.dynamictop_ptr + 4 ≤ c.stack_top
  pub little_lost : c.stack_top ≤ c.dynamictop_ptr + 4 + 15
  pub stack_aligned : c.stack_top % 16 ≡ 0
  pub stack_size : c.stack_max ≡ c.stack_top + 5242880
  pub dynamic_above : c.dynamic_base ≡ c.stack_max
  pub room : c.dynamic_base < 0x7fff0000

static_alloc-returns :
    (top : ℕ)
    → top + 4 + 15 < 0x7fff0000
    → static_alloc top 4 ≡ returns (top, (top + 4 + 15) % 2 ^ 32 / 16 * 16)
unfolding static_alloc get_total_memory
static_alloc-returns top h =
    let e : ltb ((top + 4 + 15) % 2 ^ 32 / 16 * 16) 0x7fff0000 ≡ true = ground arith in rw e refl

module _ (static_bump : ℕ) where
  abbrev double : ℕ
  double = (global_base + static_bump) % 2 ^ 32

  abbrev cell : ℕ
  cell = (double + 16) % 2 ^ 32

  abbrev stack : ℕ
  stack = align_memory ((cell + 4 + 15) % 2 ^ 32 / 16 * 16)

  abbrev dynamic : ℕ
  dynamic = align_memory ((stack + total_stack) % 2 ^ 32)

  abbrev layout : Constants
  layout = record {
    temp_double_ptr = double;
    dynamictop_ptr = cell;
    stack_top = stack;
    stack_max = (stack + total_stack) % 2 ^ 32;
    dynamic_base = dynamic;
  }

  module _ (h : static_bump + 5244000 < 0x7fff0000) where
    layout-IsLaidOut : static_bump % 8 ≡ 0 → IsLaidOut static_bump layout
    unfolding align_memory
    layout-IsLaidOut a = record {
      temp_double = omega arith;
      temp_double_aligned = omega arith;
      break_cell = omega arith;
      stack_above = omega arith;
      little_lost = omega arith;
      stack_aligned = omega arith;
      stack_size = omega arith;
      dynamic_above = omega arith;
      room = omega arith;
    }

    dynamic_fits : ltb dynamic 0x7fff0000 ≡ true
    unfolding align_memory
    dynamic_fits = let lt : dynamic < 0x7fff0000 = omega arith in ground arith

    set_constants-returns :
        (m : Memory)
        → m.size ≡ 0x7fff0000
        → (double % 8 == 0) ≡ true
        → set_constants m static_bump ≡ returns (stored m cell dynamic, layout)
    unfolding set_constants get_total_memory
    set_constants-returns m k a =
        rw
          (
            a,
            static_alloc-returns cell (omega arith),
            i32_store-ok m cell dynamic (omega arith) (omega arith),
            dynamic_fits,
          )
          refl

-- Where the static data leave room for the stack in the total memory, and the memory has that
-- size: if the size of the static data is a multiple of 8, start-up stores the start of the dynamic
-- memory at the break's cell and returns a layout in which nothing wraps round, the regions follow
-- one another without overlap, the temporary double is aligned to 8 bytes, the stack and the
-- dynamic memory to 16, the stack has its full size, at most 15 bytes are lost below it, and the
-- dynamic memory starts where it ends; if it is not a multiple of 8, start-up aborts.
pub set_constants_lem :
    (m : Memory) (static_bump : ℕ)
    → static_bump + 5244000 < 0x7fff0000
    → m.size ≡ 0x7fff0000
    → ((c : Constants) × (set_constants m static_bump
          ≡ returns (stored m c.dynamictop_ptr c.dynamic_base, c))
        × (static_bump % 8 ≡ 0)
        × IsLaidOut static_bump c)
      ⊎ ((static_bump % 8 ≢ 0) × (set_constants m static_bump ≡ aborts))
unfolding set_constants
set_constants_lem m static_bump h k =
    let whole : double static_bump ≡ 1024 + static_bump = omega arith in
    elim (Bool-cases (double static_bump % 8 == 0)) [
      | inl a ↦
          let b : double static_bump % 8 ≡ 0 = ground arith in
          let c : static_bump % 8 ≡ 0 = omega (arith, whole, b) in
          inl (
            layout static_bump,
            set_constants-returns static_bump h m k a,
            c,
            layout-IsLaidOut static_bump h c,
          )
      | inr a ↦
          let b : double static_bump % 8 ≢ 0 = λ z. absurd (ground arith) in
          inr (λ c. b (omega (arith, whole, c)), rw a refl)
    ]

-- `alignMemory` rounds down to a multiple of 16, so a size that is not one gives a smaller result.
pub align_memory_rounds_down :
    (size : ℕ)
    → size < 2 ^ 32
    → (align_memory size ≤ size) × (size < align_memory size + 16) × (align_memory size % 16 ≡ 0)
unfolding align_memory
align_memory_rounds_down size h = omega arith

-- ===== src/Runtime/Memory.antt =====
-- Linear memory and what the runtime does in it (wasm2c/wasm-rt-impl.cpp, wasm2c/wasm-rt.h).
-- `bytes` gives the byte at each offset from the base; those from `size` on are not the
-- sandbox's. The host is little-endian, as the supported x86-64 is.
pub mod Access
pub mod Cookie
pub mod Sbrk
use wasm_sandboxing.Base.{
  ℕ, ◌+◌, ◌-◌, ◌*◌, ◌/◌, ◌%◌, ◌^◌, Bool, true, false, not, ◌&&◌, ◌||◌, ltb, leb, ◌==◌,
  if◌then◌else◌, bit_and,
}

pub record Memory : Type 0 where
  pub bytes : ℕ → ℕ
  pub pages : ℕ
  pub max_pages : ℕ
  pub size : ℕ

-- `wasm_rt_trap_t`, and how a call ends: `longjmp` for a trap, `abort` for the rest.
pub data Trap : Type 0 where
  oob int_overflow div_by_zero invalid_conversion unreachable call_indirect exhaustion : Trap

pub data Outcome {ℓ} (A : Type ℓ) : Type ℓ where
  returns : A → Outcome A
  traps : Trap → Outcome A
  aborts : Outcome A

infixl 5 ◌>>=◌
abbrev pub ◌>>=◌ {ℓ κ} : {A : Type ℓ} {B : Type κ} → Outcome A → (A → Outcome B) → Outcome B
returns a >>= f = f a
traps t >>= f = traps t
aborts >>= f = aborts

-- `assert`, which the runtime's build does not compile out.
abbrev pub asserted : Bool → Outcome (Unit {0})
asserted b = if b then returns tt else aborts

-- `MEMCHECK` for four bytes: the sum is a 64-bit one.
abbrev out_of_bounds : Memory → ℕ → Bool
out_of_bounds m addr = ltb m.size ((addr + 4) % 2 ^ 64)

abbrev read_i32 : (ℕ → ℕ) → ℕ → ℕ
read_i32 d a = d a + 2 ^ 8 * d (a + 1) + 2 ^ 16 * d (a + 2) + 2 ^ 24 * d (a + 3)

abbrev write_i32 : (ℕ → ℕ) → ℕ → ℕ → ℕ → ℕ
write_i32 d a v x =
    if x == a
    then v % 2 ^ 8
    else if x == a + 1
    then v / 2 ^ 8 % 2 ^ 8
    else if x == a + 2
    then v / 2 ^ 16 % 2 ^ 8
    else if x == a + 3
    then v / 2 ^ 24 % 2 ^ 8
    else d x

pub i32_load : Memory → ℕ → Outcome ℕ
i32_load m addr = if out_of_bounds m addr then traps oob else returns (read_i32 m.bytes addr)

unfoldable pub i32_store : Memory → ℕ → ℕ → Outcome Memory
i32_store m addr v =
    if out_of_bounds m addr
    then traps oob
    else returns (record m { bytes = write_i32 m.bytes addr (v % 2 ^ 32) })

abbrev sub_u32 : ℕ → ℕ → ℕ
sub_u32 a b = (a + 2 ^ 32 - b) % 2 ^ 32

abbrev pub stack_cookie_1 : ℕ
stack_cookie_1 = 0x02135467

abbrev pub stack_cookie_2 : ℕ
stack_cookie_2 = 0x89bacdfe

abbrev pub emsc : ℕ
emsc = 0x63736d65

pub write_stack_cookie : Memory → ℕ → Outcome Memory
write_stack_cookie m stack_max = do
  aligned ← asserted (bit_and stack_max 3 == 0)
  m' ← i32_store m (sub_u32 stack_max 4) stack_cookie_1
  i32_store m' (sub_u32 stack_max 8) stack_cookie_2

pub check_stack_cookie : Memory → ℕ → Outcome (Unit {0})
check_stack_cookie m stack_max = do
  c1 ← i32_load m (sub_u32 stack_max 4)
  c2 ← i32_load m (sub_u32 stack_max 8)
  if not (c1 == stack_cookie_1) || not (c2 == stack_cookie_2)
      then aborts
      else do nc ← i32_load m 0; if not (nc == emsc) then aborts else returns tt

-- The last lines of `wasm_init_module` before the constructors run.
pub mark_memory : Memory → ℕ → Outcome Memory
unfolding write_stack_cookie check_stack_cookie
mark_memory m stack_max = do
  m1 ← i32_store m 0 emsc
  m2 ← write_stack_cookie m1 stack_max
  checked ← check_stack_cookie m2 stack_max
  returns m2

-- `loc` is what the module's `__errno_location` answers.
pub set_err_no : Memory → ℕ → ℕ → Outcome Memory
set_err_no m loc value = i32_store m loc value

abbrev pub page_size : ℕ
page_size = 65536

-- 2 GB less a page.
unfoldable pub get_total_memory : ℕ
get_total_memory = (0x80000000 - page_size) % 2 ^ 32

pub enlarge_memory : Outcome ℕ
enlarge_memory = aborts

pub memcpy_big : Memory → ℕ → ℕ → ℕ → Memory × ℕ
memcpy_big m dest src num = (
  record m {
    bytes = λ x. if leb dest x && ltb x (dest + num) then m.bytes (src + (x - dest)) else m.bytes x;
  },
  dest,
)

-- An `int32_t` is its bit pattern.
abbrev is_negative : ℕ → Bool
is_negative v = leb (2 ^ 31) v

abbrev signed_lt : ℕ → ℕ → Bool
signed_lt a b = ltb ((a + 2 ^ 31) % 2 ^ 32) ((b + 2 ^ 31) % 2 ^ 32)

-- The new break wrapped round, or is below 0.
abbrev sbrk_fails : ℕ → ℕ → ℕ → Bool
sbrk_fails old increment new = (signed_lt 0 increment && signed_lt new old) || is_negative new

pub sbrk_impl : Memory → ℕ → ℕ → ℕ → Outcome (Memory × ℕ)
unfolding i32_load i32_store get_total_memory enlarge_memory set_err_no
sbrk_impl m dynamictop_ptr errno increment = do
  old_dynamic_top ← i32_load m dynamictop_ptr
  let new_dynamic_top = (old_dynamic_top + increment) % 2 ^ 32
  if sbrk_fails old_dynamic_top increment new_dynamic_top then aborts else do
    m1 ← i32_store m dynamictop_ptr new_dynamic_top
    if signed_lt get_total_memory new_dynamic_top
        then (do
          enlarged ← enlarge_memory
          if enlarged == 0
              then (do
                m2 ← i32_store m1 dynamictop_ptr old_dynamic_top
                m3 ← set_err_no m2 errno 12
                returns (m3, 2 ^ 32 - 1))
              else returns (m1, old_dynamic_top))
        else returns (m1, old_dynamic_top)

unfoldable pub build_environment : Memory → ℕ → Outcome Memory
build_environment m ptr = i32_store m ptr 0

-- `calloc` succeeds.
unfoldable pub allocate_memory : ℕ → ℕ → Memory
allocate_memory initial_pages max_pages = record {
  bytes = λ x. 0;
  pages = initial_pages;
  max_pages = max_pages;
  size = initial_pages * page_size % 2 ^ 32;
}

unfoldable pub grow_memory : Memory → ℕ → Outcome (Memory × ℕ)
grow_memory m pages = aborts

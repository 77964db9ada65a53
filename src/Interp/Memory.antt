-- ===== src/Interp/Memory.antt =====
-- The instructions of src/interp.cc that access a memory. An access is of a `MemType` in memory and
-- of a `ResultType`, of `w` bits, on the stack.
pub mod Bytes
pub mod RoundTrip
pub mod Grow
use wasm_sandboxing.Base.{
  ℕ, ◌+◌, ◌-◌, ◌*◌, ◌/◌, ◌%◌, ◌^◌, Bool, true, false, not, ◌&&◌, ltb, leb, ◌==◌, if◌then◌else◌,
}
use wasm_sandboxing.Interp.State.{
  Memory, Limits, Environment, Thread, Flow, next, M, ◌>>=◌, ◌>>◌, pure, trap_if, put, read_bytes,
  read_u32, push_rep, pop_rep, memory_access_out_of_bounds, atomic_memory_access_unaligned,
}
use wasm_sandboxing.Interp.Host.{CType, bits, is_signed}
use wasm_sandboxing.Interp.Ints.{sign_extend}

-- `sizeof`
abbrev pub size_of : CType → ℕ
size_of c = bits c / 8

-- `memcpy` to memory of the `n` bytes of `v`, lowest first.
abbrev pub write_bytes : (ℕ → ℕ) → ℕ → ℕ → ℕ → ℕ → ℕ
write_bytes d a n v x = if leb a x && ltb x (a + n) then v / 2 ^ (8 * (x - a)) % 2 ^ 8 else d x

unfoldable pub memory_at : ℕ → M Memory
memory_at i t = (next (t.env.memories i), t)

unfoldable pub set_memory : ℕ → Memory → M (Unit {0})
set_memory i m t = (next tt, record t { env = record t.env { memories = put t.env.memories i m } })

-- The index of the memory and the offset into it, for an access of `n` bytes.
unfoldable pub get_access_address : ℕ → M (ℕ × ℕ)
unfolding read_u32 pop_rep memory_at
get_access_address n = do
  i ← read_u32
  memory ← memory_at i
  base ← pop_rep 32
  offset ← read_u32
  trap_if (ltb memory.data_size (base + offset + n)) memory_access_out_of_bounds
  pure (i, (base + offset) % 2 ^ 32)

-- `addr & (n - 1)`, for `n` a power of two.
unfoldable pub get_atomic_access_address : ℕ → M (ℕ × ℕ)
unfolding read_u32 pop_rep memory_at
get_atomic_access_address n = do
  i ← read_u32
  memory ← memory_at i
  base ← pop_rep 32
  offset ← read_u32
  trap_if (ltb memory.data_size (base + offset + n)) memory_access_out_of_bounds
  trap_if (not ((base + offset) % n == 0)) atomic_memory_access_unaligned
  pure (i, (base + offset) % 2 ^ 32)

unfoldable pub load_from_memory : ℕ → ℕ × ℕ → M ℕ
unfolding memory_at
load_from_memory n (i, addr) = do memory ← memory_at i; pure (read_bytes memory.bytes addr n)

unfoldable pub store_to_memory : ℕ → ℕ × ℕ → ℕ → M (Unit {0})
unfolding memory_at set_memory
store_to_memory n (i, addr) v = do
  memory ← memory_at i
  set_memory i (record memory { bytes = write_bytes memory.bytes addr n v })

-- `static_cast<ExtendedType>`, as the pattern that is pushed.
abbrev pub extended : CType → ℕ → ℕ → ℕ
extended c w v = if is_signed c then sign_extend w (bits c) v else v

unfoldable pub load : CType → ℕ → M (Unit {0})
unfolding get_access_address load_from_memory push_rep sign_extend
load c w = do
  src ← get_access_address (size_of c)
  value ← load_from_memory (size_of c) src
  push_rep w (extended c w value)

unfoldable pub store : CType → ℕ → M (Unit {0})
unfolding get_access_address store_to_memory pop_rep
store c w = do
  value ← pop_rep w
  dst ← get_access_address (size_of c)
  store_to_memory (size_of c) dst (value % 2 ^ bits c)

unfoldable pub atomic_load : CType → ℕ → M (Unit {0})
unfolding get_atomic_access_address load_from_memory push_rep sign_extend
atomic_load c w = do
  src ← get_atomic_access_address (size_of c)
  value ← load_from_memory (size_of c) src
  push_rep w (extended c w value)

unfoldable pub atomic_store : CType → ℕ → M (Unit {0})
unfolding get_atomic_access_address store_to_memory pop_rep
atomic_store c w = do
  value ← pop_rep w
  dst ← get_atomic_access_address (size_of c)
  store_to_memory (size_of c) dst (value % 2 ^ bits c)

unfoldable pub atomic_rmw : (ℕ → ℕ → ℕ) → CType → ℕ → M (Unit {0})
unfolding get_atomic_access_address load_from_memory store_to_memory pop_rep push_rep sign_extend
atomic_rmw func c w = do
  rhs ← pop_rep w
  addr ← get_atomic_access_address (size_of c)
  read ← load_from_memory (size_of c) addr
  store_to_memory (size_of c) addr (func read (rhs % 2 ^ bits c) % 2 ^ bits c)
  push_rep w (extended c w read)

unfoldable pub atomic_rmw_cmpxchg : CType → ℕ → M (Unit {0})
unfolding get_atomic_access_address load_from_memory store_to_memory pop_rep push_rep sign_extend
atomic_rmw_cmpxchg c w = do
  replace ← pop_rep w
  expect ← pop_rep w
  addr ← get_atomic_access_address (size_of c)
  read ← load_from_memory (size_of c) addr
  (if read == expect % 2 ^ bits c
      then store_to_memory (size_of c) addr (replace % 2 ^ bits c)
      else pure tt)
  push_rep w (extended c w read)

abbrev pub page_size : ℕ
page_size = 0x10000

abbrev pub max_pages : ℕ
max_pages = 0x10000

unfoldable pub memory_size : M (Unit {0})
unfolding read_u32 memory_at push_rep
memory_size = do i ← read_u32; memory ← memory_at i; push_rep 32 memory.page_limits.initial

-- `data.resize`: new bytes are 0.
abbrev pub resized : Memory → ℕ → Memory
resized m pages = record m {
  page_limits = record m.page_limits { initial = pages };
  bytes = λ x. if ltb x m.data_size then m.bytes x else 0;
  data_size = pages * page_size % 2 ^ 32;
}

-- `none` of the two tests of `memory.grow`, on the new number of pages.
abbrev pub grow_fails : Memory → ℕ → Bool
grow_fails m new_page_size =
    let limit = if m.page_limits.has_max then m.page_limits.max else max_pages in
    if ltb limit new_page_size then true else ltb (2 ^ 32 - 1) (new_page_size * page_size)

unfoldable pub memory_grow : M (Unit {0})
unfolding read_u32 memory_at set_memory push_rep pop_rep
memory_grow = do
  i ← read_u32
  memory ← memory_at i
  grow_pages ← pop_rep 32
  let old_page_size = memory.page_limits.initial
  let new_page_size = (old_page_size + grow_pages) % 2 ^ 32
  if grow_fails memory new_page_size
      then push_rep 32 (2 ^ 32 - 1)
      else do set_memory i (resized memory new_page_size); push_rep 32 old_page_size

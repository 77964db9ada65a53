-- ===== src/Interp/Ops/Vectors.antt =====
-- The constant, the accesses, the shuffle and the selection of 128-bit values of `Thread::Run`
-- (src/interp.cc).
use wasm_sandboxing.Base.{ℕ, ◌-◌, ltb, if◌then◌else◌}
use wasm_sandboxing.Interp.State.{M, ◌>>=◌, ◌>>◌, read_v128, push_rep, pop_rep}
use wasm_sandboxing.Interp.Host.{uint64}
use wasm_sandboxing.Interp.Ints.{int_and, int_or, int_not}
use wasm_sandboxing.Interp.Memory.{get_access_address, load_from_memory, store_to_memory}
use wasm_sandboxing.Interp.Operators.{lane, of_lanes, simd_unop, simd_binop}

-- `Load<v128>` and `Store<v128>`
unfoldable pub load_v128 : M (Unit {0})
unfolding get_access_address load_from_memory push_rep
load_v128 = do src ← get_access_address 16; value ← load_from_memory 16 src; push_rep 128 value

unfoldable pub store_v128 : M (Unit {0})
unfolding get_access_address store_to_memory pop_rep
store_v128 = do value ← pop_rep 128; dst ← get_access_address 16; store_to_memory 16 dst value

-- A lane of `v1` for an index below 16 and a lane of `v2` for one below 32. An `int8_t` of 128 or
-- more is negative, so that it reads below `v1`, and one from 32 to 127 reads above `v2`:
-- `outside` is what is found there.
unfoldable pub shuffled : (ℕ → ℕ) → ℕ → ℕ → ℕ → ℕ
shuffled outside v1 v2 lane_idx =
    if ltb lane_idx 16
    then lane 8 v1 lane_idx
    else if ltb lane_idx 32
    then lane 8 v2 (lane_idx - 16)
    else outside lane_idx

unfoldable pub shuffle : (ℕ → ℕ) → M (Unit {0})
unfolding read_v128 push_rep pop_rep shuffled
shuffle outside = do
  v2 ← pop_rep 128
  v1 ← pop_rep 128
  shuffle_imm ← read_v128
  push_rep 128 (of_lanes 8 16 λ i. shuffled outside v1 v2 (lane 8 shuffle_imm i))

unfoldable pub bit_select : M (Unit {0})
unfolding push_rep pop_rep simd_unop simd_binop int_and int_or int_not
bit_select = do
  c_mask ← pop_rep 128
  v2 ← pop_rep 128
  v1 ← pop_rep 128
  push_rep 128 v1
  push_rep 128 c_mask
  simd_binop uint64 64 (int_and 64)
  push_rep 128 v2
  push_rep 128 c_mask
  simd_unop uint64 64 (int_not 64)
  simd_binop uint64 64 (int_and 64)
  simd_binop uint64 64 (int_or 64)

pub data VectorOp : Type 0 where
  v128_const v128_load v128_store v8x16_shuffle v128_bit_select : VectorOp

unfoldable pub run_vector : (ℕ → ℕ) → VectorOp → M (Unit {0})
unfolding read_v128 push_rep load_v128 store_v128 shuffle bit_select
run_vector outside v128_const = read_v128 >>= push_rep 128
run_vector outside v128_load = load_v128
run_vector outside v128_store = store_v128
run_vector outside v8x16_shuffle = shuffle outside
run_vector outside v128_bit_select = bit_select

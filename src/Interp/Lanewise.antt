-- ===== src/Interp/Lanewise.antt =====
-- Instructions on a lane that is named in the instruction stream, and the lane-wise shifts
-- (src/interp.cc). A lane's index that is out of range is undefined behaviour of the program.
use wasm_sandboxing.Base.{ℕ, ◌%◌}
use wasm_sandboxing.Interp.State.{M, ◌>>=◌, ◌>>◌, push_rep, pop_rep, read_u8}
use wasm_sandboxing.Interp.Host.{CType}
use wasm_sandboxing.Interp.Operators.{simd_splat, simd_binop}

unfoldable pub extract_lane : ℕ → (ℕ → ℕ → ℕ) → M (Unit {0})
unfolding push_rep pop_rep read_u8
extract_lane w func = do value ← pop_rep 128; lane_idx ← read_u8; push_rep w (func value lane_idx)

unfoldable pub replace_lane : ℕ → (ℕ → ℕ → ℕ → ℕ) → M (Unit {0})
unfolding push_rep pop_rep read_u8
replace_lane w func = do
  lane_val ← pop_rep w
  value ← pop_rep 128
  lane_idx ← read_u8
  push_rep 128 (func value lane_idx lane_val)

-- The count is spread over all lanes and the shift applied lane by lane.
unfoldable pub simd_shift : ℕ → CType → CType → ℕ → (ℕ → ℕ → ℕ) → M (Unit {0})
unfolding push_rep pop_rep simd_splat simd_binop
simd_shift w splat c p func = do
  shift_count ← pop_rep 32
  push_rep 128 (simd_splat splat (shift_count % w))
  simd_binop c p func

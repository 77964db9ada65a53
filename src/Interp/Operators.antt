-- ===== src/Interp/Operators.antt =====
-- How an operator takes its operands from the stack and puts its result back, for numbers and
-- lane by lane (src/interp.cc). A template argument stands as its type or as its width.
use wasm_sandboxing.Base.{ℕ, zero, suc, ◌+◌, ◌*◌, ◌/◌, ◌%◌, ◌^◌, leb, ◌==◌, if◌then◌else◌}
use wasm_sandboxing.Interp.State.{Result, ok, M, ◌>>=◌, pure, trap, push_rep, pop_rep}
use wasm_sandboxing.Interp.Host.{CType, bits, is_signed}
use wasm_sandboxing.Interp.Ints.{sign_extend}

abbrev pub checked : Result × ℕ → M ℕ
checked (ok, v) = pure v
checked (r, v) = trap r

-- `Unop<R, T>`, with the widths of `R` and `T`.
unfoldable pub unop : ℕ → ℕ → (ℕ → ℕ) → M (Unit {0})
unfolding push_rep pop_rep
unop r w func = do value ← pop_rep w; push_rep r (func value)

unfoldable pub unop_trap : ℕ → ℕ → (ℕ → Result × ℕ) → M (Unit {0})
unfolding push_rep pop_rep
unop_trap r w func = do value ← pop_rep w; result ← checked (func value); push_rep r result

unfoldable pub binop : ℕ → ℕ → (ℕ → ℕ → ℕ) → M (Unit {0})
unfolding push_rep pop_rep
binop r w func = do rhs ← pop_rep w; lhs ← pop_rep w; push_rep r (func lhs rhs)

unfoldable pub binop_trap : ℕ → ℕ → (ℕ → ℕ → Result × ℕ) → M (Unit {0})
unfolding push_rep pop_rep
binop_trap r w func = do
  rhs ← pop_rep w
  lhs ← pop_rep w
  result ← checked (func lhs rhs)
  push_rep r result

-- The lane `i` of `w` bits of a 128-bit value.
abbrev pub lane : ℕ → ℕ → ℕ → ℕ
lane w v i = v / 2 ^ (w * i) % 2 ^ w

-- The value with the lanes `f 0`, ..., `f (n - 1)`.
abbrev pub of_lanes : ℕ → ℕ → (ℕ → ℕ) → ℕ
of_lanes w zero f = 0
of_lanes w (suc n) f = of_lanes w n f + 2 ^ (w * n) * (f n % 2 ^ w)

abbrev pub lanes : CType → ℕ
lanes c = 128 / bits c

-- A lane of type `c` as an argument of `p` bits.
abbrev pub lane_argument : CType → ℕ → ℕ → ℕ
lane_argument c p v = if is_signed c then sign_extend p (bits c) v else v

unfoldable pub simd_unop : CType → ℕ → (ℕ → ℕ) → M (Unit {0})
unfolding push_rep pop_rep sign_extend
simd_unop c p func = do
  value ← pop_rep 128
  push_rep 128 (of_lanes (bits c) (lanes c) λ i. func (lane_argument c p (lane (bits c) value i)))

unfoldable pub simd_binop : CType → ℕ → (ℕ → ℕ → ℕ) → M (Unit {0})
unfolding push_rep pop_rep sign_extend
simd_binop c p func = do
  rhs ← pop_rep 128
  lhs ← pop_rep 128
  push_rep 128 (
      of_lanes (bits c) (lanes c) λ i.
        func (lane_argument c p (lane (bits c) lhs i)) (lane_argument c p (lane (bits c) rhs i)))

unfoldable pub true_lanes : CType → ℕ → ℕ → ℕ
true_lanes c value zero = 0
true_lanes c value (suc n) = true_lanes c value n + (if lane (bits c) value n == 0 then 0 else 1)

unfoldable pub simd_is_lane_true : CType → ℕ → ℕ → ℕ
unfolding true_lanes
simd_is_lane_true c true_cond value = if leb true_cond (true_lanes c value (lanes c)) then 1 else 0

unfoldable pub simd_splat : CType → ℕ → ℕ
simd_splat c lane_data = of_lanes (bits c) (lanes c) λ i. lane_data

-- `static_cast<R>` of the lane, for an `R` of `r` bits; the lane's index is in range.
unfoldable pub simd_extract_lane : CType → ℕ → ℕ → ℕ → ℕ
unfolding sign_extend
simd_extract_lane c r value lane_idx = lane_argument c r (lane (bits c) value lane_idx)

unfoldable pub simd_replace_lane : CType → ℕ → ℕ → ℕ → ℕ
simd_replace_lane c value lane_idx lane_val =
    of_lanes (bits c) (lanes c) λ i. if i == lane_idx then lane_val else lane (bits c) value i

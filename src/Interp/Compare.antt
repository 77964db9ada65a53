-- ===== src/Interp/Compare.antt =====
-- The comparisons of src/interp.cc, for integers and floats.
use wasm_sandboxing.Base.{ℕ, ◌==◌, not, if◌then◌else◌}
use wasm_sandboxing.Interp.Host.{Host, CType, bits, is_float}
use wasm_sandboxing.Interp.Ints.{to_rep, int_lt}

module _ (host : Host) (t : CType) where
  unfoldable pub eq : ℕ → ℕ → ℕ
  eq lhs rhs = to_rep (if is_float t then host.float_eq (bits t) lhs rhs else lhs == rhs)

  unfoldable pub ne : ℕ → ℕ → ℕ
  ne lhs rhs = to_rep (not (if is_float t then host.float_eq (bits t) lhs rhs else lhs == rhs))

  unfoldable pub lt : ℕ → ℕ → ℕ
  lt lhs rhs = to_rep (if is_float t then host.float_lt (bits t) lhs rhs else int_lt t lhs rhs)

  unfoldable pub le : ℕ → ℕ → ℕ
  le lhs rhs =
      to_rep (if is_float t then host.float_le (bits t) lhs rhs else not (int_lt t rhs lhs))

  unfoldable pub gt : ℕ → ℕ → ℕ
  gt lhs rhs = to_rep (if is_float t then host.float_lt (bits t) rhs lhs else int_lt t rhs lhs)

  unfoldable pub ge : ℕ → ℕ → ℕ
  ge lhs rhs =
      to_rep (if is_float t then host.float_le (bits t) rhs lhs else not (int_lt t lhs rhs))

-- ===== src/Interp/Host.antt =====
-- The number types of the templates of src/interp.cc, and what its code takes from elsewhere: the
-- compiler's bit counts and its floating-point arithmetic, and the functions that the embedder
-- registers. A float is its bit pattern, and the first argument of an operation its width.
use wasm_sandboxing.Base.{ℕ, Bool, true, false, List}
use wasm_sandboxing.Interp.State.{Result, FuncSignature, TypedValue, Environment}

pub data CType : Type 0 where
  uint8 int8 uint16 int16 uint32 int32 uint64 int64 float double : CType

abbrev pub bits : CType → ℕ
bits uint8 = 8
bits int8 = 8
bits uint16 = 16
bits int16 = 16
bits uint32 = 32
bits int32 = 32
bits uint64 = 64
bits int64 = 64
bits float = 32
bits double = 64

-- Whether it is a signed integer.
abbrev pub is_signed : CType → Bool
is_signed int8 = true
is_signed int16 = true
is_signed int32 = true
is_signed int64 = true
is_signed _ = false

abbrev pub is_float : CType → Bool
is_float float = true
is_float double = true
is_float _ = false

-- `callback` gives what a callback of that number returns, the array of its results and the
-- environment after it. `to_int` and `of_int` are the casts between the integer type and the float
-- of that width. `beyond_array` is the byte found at an index that is outside of an array.
pub record Host : Type 0 where
  pub count_leading_zeros : ℕ → ℕ → ℕ
  pub count_trailing_zeros : ℕ → ℕ → ℕ
  pub count_ones : ℕ → ℕ → ℕ
  pub float_add : ℕ → ℕ → ℕ → ℕ
  pub float_sub : ℕ → ℕ → ℕ → ℕ
  pub float_mul : ℕ → ℕ → ℕ → ℕ
  pub float_div : ℕ → ℕ → ℕ → ℕ
  pub float_eq : ℕ → ℕ → ℕ → Bool
  pub float_lt : ℕ → ℕ → ℕ → Bool
  pub float_le : ℕ → ℕ → ℕ → Bool
  pub ceil : ℕ → ℕ → ℕ
  pub floor : ℕ → ℕ → ℕ
  pub trunc : ℕ → ℕ → ℕ
  pub nearbyint : ℕ → ℕ → ℕ
  pub sqrt : ℕ → ℕ → ℕ
  pub to_int : CType → ℕ → ℕ → ℕ
  pub of_int : CType → ℕ → ℕ → ℕ
  pub demote : ℕ → ℕ
  pub promote : ℕ → ℕ
  pub beyond_array : ℕ → ℕ
  pub callback :
      ℕ → FuncSignature → List TypedValue → Environment → Result × (ℕ → TypedValue) × Environment

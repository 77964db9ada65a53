-- ===== src/Interp/Floats.antt =====
-- The operations of src/interp.cc on bit patterns of floats, over the host's arithmetic.
use wasm_sandboxing.Base.{
  ℕ, ◌-◌, ◌/◌, ◌%◌, ◌^◌, Bool, false, not, ◌&&◌, ◌||◌, ltb, leb, ◌==◌, if◌then◌else◌, bit_and,
  bit_or, bit_xor, min, max,
}
use wasm_sandboxing.Interp.State.{Result, ok, integer_overflow, invalid_conversion_to_integer}
use wasm_sandboxing.Interp.Host.{CType, uint32, int32, uint64, int64, float, bits, is_signed, Host}

pub record FloatTraits : Type 0 where
  pub width : ℕ
  pub inf : ℕ
  pub neg_inf : ℕ
  pub neg_one : ℕ
  pub neg_zero : ℕ
  pub quiet_nan : ℕ
  pub quiet_neg_nan : ℕ
  pub quiet_nan_bit : ℕ
  pub sig_bits : ℕ
  pub sig_mask : ℕ
  pub sign_mask : ℕ

abbrev pub float_traits : FloatTraits
float_traits = record {
  width = 32;
  inf = 0x7f800000;
  neg_inf = 0xff800000;
  neg_one = 0xbf800000;
  neg_zero = 0x80000000;
  quiet_nan = 0x7fc00000;
  quiet_neg_nan = 0xffc00000;
  quiet_nan_bit = 0x00400000;
  sig_bits = 23;
  sig_mask = 0x7fffff;
  sign_mask = 0x80000000;
}

abbrev pub float_max : ℕ
float_max = 0x7f7fffff

abbrev pub float_neg_max : ℕ
float_neg_max = 0xff7fffff

abbrev pub double_traits : FloatTraits
double_traits = record {
  width = 64;
  inf = 0x7ff0000000000000;
  neg_inf = 0xfff0000000000000;
  neg_one = 0xbff0000000000000;
  neg_zero = 0x8000000000000000;
  quiet_nan = 0x7ff8000000000000;
  quiet_neg_nan = 0xfff8000000000000;
  quiet_nan_bit = 0x0008000000000000;
  sig_bits = 52;
  sig_mask = 0xfffffffffffff;
  sign_mask = 0x8000000000000000;
}

unfoldable pub is_nan : FloatTraits → ℕ → Bool
is_nan tr v = (ltb tr.inf v && ltb v tr.neg_zero) || ltb tr.neg_inf v

unfoldable pub is_zero : FloatTraits → ℕ → Bool
is_zero tr v = v == 0 || v == tr.neg_zero

unfoldable pub is_canonical_nan : FloatTraits → ℕ → Bool
is_canonical_nan tr v = v == tr.quiet_nan || v == tr.quiet_neg_nan

unfoldable pub is_arithmetic_nan : FloatTraits → ℕ → Bool
is_arithmetic_nan tr v = bit_and v tr.quiet_nan == tr.quiet_nan

-- `IsConversionInRange<R, float>` and `IsConversionInRange<R, double>`.
unfoldable pub is_float_in_range : CType → ℕ → Bool
is_float_in_range int32 v = ltb v 0x4f000000 || (leb 0x80000000 v && leb v 0xcf000000)
is_float_in_range int64 v = ltb v 0x5f000000 || (leb 0x80000000 v && leb v 0xdf000000)
is_float_in_range uint32 v = ltb v 0x4f800000 || (leb 0x80000000 v && ltb v 0xbf800000)
is_float_in_range uint64 v = ltb v 0x5f800000 || (leb 0x80000000 v && ltb v 0xbf800000)
is_float_in_range _ v = false

unfoldable pub is_double_in_range : CType → ℕ → Bool
is_double_in_range int32 v =
    leb v 0x41dfffffffc00000 || (leb 0x8000000000000000 v && leb v 0xc1e0000000000000)
is_double_in_range int64 v =
    ltb v 0x43e0000000000000 || (leb 0x8000000000000000 v && leb v 0xc3e0000000000000)
is_double_in_range uint32 v =
    leb v 0x41efffffffe00000 || (leb 0x8000000000000000 v && ltb v 0xbff0000000000000)
is_double_in_range uint64 v =
    ltb v 0x43f0000000000000 || (leb 0x8000000000000000 v && ltb v 0xbff0000000000000)
is_double_in_range float v =
    leb v 0x47efffffe0000000 || (leb 0x8000000000000000 v && leb v 0xc7efffffe0000000)
is_double_in_range _ v = false

abbrev pub is_in_range : CType → FloatTraits → ℕ → Bool
is_in_range r tr v = if tr.width == 32 then is_float_in_range r v else is_double_in_range r v

unfoldable pub rounds_to_float_max : ℕ → Bool
rounds_to_float_max v = ltb 0x47efffffe0000000 v && ltb v 0x47effffff0000000

unfoldable pub rounds_to_neg_float_max : ℕ → Bool
rounds_to_neg_float_max v = ltb 0xc7efffffe0000000 v && ltb v 0xc7effffff0000000

module _ (host : Host) (tr : FloatTraits) where
  unfoldable pub float_div : ℕ → ℕ → ℕ
  unfolding is_nan is_zero
  float_div lhs rhs =
      if is_zero tr rhs
      then (if is_nan tr lhs
          then bit_or lhs tr.quiet_nan
          else if is_zero tr lhs
          then tr.quiet_nan
          else bit_or (bit_xor (bit_and lhs tr.sign_mask) (bit_and rhs tr.sign_mask)) tr.inf)
      else host.float_div tr.width lhs rhs

  unfoldable pub float_min : ℕ → ℕ → ℕ
  unfolding is_nan is_zero
  float_min lhs rhs =
      if is_nan tr lhs
      then bit_or lhs tr.quiet_nan_bit
      else if is_nan tr rhs
      then bit_or rhs tr.quiet_nan_bit
      else if is_zero tr lhs && is_zero tr rhs
      then max lhs rhs
      else if host.float_lt tr.width rhs lhs
      then rhs
      else lhs

  unfoldable pub float_max_of : ℕ → ℕ → ℕ
  unfolding is_nan is_zero
  float_max_of lhs rhs =
      if is_nan tr lhs
      then bit_or lhs tr.quiet_nan_bit
      else if is_nan tr rhs
      then bit_or rhs tr.quiet_nan_bit
      else if is_zero tr lhs && is_zero tr rhs
      then min lhs rhs
      else if host.float_lt tr.width lhs rhs
      then rhs
      else lhs

  -- A NaN that `std::ceil` and its like return is made quiet.
  unfoldable pub quieted : ℕ → ℕ
  unfolding is_nan
  quieted v = if is_nan tr v then bit_or v tr.quiet_nan_bit else v

  unfoldable pub float_ceil : ℕ → ℕ
  unfolding quieted
  float_ceil v = quieted (host.ceil tr.width v)

  unfoldable pub float_floor : ℕ → ℕ
  unfolding quieted
  float_floor v = quieted (host.floor tr.width v)

  unfoldable pub float_trunc : ℕ → ℕ
  unfolding quieted
  float_trunc v = quieted (host.trunc tr.width v)

  unfoldable pub float_nearest : ℕ → ℕ
  unfolding quieted
  float_nearest v = quieted (host.nearbyint tr.width v)

  unfoldable pub float_sqrt : ℕ → ℕ
  unfolding quieted
  float_sqrt v = quieted (host.sqrt tr.width v)

  unfoldable pub int_trunc : CType → ℕ → Result × ℕ
  unfolding is_nan is_float_in_range is_double_in_range
  int_trunc r v =
      if is_nan tr v
      then (invalid_conversion_to_integer, 0)
      else if not (is_in_range r tr v)
      then (integer_overflow, 0)
      else (ok, host.to_int r tr.width v)

  unfoldable pub int_trunc_sat : CType → ℕ → ℕ
  unfolding is_nan is_float_in_range is_double_in_range
  int_trunc_sat r v =
      if is_nan tr v
      then 0
      else if not (is_in_range r tr v)
      then (if bit_and v tr.sign_mask == 0
          then (if is_signed r then 2 ^ (bits r - 1) - 1 else 2 ^ bits r - 1)
          else if is_signed r
          then 2 ^ (bits r - 1)
          else 0)
      else host.to_int r tr.width v

module _ (tr : FloatTraits) where
  unfoldable pub float_abs : ℕ → ℕ
  float_abs v = bit_and v (2 ^ tr.width - 1 - tr.sign_mask)

  unfoldable pub float_neg : ℕ → ℕ
  float_neg v = bit_xor v tr.sign_mask

  unfoldable pub float_copy_sign : ℕ → ℕ → ℕ
  float_copy_sign lhs rhs =
      bit_or (bit_and lhs (2 ^ tr.width - 1 - tr.sign_mask)) (bit_and rhs tr.sign_mask)

-- `f32.demote/f64`.
unfoldable pub demote_f64 : Host → ℕ → ℕ
unfolding is_nan is_double_in_range rounds_to_float_max rounds_to_neg_float_max
demote_f64 host value =
    let sign = bit_and (value / 2 ^ 32 % 2 ^ 32) float_traits.sign_mask in
    let tag =
      if is_nan double_traits value
      then bit_or float_traits.quiet_nan_bit (
          bit_and (value / 2 ^ (double_traits.sig_bits - float_traits.sig_bits))
            float_traits.sig_mask)
      else 0 in
    if is_double_in_range float value
    then host.demote value
    else if rounds_to_float_max value
    then float_max
    else if rounds_to_neg_float_max value
    then float_neg_max
    else bit_or (bit_or sign float_traits.inf) tag

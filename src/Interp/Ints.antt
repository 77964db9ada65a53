-- ===== src/Interp/Ints.antt =====
-- The integer operations of src/interp.cc. An integer of `w` bits is its bit pattern, a number
-- below `2 ^ w`.
pub mod Signs
pub mod Division
use wasm_sandboxing.Base.{
  ℕ, ◌+◌, ◌-◌, ◌*◌, ◌/◌, ◌%◌, ◌^◌, Bool, true, false, not, ◌&&◌, ltb, leb, ◌==◌, if◌then◌else◌,
  bit_and, bit_or, bit_xor,
}
use wasm_sandboxing.Interp.State.{Result, ok, integer_overflow, integer_divide_by_zero}
use wasm_sandboxing.Interp.Host.{CType, bits, is_signed, Host}

abbrev pub to_rep : Bool → ℕ
to_rep x = if x then 1 else 0

-- Of a signed integer of `w` bits.
abbrev pub is_negative : ℕ → ℕ → Bool
is_negative w a = leb (2 ^ (w - 1)) a

abbrev pub negate : ℕ → ℕ → ℕ
negate w a = (2 ^ w - a) % 2 ^ w

abbrev pub magnitude : ℕ → ℕ → ℕ
magnitude w a = if is_negative w a then 2 ^ w - a else a

-- The order of the type `t`: that of the patterns, with the signs' halves exchanged.
abbrev pub int_lt : CType → ℕ → ℕ → Bool
int_lt t a b =
    if is_signed t
    then ltb ((a + 2 ^ (bits t - 1)) % 2 ^ bits t) ((b + 2 ^ (bits t - 1)) % 2 ^ bits t)
    else ltb a b

unfoldable pub int_add : ℕ → ℕ → ℕ → ℕ
int_add w a b = (a + b) % 2 ^ w

unfoldable pub int_sub : ℕ → ℕ → ℕ → ℕ
int_sub w a b = (a + 2 ^ w - b) % 2 ^ w

unfoldable pub int_mul : ℕ → ℕ → ℕ → ℕ
int_mul w a b = a * b % 2 ^ w

unfoldable pub is_normal_div_rem_s : ℕ → ℕ → ℕ → Bool
is_normal_div_rem_s w lhs rhs = not (lhs == 2 ^ (w - 1) && rhs == 2 ^ w - 1)

-- C++ division of signed integers rounds towards 0, and the remainder has the sign of `lhs`.
unfoldable pub int_div_s : ℕ → ℕ → ℕ → Result × ℕ
unfolding is_normal_div_rem_s
int_div_s w lhs rhs =
    let quotient = magnitude w lhs / magnitude w rhs in
    if rhs == 0
    then (integer_divide_by_zero, 0)
    else if not (is_normal_div_rem_s w lhs rhs)
    then (integer_overflow, 0)
    else if is_negative w lhs
    then (ok, if is_negative w rhs then quotient else negate w quotient)
    else (ok, if is_negative w rhs then negate w quotient else quotient)

unfoldable pub int_rem_s : ℕ → ℕ → ℕ → Result × ℕ
unfolding is_normal_div_rem_s
int_rem_s w lhs rhs =
    let remainder = magnitude w lhs % magnitude w rhs in
    if rhs == 0
    then (integer_divide_by_zero, 0)
    else if is_normal_div_rem_s w lhs rhs
    then (ok, if is_negative w lhs then negate w remainder else remainder)
    else (ok, 0)

unfoldable pub int_div_u : ℕ → ℕ → ℕ → Result × ℕ
int_div_u w lhs rhs = if rhs == 0 then (integer_divide_by_zero, 0) else (ok, lhs / rhs)

unfoldable pub int_rem_u : ℕ → ℕ → ℕ → Result × ℕ
int_rem_u w lhs rhs = if rhs == 0 then (integer_divide_by_zero, 0) else (ok, lhs % rhs)

unfoldable pub int_and : ℕ → ℕ → ℕ → ℕ
int_and w a b = bit_and a b

unfoldable pub int_or : ℕ → ℕ → ℕ → ℕ
int_or w a b = bit_or a b

unfoldable pub int_xor : ℕ → ℕ → ℕ → ℕ
int_xor w a b = bit_xor a b

unfoldable pub int_shl : ℕ → ℕ → ℕ → ℕ
int_shl w lhs rhs = lhs * 2 ^ bit_and rhs (w - 1) % 2 ^ w

-- `>>` of a signed integer copies the sign.
abbrev pub shift_right : CType → ℕ → ℕ → ℕ
shift_right t lhs n =
    let w = bits t in
    if is_signed t && is_negative w lhs then lhs / 2 ^ n + (2 ^ w - 2 ^ (w - n)) else lhs / 2 ^ n

unfoldable pub int_shr : CType → ℕ → ℕ → ℕ
int_shr t lhs rhs = shift_right t lhs (bit_and rhs (bits t - 1))

unfoldable pub int_rotl : ℕ → ℕ → ℕ → ℕ
int_rotl w lhs rhs =
    let amount = bit_and rhs (w - 1) in
    if amount == 0 then lhs else bit_or (lhs * 2 ^ amount % 2 ^ w) (lhs / 2 ^ (w - amount))

unfoldable pub int_rotr : ℕ → ℕ → ℕ → ℕ
int_rotr w lhs rhs =
    let amount = bit_and rhs (w - 1) in
    if amount == 0 then lhs else bit_or (lhs / 2 ^ amount) (lhs * 2 ^ (w - amount) % 2 ^ w)

unfoldable pub int_eqz : ℕ → ℕ
int_eqz v = to_rep (v == 0)

unfoldable pub int_neg : ℕ → ℕ → ℕ
int_neg w v = negate w v

unfoldable pub int_not : ℕ → ℕ → ℕ
int_not w v = 2 ^ w - 1 - v

-- From a signed integer of `e` bits to one of `w`.
unfoldable pub sign_extend : ℕ → ℕ → ℕ → ℕ
sign_extend w e v = if is_negative e v then v + (2 ^ w - 2 ^ e) else v

unfoldable pub int_extend_s : ℕ → ℕ → ℕ → ℕ
unfolding sign_extend
int_extend_s w e v = sign_extend w e (v % 2 ^ e)

unfoldable pub xchg : ℕ → ℕ → ℕ → ℕ
xchg w lhs rhs = rhs

-- `AddSaturate<T, R>` and `SubSaturate<T, R>` for a `T` of 32 bits, whose sums are exact since the
-- arguments come from lanes of type `R`, of 8 or 16 bits; a signed argument is sign-extended.
unfoldable pub add_saturate : CType → ℕ → ℕ → ℕ
add_saturate lane a b =
    let limit = 2 ^ (bits lane - 1) in
    let sum = (a + b) % 2 ^ 32 in
    if is_signed lane
    then (if is_negative 32 sum
        then (if ltb sum (2 ^ 32 - limit) then 2 ^ 32 - limit else sum)
        else if ltb (limit - 1) sum
        then limit - 1
        else sum)
    else if ltb (2 ^ bits lane - 1) sum
    then 2 ^ bits lane - 1
    else sum

unfoldable pub sub_saturate : CType → ℕ → ℕ → ℕ
sub_saturate lane a b =
    let limit = 2 ^ (bits lane - 1) in
    let difference = (a + 2 ^ 32 - b) % 2 ^ 32 in
    if is_signed lane
    then (if is_negative 32 difference
        then (if ltb difference (2 ^ 32 - limit) then 2 ^ 32 - limit else difference)
        else if ltb (limit - 1) difference
        then limit - 1
        else difference)
    else if is_negative 32 difference
    then 0
    else if ltb (2 ^ bits lane - 1) difference
    then 2 ^ bits lane - 1
    else difference

-- `Clz`, `Ctz` and `Popcount` of src/config.h.in.
unfoldable pub clz : Host → ℕ → ℕ → ℕ
clz host w x = if x == 0 then w else host.count_leading_zeros w x

unfoldable pub ctz : Host → ℕ → ℕ → ℕ
ctz host w x = if x == 0 then w else host.count_trailing_zeros w x

unfoldable pub popcount : Host → ℕ → ℕ → ℕ
popcount host w x = host.count_ones w x

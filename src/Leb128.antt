-- ===== src/Leb128.antt =====
-- The LEB128 writers and readers of src/leb128.cc. A byte sequence is a list, `p` is what lies
-- between `p` and `end`, and a signed integer is its two's complement bit pattern. A writer's
-- list is what it hands to the stream; `none` is a write past the end of its array.
mod Runs
pub mod Unsigned
pub mod RoundTrip
pub mod Bounds
use wasm_sandboxing.Base.{
  ℕ, zero, suc, ◌+◌, ◌-◌, ◌*◌, ◌/◌, ◌%◌, ◌^◌, Bool, true, false, not, ◌&&◌, ◌||◌, Option, none,
  some, List, [], ◌∷◌, get_elem?, get_or, ltb, ◌==◌, if◌then◌else◌, bit_and, bit_or,
}
use mathlib.Core.Option

abbrev pub max_u32_leb128_bytes : ℕ
max_u32_leb128_bytes = 5

abbrev pub max_u64_leb128_bytes : ℕ
max_u64_leb128_bytes = 10

-- The fuel is the number of rounds left; five are enough for a uint32_t.
pub length_loop : ℕ → ℕ → ℕ → Option ℕ
length_loop zero value size = none
length_loop (suc fuel) value size =
    let rest = length_loop fuel (value / 128) (size + 1) in
    if value / 128 == 0 then some (size + 1) else rest

pub u32_leb128_length : ℕ → Option ℕ
unfolding length_loop
u32_leb128_length value = length_loop max_u32_leb128_bytes value 0

-- `LEB128_LOOP_UNTIL(end_cond)`. The fuel is the room left in `data`.
pub leb128_loop_until : (ℕ → ℕ) → (ℕ → ℕ → Bool) → ℕ → ℕ → Option (List ℕ)
leb128_loop_until shift end_cond zero value = none
leb128_loop_until shift end_cond (suc room) value =
    let byte = bit_and value 0x7f in
    let rest =
      Option.map (λ bytes. bit_or byte 0x80 ∷ bytes)
        (leb128_loop_until shift end_cond room (shift value)) in
    if end_cond (shift value) byte then some (byte ∷ []) else rest

abbrev shift_right_7 : ℕ → ℕ
shift_right_7 v = v / 128

abbrev is_zero : ℕ → ℕ → Bool
is_zero v byte = v == 0

unfoldable pub write_u32_leb128 : ℕ → Option (List ℕ)
unfolding leb128_loop_until
write_u32_leb128 value = leb128_loop_until shift_right_7 is_zero max_u32_leb128_bytes value

-- `WriteFixedU32Leb128Raw` into `room` bytes.
pub write_fixed_u32_leb128_raw : ℕ → ℕ → List ℕ
write_fixed_u32_leb128_raw room value =
    if ltb room max_u32_leb128_bytes
    then []
    else bit_or (bit_and value 0x7f) 0x80
      ∷ bit_or (bit_and (value / 2 ^ 7) 0x7f) 0x80
      ∷ bit_or (bit_and (value / 2 ^ 14) 0x7f) 0x80
      ∷ bit_or (bit_and (value / 2 ^ 21) 0x7f) 0x80
      ∷ bit_and (value / 2 ^ 28) 0x0f
      ∷ []

pub write_fixed_u32_leb128 : ℕ → List ℕ
unfolding write_fixed_u32_leb128_raw
write_fixed_u32_leb128 value = write_fixed_u32_leb128_raw max_u32_leb128_bytes value

-- `value >> 7` for a signed integer of `w` bits.
pub shift_right_signed_7 : ℕ → ℕ → ℕ
shift_right_signed_7 w v = if ltb v (2 ^ (w - 1)) then v / 128 else v / 128 + (2 ^ w - 2 ^ (w - 7))

write_signed_leb128 : ℕ → ℕ → ℕ → Option (List ℕ)
unfolding leb128_loop_until shift_right_signed_7
write_signed_leb128 w room value =
    if ltb value (2 ^ (w - 1))
    then leb128_loop_until (shift_right_signed_7 w) (λ v byte. v == 0 && bit_and byte 0x40 == 0)
        room value
    else leb128_loop_until (shift_right_signed_7 w)
        (λ v byte. v == 2 ^ w - 1 && not (bit_and byte 0x40 == 0)) room value

pub write_s32_leb128 : ℕ → Option (List ℕ)
unfolding write_signed_leb128
write_s32_leb128 value = write_signed_leb128 32 max_u32_leb128_bytes value

pub write_s64_leb128 : ℕ → Option (List ℕ)
unfolding write_signed_leb128
write_s64_leb128 value = write_signed_leb128 64 max_u64_leb128_bytes value

-- `BYTE_AT(type, i, shift)`, for an unsigned type of `w` bits.
pub byte_at : ℕ → List ℕ → ℕ → ℕ → ℕ
byte_at w p i shift = bit_and (get_or p i 0) 0x7f * 2 ^ shift % 2 ^ w

-- `LEB128_n(type)`: `leb128 w p i` is `LEB128_{i + 1}`.
pub leb128 : ℕ → List ℕ → ℕ → ℕ
unfolding byte_at
leb128 w p zero = byte_at w p 0 0
leb128 w p (suc i) = bit_or (byte_at w p (suc i) (7 * suc i)) (leb128 w p i)

-- `SIGN_EXTEND(type, value, sign_bit)`, for a signed type of `w` bits.
pub sign_extend : ℕ → ℕ → ℕ → ℕ
sign_extend w value sign_bit =
    let amount = w - 1 - sign_bit in
    let shifted = value * 2 ^ amount % 2 ^ w in
    if ltb shifted (2 ^ (w - 1))
    then shifted / 2 ^ amount
    else shifted / 2 ^ amount + (2 ^ w - 2 ^ (w - amount))

-- `p + i < end && (p[i] & 0x80) == 0`
pub ends_at : List ℕ → ℕ → Bool
ends_at p i = elim (get_elem? p i) [ none ↦ false | some b ↦ bit_and b 0x80 == 0 ]

-- The size that a reader returns, 0 for a failure, and what it stores to `*out_value`, if it does.
pub record ReadResult : Type 0 where
  pub size : ℕ
  pub out_value : Option ℕ

abbrev pub read_ok : ℕ → ℕ → ReadResult
read_ok n v = record { size = n; out_value = some v }

abbrev pub read_failed : ReadResult
read_failed = record { size = 0; out_value = none }

unfoldable pub read_u32_leb128 : List ℕ → ReadResult
unfolding ends_at leb128
read_u32_leb128 p =
    if ends_at p 0
    then read_ok 1 (leb128 32 p 0)
    else if ends_at p 1
    then read_ok 2 (leb128 32 p 1)
    else if ends_at p 2
    then read_ok 3 (leb128 32 p 2)
    else if ends_at p 3
    then read_ok 4 (leb128 32 p 3)
    else if ends_at p 4
    then (if bit_and (get_or p 4 0) 0xf0 == 0 then read_ok 5 (leb128 32 p 4) else read_failed)
    else record { size = 0; out_value = some 0 }

unfoldable pub read_s32_leb128 : List ℕ → ReadResult
unfolding ends_at leb128 sign_extend
read_s32_leb128 p =
    if ends_at p 0
    then read_ok 1 (sign_extend 32 (leb128 32 p 0) 6)
    else if ends_at p 1
    then read_ok 2 (sign_extend 32 (leb128 32 p 1) 13)
    else if ends_at p 2
    then read_ok 3 (sign_extend 32 (leb128 32 p 2) 20)
    else if ends_at p 3
    then read_ok 4 (sign_extend 32 (leb128 32 p 3) 27)
    else if ends_at p 4
    then (let sign_bit_set = not (bit_and (get_or p 4 0) 0x8 == 0) in
        let top_bits = bit_and (get_or p 4 0) 0xf0 in
        if (sign_bit_set && not (top_bits == 0x70)) || (not sign_bit_set && not (top_bits == 0))
        then read_failed
        else read_ok 5 (leb128 32 p 4))
    else read_failed

unfoldable pub read_s64_leb128 : List ℕ → ReadResult
unfolding ends_at leb128 sign_extend
read_s64_leb128 p =
    if ends_at p 0
    then read_ok 1 (sign_extend 64 (leb128 64 p 0) 6)
    else if ends_at p 1
    then read_ok 2 (sign_extend 64 (leb128 64 p 1) 13)
    else if ends_at p 2
    then read_ok 3 (sign_extend 64 (leb128 64 p 2) 20)
    else if ends_at p 3
    then read_ok 4 (sign_extend 64 (leb128 64 p 3) 27)
    else if ends_at p 4
    then read_ok 5 (sign_extend 64 (leb128 64 p 4) 34)
    else if ends_at p 5
    then read_ok 6 (sign_extend 64 (leb128 64 p 5) 41)
    else if ends_at p 6
    then read_ok 7 (sign_extend 64 (leb128 64 p 6) 48)
    else if ends_at p 7
    then read_ok 8 (sign_extend 64 (leb128 64 p 7) 55)
    else if ends_at p 8
    then read_ok 9 (sign_extend 64 (leb128 64 p 8) 62)
    else if ends_at p 9
    then (let sign_bit_set = not (bit_and (get_or p 9 0) 0x1 == 0) in
        let top_bits = bit_and (get_or p 9 0) 0xfe in
        if (sign_bit_set && not (top_bits == 0x7e)) || (not sign_bit_set && not (top_bits == 0))
        then read_failed
        else read_ok 10 (leb128 64 p 9))
    else read_failed

-- ===== src/Leb128/Runs.antt =====
-- Concrete runs of the readers and writers.
use wasm_sandboxing.Base.{◌≡◌, ◌++◌, refl, some, [], ◌∷◌, List, ℕ, length, arith}
use wasm_sandboxing.Leb128.RoundTrip.{read-write_u32_leb128, read-write_fixed_u32_leb128}
use wasm_sandboxing.Leb128.{
  write_u32_leb128, write_fixed_u32_leb128, u32_leb128_length, read_u32_leb128, write_s32_leb128,
  write_s64_leb128, read_s32_leb128, read_s64_leb128, read_ok,
}

write_624485 : write_u32_leb128 624485 ≡ some (0xe5 ∷ 0x8e ∷ 0x26 ∷ [])
unfolding write_u32_leb128
write_624485 = refl

write_minus_two : write_s32_leb128 0xffff_fffe ≡ some (0x7e ∷ [])
unfolding write_s32_leb128
write_minus_two = refl

write_min :
    write_s64_leb128 0x8000_0000_0000_0000
    ≡ some (0x80 ∷ 0x80 ∷ 0x80 ∷ 0x80 ∷ 0x80 ∷ 0x80 ∷ 0x80 ∷ 0x80 ∷ 0x80 ∷ 0x7f ∷ [])
unfolding write_s64_leb128
write_min = refl

read_min :
    read_s64_leb128 (0x80 ∷ 0x80 ∷ 0x80 ∷ 0x80 ∷ 0x80 ∷ 0x80 ∷ 0x80 ∷ 0x80 ∷ 0x80 ∷ 0x7f ∷ [])
    ≡ read_ok 10 0x8000_0000_0000_0000
unfolding read_s64_leb128
read_min = refl

read_minus_two : read_s32_leb128 (0xfe ∷ 0x7f ∷ []) ≡ read_ok 2 0xffff_fffe
unfolding read_s32_leb128
read_minus_two = refl

read-write_u32_leb128_example :
    (bytes : List ℕ) × (write_u32_leb128 624485 ≡ some bytes)
    × (u32_leb128_length 624485 ≡ some (length bytes))
    × (read_u32_leb128 (bytes ++ 1 ∷ []) ≡ read_ok (length bytes) 624485)
read-write_u32_leb128_example = read-write_u32_leb128 624485 (1 ∷ []) (omega arith)

read-write_fixed_u32_leb128_example :
    read_u32_leb128 (write_fixed_u32_leb128 624485 ++ 1 ∷ []) ≡ read_ok 5 624485
read-write_fixed_u32_leb128_example = read-write_fixed_u32_leb128 624485 (1 ∷ []) (omega arith)

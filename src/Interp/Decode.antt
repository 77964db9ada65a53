-- ===== src/Interp/Decode.antt =====
-- From the bytes of the instruction stream to an opcode: `Opcode::FromCode` and `IsPrefixByte`
-- (src/opcode.h, src/opcode.cc) and `ReadOpcode` (src/interp.cc).
pub mod Table
use wasm_sandboxing.Base.{
  ℕ, ◌*◌, Bool, true, false, ◌||◌, Option, none, some, List, [], ◌∷◌, ◌++◌, ltb, ◌==◌,
  if◌then◌else◌, bit_or,
}
use wasm_sandboxing.Interp.State
use wasm_sandboxing.Interp.State.{Thread, Flow, M, ◌>>=◌, pure, read_u8}
use wasm_sandboxing.Interp.Opcode.{Opcode}
use wasm_sandboxing.Interp.Opcode.Core.{core_infos}
use wasm_sandboxing.Interp.Opcode.Math.{math_infos}
use wasm_sandboxing.Interp.Opcode.Simd.{simd_infos}
use wasm_sandboxing.Interp.Opcode.Threads.{threads_infos}

-- `infos_`, less what no execution reads.
unfoldable pub infos : List (ℕ × Opcode)
infos = core_infos ++ math_infos ++ simd_infos ++ threads_infos

-- The assertion that the code is below 0x100 is compiled out.
abbrev pub prefix_code : ℕ → ℕ → ℕ
prefix_code prefix code = bit_or (prefix * 0x100) code

unfoldable pub is_prefix_byte : ℕ → Bool
is_prefix_byte byte = byte == 0xfc || byte == 0xfe || byte == 0xfd

-- The first entry that `std::lower_bound` finds not below the code, if it has the code.
unfoldable pub find_code : ℕ → List (ℕ × Opcode) → Option Opcode
find_code code [] = none
find_code code ((entry_code, opcode) ∷ infos) =
    let rest = find_code code infos in
    if ltb entry_code code then rest else if entry_code == code then some opcode else none

-- `none` for an invalid opcode.
unfoldable pub from_code : ℕ → ℕ → Option Opcode
unfolding infos find_code
from_code prefix code = find_code (prefix_code prefix code) infos

unfoldable pub read_opcode : M (Option Opcode)
unfolding read_u8 is_prefix_byte from_code
read_opcode = do
  value ← read_u8
  if is_prefix_byte value
      then (do code ← read_u8; pure (from_code value code))
      else pure (from_code 0 value)

-- ===== src/Utf8.antt =====
-- The UTF-8 check of src/utf8.cc, on a list of bytes.
pub mod Scalars
pub mod Correct
mod Runs
use wasm_sandboxing.Base.{
  ℕ, zero, suc, Bool, true, false, not, ◌&&◌, ◌||◌, Option, none, some, List, [], ◌∷◌, length, ltb,
  leb, ◌==◌, if◌then◌else◌, bit_and,
}

-- `s_utf8_length`, by its runs of equal entries.
pub utf8_length : ℕ → ℕ
utf8_length c =
    if ltb c 0x80
    then 1
    else if ltb c 0xc2
    then 0
    else if ltb c 0xe0
    then 2
    else if ltb c 0xf0
    then 3
    else if ltb c 0xf5
    then 4
    else 0

pub is_cont : ℕ → Bool
is_cont c = bit_and c 0xc0 == 0x80

-- The cases of the `switch`, on the bytes behind the first: `none` is `return false`, also where
-- `p + length > end`, and `some` holds the bytes from the new `p` on.
case_2 : List ℕ → Option (List ℕ)
case_2 [] = none
case_2 (cu1 ∷ rest) = if is_cont cu1 then some rest else none

case_3 : ℕ → List ℕ → Option (List ℕ)
case_3 cu0 [] = none
case_3 cu0 (cu1 ∷ []) = none
case_3 cu0 (cu1 ∷ cu2 ∷ rest) =
    if not (is_cont cu1 && is_cont cu2)
      || (cu0 == 0xe0 && ltb cu1 0xa0)
      || (cu0 == 0xed && leb 0xa0 cu1)
    then none
    else some rest

case_4 : ℕ → List ℕ → Option (List ℕ)
case_4 cu0 [] = none
case_4 cu0 (cu1 ∷ []) = none
case_4 cu0 (cu1 ∷ cu2 ∷ []) = none
case_4 cu0 (cu1 ∷ cu2 ∷ cu3 ∷ rest) =
    if not (is_cont cu1 && is_cont cu2 && is_cont cu3)
      || (cu0 == 0xf0 && ltb cu1 0x90)
      || (cu0 == 0xf4 && leb 0x90 cu1)
    then none
    else some rest

-- One round of the loop.
pub next : ℕ → List ℕ → Option (List ℕ)
next cu0 rest =
    if utf8_length cu0 == 1
    then some rest
    else if utf8_length cu0 == 2
    then case_2 rest
    else if utf8_length cu0 == 3
    then case_3 cu0 rest
    else if utf8_length cu0 == 4
    then case_4 cu0 rest
    else none

-- Each round takes a byte at least, so that the bytes' number is fuel enough; without fuel there
-- is no answer.
pub valid_loop : ℕ → List ℕ → Option Bool
valid_loop fuel [] = some true
valid_loop zero (cu0 ∷ rest) = none
valid_loop (suc fuel) (cu0 ∷ rest) = elim (next cu0 rest) [
  | none ↦ some false
  | some rest' ↦ valid_loop fuel rest'
]

unfoldable pub is_valid_utf8 : List ℕ → Option Bool
unfolding valid_loop next utf8_length is_cont case_2 case_3 case_4
is_valid_utf8 s = valid_loop (length s) s

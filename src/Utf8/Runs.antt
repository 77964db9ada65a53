-- ===== src/Utf8/Runs.antt =====
-- Concrete runs of the UTF-8 check.
use wasm_sandboxing.Base.{◌≡◌, ◌↔◌, refl, some, Bool, true, false, [], ◌∷◌, arith}
use wasm_sandboxing.Utf8.Correct.{IsEncoded, is_valid_utf8_lem}
use wasm_sandboxing.Utf8.{is_valid_utf8}

euro_sign : is_valid_utf8 (0xe2 ∷ 0x82 ∷ 0xac ∷ 0x41 ∷ []) ≡ some true
unfolding is_valid_utf8
euro_sign = refl

surrogate : is_valid_utf8 (0xed ∷ 0xa0 ∷ 0x80 ∷ []) ≡ some false
unfolding is_valid_utf8
surrogate = refl

is_valid_utf8_lem_example :
    (b : Bool) × (is_valid_utf8 (0xe2 ∷ 0x82 ∷ 0xac ∷ []) ≡ some b)
    × ((b ≡ true) ↔ IsEncoded (0xe2 ∷ 0x82 ∷ 0xac ∷ []))
is_valid_utf8_lem_example =
    is_valid_utf8_lem (0xe2 ∷ 0x82 ∷ 0xac ∷ []) (omega arith, (omega arith, (omega arith, tt)))

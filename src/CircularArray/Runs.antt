-- ===== src/CircularArray/Runs.antt =====
-- Concrete runs of the circular array.
use wasm_sandboxing.Base.{ℕ, ◌≡◌, refl, [], ◌==◌, if◌then◌else◌, ◌∷◌, ◌++◌, arith}
use wasm_sandboxing.CircularArray.{
  CircularArray, empty_array, push_back, pop_front, pop_back, front_item, back, clear, at,
}
use wasm_sandboxing.CircularArray.Queue.{
  IsValid, to_list, push_back_lem, pop_front_lem, pop_back_lem, clear_lem,
}

-- Its front has gone round once: 7 stands behind 6, at position 0.
abbrev two_items : CircularArray ℕ
two_items = record { contents = λ i. if i == 0 then 7 else 6; size = 2; front = 1 }

abbrev one_item : CircularArray ℕ
one_item = record { contents = λ i. if i == 0 then 0 else 6; size = 1; front = 1 }

wraps_round : to_list 1 0 two_items ≡ 6 ∷ 7 ∷ []
unfolding at
wraps_round = refl

cleared : to_list 1 0 (clear 1 0 two_items) ≡ []
unfolding clear
cleared = refl

empty_has_none : to_list {A = ℕ} 1 0 (empty_array 1 0) ≡ []
unfolding empty_array
empty_has_none = refl

two_items-IsValid : IsValid 1 0 two_items
two_items-IsValid = record {
  capacity = omega arith;
  front_below = omega arith;
  size_at_most = omega arith;
}

one_item-IsValid : IsValid 1 0 one_item
one_item-IsValid = record {
  capacity = omega arith;
  front_below = omega arith;
  size_at_most = omega arith;
}

push_back_lem_example :
    IsValid 1 0 (push_back 1 0 one_item 9)
    × (to_list 1 0 (push_back 1 0 one_item 9) ≡ to_list 1 0 one_item ++ 9 ∷ [])
push_back_lem_example = push_back_lem 1 0 one_item one_item-IsValid 9 (omega arith)

pop_front_lem_example :
    IsValid 1 0 (pop_front 1 0 two_items)
    × (to_list 1 0 two_items ≡ front_item 1 0 two_items ∷ to_list 1 0 (pop_front 1 0 two_items))
pop_front_lem_example = pop_front_lem 1 0 two_items two_items-IsValid (omega arith)

pop_back_lem_example :
    IsValid 1 0 (pop_back 1 0 two_items)
    × (to_list 1 0 two_items ≡ to_list 1 0 (pop_back 1 0 two_items) ++ back 1 0 two_items ∷ [])
pop_back_lem_example = pop_back_lem 1 0 two_items two_items-IsValid (omega arith)

clear_lem_example : to_list 1 0 (clear 1 0 two_items) ≡ []
clear_lem_example = clear_lem 1 0 two_items two_items-IsValid

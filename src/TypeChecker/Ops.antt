-- ===== src/TypeChecker/Ops.antt =====
-- The public operations of `TypeChecker` that the validator and the readers call, one for each
-- kind of instruction (src/type-checker.cc; `GetSimdLaneCount` of src/opcode.cc).
use wasm_sandboxing.Base.{
  ℕ, String, Bool, true, false, none, some, [], ◌∷◌, ◌==◌, ◌||◌, if◌then◌else◌, length,
}
use wasm_sandboxing.TypeChecker.State.{
  Result, ok, error, i32, except_ref, type_code, TypeVector, Label, LabelType, label_code, function,
  block, loop, if_, else_, if_except, if_except_else, try_, catch_, br_types, inconsistent_targets,
  if_without_else, M, pure, ◌>>=◌, ◌>>◌, check_result, check_label, print_error, get_label,
  top_label, reset_type_stack_to_label, set_label, set_unreachable, push_label, pop_label,
  check_label_type,
}
use wasm_sandboxing.TypeChecker.Check.{
  push_type, push_types, check_type_stack_end, check_signature, also, pop_and_check_signature,
  pop_and_check_call, pop_and_check_1_type,
}

unfoldable pub begin_function : TypeVector → M Result
unfolding ◌>>◌ push_label pure
begin_function sig = do
  λ s. (tt, record s { type_stack = []; label_stack = [] })
  push_label function [] sig
  pure ok

unfoldable pub on_block : TypeVector → TypeVector → M Result
unfolding ◌>>=◌ ◌>>◌ pop_and_check_signature push_label push_types pure
on_block params results = do
  result ← pop_and_check_signature params "block"
  push_label block params results
  push_types params
  pure result

unfoldable pub on_loop : TypeVector → TypeVector → M Result
unfolding ◌>>=◌ ◌>>◌ pop_and_check_signature push_label push_types pure
on_loop params results = do
  result ← pop_and_check_signature params "loop"
  push_label loop params results
  push_types params
  pure result

unfoldable pub on_try : TypeVector → TypeVector → M Result
unfolding ◌>>=◌ ◌>>◌ pop_and_check_signature push_label push_types pure
on_try params results = do
  result ← pop_and_check_signature params "try"
  push_label try_ params results
  push_types params
  pure result

unfoldable pub on_if : TypeVector → TypeVector → M Result
unfolding ◌>>=◌ ◌>>◌ pop_and_check_1_type pop_and_check_signature also push_label push_types pure
on_if params results = do
  condition ← pop_and_check_1_type i32 "if"
  result ← also condition (pop_and_check_signature params "if")
  push_label if_ params results
  push_types params
  pure result

unfoldable pub on_if_except : TypeVector → TypeVector → TypeVector → M Result
unfolding ◌>>=◌ ◌>>◌ pop_and_check_1_type pop_and_check_signature also push_label push_types pure
on_if_except params results except_sig = do
  condition ← pop_and_check_1_type except_ref "if_except"
  result ← also condition (pop_and_check_signature params "if_except")
  push_label if_except params results
  push_types params
  push_types except_sig
  pure result

unfoldable pub on_br : ℕ → M Result
unfolding ◌>>=◌ check_label get_label br_types check_signature check_result set_unreachable pure
on_br depth =
    check_label error (get_label depth)
      λ l. do result ← check_signature (br_types l) "br"; check_result set_unreachable (pure result)

unfoldable pub on_br_if : ℕ → M Result
unfolding ◌>>=◌ ◌>>◌ pop_and_check_1_type check_label get_label br_types also push_types pure
on_br_if depth = do
  condition ← pop_and_check_1_type i32 "br_if"
  check_label error (get_label depth) λ l. do
    result ← also condition (pop_and_check_signature (br_types l) "br_if")
    push_types (br_types l)
    pure result

unfoldable pub begin_br_table : M Result
unfolding ◌>>◌ pop_and_check_1_type
begin_br_table = do λ s. (tt, record s { br_table_sig = none }); pop_and_check_1_type i32 "br_table"

abbrev pub same_types : TypeVector → TypeVector → Bool
same_types [] [] = true
same_types [] (u ∷ us) = false
same_types (t ∷ ts) [] = false
same_types (t ∷ ts) (u ∷ us) = if type_code t == type_code u then same_types ts us else false

-- `if (br_table_sig_ == nullptr) br_table_sig_ = &label_sig;`, and what it then refers to.
unfoldable pub remember_br_table_sig : TypeVector → M TypeVector
remember_br_table_sig sig s = elim s.br_table_sig [
  | none ↦ (sig, record s { br_table_sig = some sig })
  | some first ↦ (first, s)
]

unfoldable pub on_br_table_target : ℕ → M Result
unfolding ◌>>=◌ ◌>>◌ check_label get_label br_types check_signature remember_br_table_sig
    print_error pure
on_br_table_target depth = check_label error (get_label depth) λ l. do
  result ← check_signature (br_types l) "br_table"
  first ← remember_br_table_sig (br_types l)
  if same_types first (br_types l)
      then pure result
      else do print_error (inconsistent_targets first (br_types l)); pure error

unfoldable pub end_br_table : M Result
unfolding set_unreachable
end_br_table = set_unreachable

unfoldable pub on_call : TypeVector → TypeVector → M Result
unfolding pop_and_check_call
on_call params results = pop_and_check_call params results "call"

unfoldable pub on_call_indirect : TypeVector → TypeVector → M Result
unfolding ◌>>=◌ pop_and_check_1_type also pop_and_check_call
on_call_indirect params results = do
  index ← pop_and_check_1_type i32 "call_indirect"
  also index (pop_and_check_call params results "call_indirect")

unfoldable pub on_catch : M Result
unfolding ◌>>=◌ ◌>>◌ check_label top_label check_label_type pop_and_check_signature also
    check_type_stack_end reset_type_stack_to_label set_label push_type pure
on_catch = check_label error top_label λ l. do
  kind ← check_label_type l try_
  values ← also kind (pop_and_check_signature l.result_types "try block")
  result ← also values (check_type_stack_end "try block")
  reset_type_stack_to_label l
  set_label catch_ false
  push_type except_ref
  pure result

unfoldable pub on_else : M Result
unfolding ◌>>=◌ ◌>>◌ check_label top_label check_label_type pop_and_check_signature also
    check_type_stack_end reset_type_stack_to_label set_label push_types pure
on_else = check_label error top_label λ l. do
  kind ← check_label_type l if_
  values ← also kind (pop_and_check_signature l.result_types "if true branch")
  result ← also values (check_type_stack_end "if true branch")
  reset_type_stack_to_label l
  push_types l.param_types
  set_label else_ false
  pure result

unfoldable pub on_end_label : Label → String → String → M Result
unfolding ◌>>=◌ ◌>>◌ pop_and_check_signature also check_type_stack_end reset_type_stack_to_label
    push_types pop_label pure
on_end_label l sig_desc end_desc = do
  values ← pop_and_check_signature l.result_types sig_desc
  result ← also values (check_type_stack_end end_desc)
  reset_type_stack_to_label l
  push_types l.result_types
  popped ← pop_label
  pure result

unfoldable pub label_type_name : LabelType → String
label_type_name function = "function"
label_type_name block = "block"
label_type_name loop = "loop"
label_type_name if_ = "if"
label_type_name else_ = "if false branch"
label_type_name if_except = "if_except"
label_type_name if_except_else = "if_except false branch"
label_type_name try_ = "try"
label_type_name catch_ = "try catch"

-- An `if` or `if_except` that ends without its `else` may have no results.
unfoldable pub check_missing_else : Label → M Result
unfolding ◌>>◌ print_error pure
check_missing_else l =
    if label_code l.label_type == label_code if_ || label_code l.label_type == label_code if_except
    then (if length l.result_types == 0 then pure ok else print_error if_without_else >> pure error)
    else pure ok

unfoldable pub on_end : M Result
unfolding ◌>>=◌ check_label top_label check_missing_else also on_end_label label_type_name
on_end = check_label error top_label λ l. do
  result ← check_missing_else l
  also result (on_end_label l (label_type_name l.label_type) (label_type_name l.label_type))

unfoldable pub end_function : M Result
unfolding ◌>>=◌ check_label top_label check_label_type also on_end_label
end_function = check_label error top_label λ l. do
  kind ← check_label_type l function
  also kind (on_end_label l "implicit return" "function")

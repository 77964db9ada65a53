-- ===== src/TypeChecker/Check.antt =====
-- The private helpers of `TypeChecker` that look at the operand stack, pop and push
-- (src/type-checker.cc).
use wasm_sandboxing.Base.{
  ℕ, ◌+◌, ◌-◌, min, String, not, [], ◌∷◌, leb, ltb, ◌==◌, ◌||◌, if◌then◌else◌, length, get_or, drop,
}
use wasm_sandboxing.TypeChecker.State.{
  Result, ok, error, ◌⊕◌, ValueType, any, void, same_type, TypeVector, type_mismatch, M, pure,
  ◌>>=◌, ◌>>◌, check_label, print_error, top_label, reset_type_stack_to_label,
}

-- The result and `*out_type`; a caller starts from `Any`.
unfoldable pub peek_type : ℕ → M (Result × ValueType)
unfolding check_label top_label
peek_type depth =
    check_label (error, any) top_label
      λ l s.
        if leb (length s.type_stack) (l.type_stack_limit + depth)
        then ((if l.unreachable then ok else error, any), s)
        else ((ok, get_or s.type_stack depth any), s)

unfoldable pub check_type : ValueType → ValueType → Result
check_type actual expected =
    if same_type expected actual || same_type expected any || same_type actual any
    then ok
    else error

unfoldable pub peek_and_check_type : ℕ → ValueType → M Result
unfolding ◌>>=◌ peek_type check_type pure
peek_and_check_type depth expected = do
  peeked ← peek_type depth
  pure (peeked.0 ⊕ check_type peeked.1 expected)

unfoldable pub drop_types : ℕ → M Result
unfolding check_label top_label reset_type_stack_to_label
drop_types count = check_label error top_label λ l s.
    if ltb (length s.type_stack) (l.type_stack_limit + count)
    then (if l.unreachable then ok else error, (reset_type_stack_to_label l s).1)
    else (ok, record s { type_stack = drop count s.type_stack })

unfoldable pub push_type : ValueType → M (Unit {0})
push_type t s =
    if same_type t void then (tt, s) else (tt, record s { type_stack = t ∷ s.type_stack })

unfoldable pub push_types : TypeVector → M (Unit {0})
unfolding ◌>>◌ pure
push_types [] = pure tt
push_types (t ∷ ts) = push_type t >> push_types ts

-- The types that `PrintStackIfFailed` collects: depths `n - 1` down to 0.
unfoldable pub collect_actual : ℕ → M TypeVector
unfolding ◌>>=◌ peek_type pure
collect_actual ℕ.zero = pure []
collect_actual (ℕ.suc n) = do peeked ← peek_type n; rest ← collect_actual n; pure (peeked.1 ∷ rest)

abbrev pub max_actual_stack_to_print : ℕ
max_actual_stack_to_print = 4

-- `limit`, or 0 where there is no label (`TopLabel` then reports that as well).
unfoldable pub printed_limit : M ℕ
unfolding check_label top_label pure
printed_limit = check_label 0 top_label λ l. pure l.type_stack_limit

unfoldable pub actual_size : TypeVector → ℕ → ℕ
actual_size expected max_depth =
    if length expected == 0
    then min max_actual_stack_to_print max_depth
    else min (length expected) max_depth

unfoldable pub print_stack : String → TypeVector → M (Unit {0})
unfolding ◌>>=◌ printed_limit actual_size collect_actual print_error
print_stack desc expected = do
  limit ← printed_limit
  max_depth ← λ s. (length s.type_stack - limit, s)
  actual ← collect_actual (actual_size expected max_depth)
  print_error
      (type_mismatch desc expected (not (actual_size expected max_depth == max_depth)) actual)

unfoldable pub print_stack_if_failed : Result → String → TypeVector → M (Unit {0})
unfolding print_stack pure
print_stack_if_failed ok desc expected = pure tt
print_stack_if_failed error desc expected = print_stack desc expected

unfoldable pub check_type_stack_end : String → M Result
unfolding check_label top_label ◌>>◌ print_stack_if_failed
check_type_stack_end desc = check_label error top_label λ l s.
    let result = if length s.type_stack == l.type_stack_limit then ok else error in
    (result, (print_stack_if_failed result desc [] s).1)

-- The loop of `CheckSignature`: the first type lies deepest.
unfoldable pub check_types : TypeVector → M Result
unfolding ◌>>=◌ peek_and_check_type pure
check_types [] = pure ok
check_types (t ∷ ts) = do
  first ← peek_and_check_type (length ts) t
  rest ← check_types ts
  pure (first ⊕ rest)

unfoldable pub check_signature : TypeVector → String → M Result
unfolding ◌>>=◌ ◌>>◌ check_types print_stack_if_failed pure
check_signature sig desc = do
  result ← check_types sig
  print_stack_if_failed result desc sig
  pure result

-- `result |= m; return result`
unfoldable pub also : Result → M Result → M Result
unfolding ◌>>=◌ pure
also result m = m >>= λ more. pure (result ⊕ more)

unfoldable pub pop_and_check_signature : TypeVector → String → M Result
unfolding ◌>>=◌ check_signature also drop_types
pop_and_check_signature sig desc = do
  result ← check_signature sig desc
  also result (drop_types (length sig))

unfoldable pub pop_and_check_call : TypeVector → TypeVector → String → M Result
unfolding ◌>>=◌ ◌>>◌ check_signature also drop_types push_types pure
pop_and_check_call params results desc = do
  checked ← check_signature params desc
  result ← also checked (drop_types (length params))
  push_types results
  pure result

unfoldable pub pop_and_check_1_type : ValueType → String → M Result
unfolding ◌>>=◌ ◌>>◌ peek_and_check_type print_stack_if_failed also drop_types
pop_and_check_1_type expected desc = do
  result ← peek_and_check_type 0 expected
  print_stack_if_failed result desc (expected ∷ [])
  also result (drop_types 1)

unfoldable pub pop_and_check_2_types : ValueType → ValueType → String → M Result
unfolding ◌>>=◌ ◌>>◌ peek_and_check_type print_stack_if_failed also drop_types
pop_and_check_2_types expected1 expected2 desc = do
  second ← peek_and_check_type 0 expected2
  first ← peek_and_check_type 1 expected1
  print_stack_if_failed (second ⊕ first) desc (expected1 ∷ expected2 ∷ [])
  also (second ⊕ first) (drop_types 2)

unfoldable pub pop_and_check_3_types : ValueType → ValueType → ValueType → String → M Result
unfolding ◌>>=◌ ◌>>◌ peek_and_check_type print_stack_if_failed also drop_types
pop_and_check_3_types expected1 expected2 expected3 desc = do
  third ← peek_and_check_type 0 expected3
  second ← peek_and_check_type 1 expected2
  first ← peek_and_check_type 2 expected1
  print_stack_if_failed (third ⊕ second ⊕ first) desc (expected1 ∷ expected2 ∷ expected3 ∷ [])
  also (third ⊕ second ⊕ first) (drop_types 3)

-- What the checker asks of an `Opcode`: its row of src/opcode.def.
pub record Opcode : Type 0 where
  pub name : String
  pub result_type : ValueType
  pub param1 : ValueType
  pub param2 : ValueType
  pub param3 : ValueType

unfoldable pub check_opcode_1 : Opcode → M Result
unfolding ◌>>=◌ ◌>>◌ pop_and_check_1_type push_type pure
check_opcode_1 op = do
  result ← pop_and_check_1_type op.param1 op.name
  push_type op.result_type
  pure result

unfoldable pub check_opcode_2 : Opcode → M Result
unfolding ◌>>=◌ ◌>>◌ pop_and_check_2_types push_type pure
check_opcode_2 op = do
  result ← pop_and_check_2_types op.param1 op.param2 op.name
  push_type op.result_type
  pure result

unfoldable pub check_opcode_3 : Opcode → M Result
unfolding ◌>>=◌ ◌>>◌ pop_and_check_3_types push_type pure
check_opcode_3 op = do
  result ← pop_and_check_3_types op.param1 op.param2 op.param3 op.name
  push_type op.result_type
  pure result

-- ===== src/TypeChecker/State.antt =====
-- The state of `TypeChecker`, and the primitives that read and change it (src/type-checker.h,
-- src/type-checker.cc, src/result.h, src/common.h).
-- The head of `type_stack` and of `label_stack` is the back of the vector. `errors` holds what
-- `error_callback_` was called with, newest first; `br_table_sig` holds the types that the
-- pointer `br_table_sig_` refers to. Assertions are compiled out.
use wasm_sandboxing.Base.{
  ℕ, ◌+◌, ◌-◌, ◌%◌, ◌^◌, String, Bool, true, false, Option, none, some, List, [], ◌∷◌, ◌++◌, leb,
  ◌==◌, if◌then◌else◌, length, get_elem?, drop, replicate,
}

pub data Result : Type 0 where
  ok error : Result

infixl 40 ◌⊕◌
abbrev pub ◌⊕◌ : Result → Result → Result
ok ⊕ r = r
error ⊕ r = error

-- `enum class Type`.
pub data ValueType : Type 0 where
  i32 i64 f32 f64 v128 anyfunc except_ref func void any : ValueType

-- The enumerators' values as the bytes that the source's comments give, and 0 for `Any`.
abbrev pub type_code : ValueType → ℕ
type_code i32 = 0x7f
type_code i64 = 0x7e
type_code f32 = 0x7d
type_code f64 = 0x7c
type_code v128 = 0x7b
type_code anyfunc = 0x70
type_code except_ref = 0x68
type_code func = 0x60
type_code void = 0x40
type_code any = 0

abbrev pub same_type : ValueType → ValueType → Bool
same_type a b = type_code a == type_code b

abbrev pub TypeVector : Type 0
TypeVector = List ValueType

pub data LabelType : Type 0 where
  function block loop if_ else_ if_except if_except_else try_ catch_ : LabelType

abbrev pub label_code : LabelType → ℕ
label_code function = 0
label_code block = 1
label_code loop = 2
label_code if_ = 3
label_code else_ = 4
label_code if_except = 5
label_code if_except_else = 6
label_code try_ = 7
label_code catch_ = 8

pub record Label : Type 0 where
  pub label_type : LabelType
  pub param_types : TypeVector
  pub result_types : TypeVector
  pub type_stack_limit : ℕ
  pub unreachable : Bool

unfoldable pub br_types : Label → TypeVector
br_types l = if label_code l.label_type == label_code loop then l.param_types else l.result_types

-- What `PrintError` is called with, before it is formatted.
pub data Message : Type 0 where
  invalid_depth : ℕ → ℕ → Message
  type_mismatch : String → TypeVector → Bool → TypeVector → Message
  inconsistent_targets : TypeVector → TypeVector → Message
  if_without_else : Message
  lane_too_large : ℕ → ℕ → Message
  shuffle_lane_too_large : ℕ → Message

pub record Checker : Type 0 where
  pub error_callback : Bool
  pub errors : List Message
  pub type_stack : TypeVector
  pub label_stack : List Label
  pub br_table_sig : Option TypeVector

-- A method of the class: the state after it, and what it returns.
abbrev pub M : Type 0 → Type 0
M A = Checker → A × Checker

unfoldable pub pure : {A : Type 0} → A → M A
pure a s = (a, s)

infixl 5 ◌>>=◌ ◌>>◌
unfoldable pub ◌>>=◌ : {A B : Type 0} → M A → (A → M B) → M B
◌>>=◌ m f s = f (m s).0 (m s).1

unfoldable pub ◌>>◌ : {B : Type 0} → M (Unit {0}) → M B → M B
◌>>◌ m k s = k (m s).1

-- `CHECK_RESULT(m); k`, and the same for a call that hands out a label.
unfoldable pub check_result : M Result → M Result → M Result
unfolding ◌>>=◌ pure
check_result m k = m >>= λ r. elim r [ ok ↦ k | error ↦ pure error ]

unfoldable pub check_label : {A : Type 0} → A → M (Option Label) → (Label → M A) → M A
unfolding ◌>>=◌ pure
check_label failed m k = m >>= λ found. elim found [ none ↦ pure failed | some l ↦ k l ]

unfoldable pub print_error : Message → M (Unit {0})
print_error e s = if s.error_callback then (tt, record s { errors = e ∷ s.errors }) else (tt, s)

unfoldable pub get_label : ℕ → M (Option Label)
unfolding print_error
get_label depth s =
    if leb (length s.label_stack) depth
    then (
      none,
      (print_error (invalid_depth depth ((length s.label_stack + 2 ^ 64 - 1) % 2 ^ 64)) s).1,
    )
    else (get_elem? s.label_stack depth, s)

unfoldable pub top_label : M (Option Label)
unfolding get_label
top_label = get_label 0

unfoldable pub is_unreachable : M Bool
unfolding check_label top_label pure
is_unreachable = check_label true top_label λ l. pure l.unreachable

-- `type_stack_.resize(n)`: new elements are zero, which is `Any`.
unfoldable pub resize : ℕ → TypeVector → TypeVector
resize n xs =
    if leb n (length xs) then drop (length xs - n) xs else replicate (n - length xs) any ++ xs

unfoldable pub reset_type_stack_to_label : Label → M (Unit {0})
unfolding resize
reset_type_stack_to_label l s =
    (tt, record s { type_stack = resize l.type_stack_limit s.type_stack })

-- An assignment through the `Label*` of the top label.
abbrev pub on_head {ℓ} : {A : Type ℓ} → (A → A) → List A → List A
on_head f [] = []
on_head f (x ∷ xs) = f x ∷ xs

unfoldable pub set_label : LabelType → Bool → M (Unit {0})
set_label t u s = (
  tt,
  record s {
    label_stack = on_head (λ l. record l { label_type = t; unreachable = u }) s.label_stack;
  },
)

unfoldable pub set_label_unreachable : M (Unit {0})
set_label_unreachable s =
    (tt, record s { label_stack = on_head (λ l. record l { unreachable = true }) s.label_stack })

unfoldable pub set_unreachable : M Result
unfolding check_label top_label set_label_unreachable reset_type_stack_to_label ◌>>◌ pure
set_unreachable =
    check_label error top_label λ l. do set_label_unreachable; reset_type_stack_to_label l; pure ok

unfoldable pub push_label : LabelType → TypeVector → TypeVector → M (Unit {0})
push_label t params results s = (
  tt,
  record s {
    label_stack =
        record {
          label_type = t;
          param_types = params;
          result_types = results;
          type_stack_limit = length s.type_stack;
          unreachable = false;
        }
        ∷ s.label_stack;
  },
)

unfoldable pub pop_label : M Result
pop_label s = (ok, record s { label_stack = drop 1 s.label_stack })

unfoldable pub check_label_type : Label → LabelType → M Result
unfolding pure
check_label_type l t = pure (if label_code l.label_type == label_code t then ok else error)

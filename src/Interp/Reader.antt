-- ===== src/Interp/Reader.antt =====
-- `BinaryReaderInterp` while it reads a function body (src/binary-reader-interp.cc): the type
-- checker, the instruction stream it emits, and the labels whose places are not known yet. The head
-- of `label_stack` is its back. `depth_fixups` gives the offsets to mend for a label by its depth
-- from the outermost, none where the vector is too short, and `func_fixups` those for the offset of
-- a function by its index among the defined ones. An assertion is not modelled.
pub mod Branches
pub mod Simple
pub mod Module
use wasm_sandboxing.Base.{
  ℕ, ◌+◌, ◌-◌, ◌%◌, ◌^◌, Bool, Option, none, some, List, [], ◌∷◌, ◌++◌, ltb, ◌==◌, if◌then◌else◌,
  length, get_elem?,
}
use wasm_sandboxing.TypeChecker.State
use wasm_sandboxing.TypeChecker.State.{
  ValueType, Checker, Label, br_types, get_label, is_unreachable,
}
use wasm_sandboxing.Interp.Opcode.{Opcode}
use wasm_sandboxing.Interp.Control
use wasm_sandboxing.Interp.Emit.{Emitter, emit_opcode, emit_i32, emit_i32_at, emit_drop_keep}

pub record CodeLabel : Type 0 where
  pub offset : ℕ
  pub fixup_offset : ℕ

-- `func_offset`, `param_and_local_types` and the counts are those of `current_func_`;
-- `memory_index` is `none` where the module has no memory.
pub record Reader : Type 0 where
  pub typechecker : Checker
  pub emitter : Emitter
  pub label_stack : List CodeLabel
  pub depth_fixups : ℕ → List ℕ
  pub func_fixups : ℕ → List ℕ
  pub func_offset : ℕ
  pub param_and_local_types : List ValueType
  pub local_decl_count : ℕ
  pub local_count : ℕ
  pub memory_index : Option ℕ

-- A method: `none` where it returns `Error`, and the reader after it.
abbrev pub M : Type 0 → Type 0
M A = Reader → Option A × Reader

infixl 5 ◌>>=◌ ◌>>◌
abbrev pub continue : {A B : Type 0} → (A → M B) → Option A × Reader → Option B × Reader
continue f (some a, r) = f a r
continue f (none, r) = (none, r)

abbrev pub ◌>>=◌ : {A B : Type 0} → M A → (A → M B) → M B
◌>>=◌ m f r = continue f (m r)

abbrev pub ◌>>◌ : {B : Type 0} → M (Unit {0}) → M B → M B
◌>>◌ m k r = continue (λ _. k) (m r)

abbrev pub pure : {A : Type 0} → A → M A
pure a r = (some a, r)

abbrev pub fail : {A : Type 0} → M A
fail r = (none, r)

-- `CHECK_RESULT` of a method of the type checker, and of one that hands out a label.
abbrev pub succeeded : State.Result → Option (Unit {0})
succeeded State.ok = some tt
succeeded State.error = none

unfoldable pub check : (Checker → State.Result × Checker) → M (Unit {0})
check m r = let (result, c) = m r.typechecker in (succeeded result, record r { typechecker = c })

unfoldable pub checker_label : ℕ → M Label
unfolding get_label
checker_label depth r =
    let (l, c) = get_label depth r.typechecker in (l, record r { typechecker = c })

unfoldable pub emit : (Emitter → Emitter) → M (Unit {0})
emit f r = (some tt, record r { emitter = f r.emitter })

abbrev pub get_istream_offset : M ℕ
get_istream_offset r = (some r.emitter.istream_offset, r)

abbrev pub invalid_istream_offset : ℕ
invalid_istream_offset = 2 ^ 32 - 1

unfoldable pub push_code_label : ℕ → ℕ → M (Unit {0})
push_code_label offset fixup_offset r = (
  some tt,
  record r {
    label_stack = record { offset = offset; fixup_offset = fixup_offset } ∷ r.label_stack;
  },
)

abbrev pub tail {ℓ} : {A : Type ℓ} → List A → List A
tail [] = []
tail (x ∷ xs) = xs

-- `depth_fixups_` is cut to the size of `label_stack_`.
unfoldable pub pop_code_label : M (Unit {0})
pop_code_label r =
    let labels = tail r.label_stack in
    (
      some tt,
      record r {
        label_stack = labels;
        depth_fixups = λ i. if ltb i (length labels) then r.depth_fixups i else [];
      },
    )

-- `GetLabel` and `TopLabel`; a depth that is out of range does not come here.
abbrev pub code_label : ℕ → M CodeLabel
code_label depth r = (get_elem? r.label_stack depth, r)

unfoldable pub append_fixup : (ℕ → List ℕ) → ℕ → ℕ → ℕ → List ℕ
append_fixup fixups_vector index offset i =
    if i == index then fixups_vector i ++ offset ∷ [] else fixups_vector i

abbrev pub append_depth_fixup : ℕ → M (Unit {0})
append_depth_fixup index r = (
  some tt,
  record r { depth_fixups = append_fixup r.depth_fixups index r.emitter.istream_offset },
)

unfoldable pub emit_br_offset : ℕ → ℕ → M (Unit {0})
unfolding append_fixup emit emit_i32
emit_br_offset depth offset = do
  (if offset == invalid_istream_offset
      then (λ r. append_depth_fixup (length r.label_stack - 1 - depth) r)
      else pure tt)
  emit (emit_i32 offset)

-- `a - b` as a uint32_t.
abbrev pub sub32 : ℕ → ℕ → ℕ
sub32 a b = (a + 2 ^ 32 - b % 2 ^ 32) % 2 ^ 32

unfoldable pub unreachable_here : M Bool
unfolding is_unreachable
unreachable_here r =
    let (u, c) = is_unreachable r.typechecker in (some u, record r { typechecker = c })

unfoldable pub get_br_drop_keep_count : ℕ → M (ℕ × ℕ)
unfolding checker_label unreachable_here br_types
get_br_drop_keep_count depth = do
  label ← checker_label depth
  let keep_count = length (br_types label)
  unreachable ← unreachable_here
  size ← λ r. (some (length r.typechecker.type_stack), r)
  pure (if unreachable then 0 else sub32 (sub32 size label.type_stack_limit) keep_count, keep_count)

unfoldable pub get_return_drop_keep_count : M (ℕ × ℕ)
unfolding get_br_drop_keep_count
get_return_drop_keep_count = do
  (drop_count, keep_count) ← λ r. get_br_drop_keep_count (length r.label_stack - 1) r
  locals ← λ r. (some (length r.param_and_local_types), r)
  pure ((drop_count + locals) % 2 ^ 32, keep_count)

abbrev pub br_info : ℕ × Opcode
br_info = (0x0c, Opcode.flow Control.br)

unfoldable pub emit_br : ℕ → ℕ → ℕ → M (Unit {0})
unfolding emit emit_drop_keep emit_opcode emit_br_offset
emit_br depth drop_count keep_count = do
  emit (emit_drop_keep drop_count keep_count)
  emit (emit_opcode br_info)
  label ← code_label depth
  emit_br_offset depth label.offset

unfoldable pub emit_br_table_offset : ℕ → M (Unit {0})
unfolding get_br_drop_keep_count emit_br_offset emit emit_i32
emit_br_table_offset depth = do
  (drop_count, keep_count) ← get_br_drop_keep_count depth
  label ← code_label depth
  emit_br_offset depth label.offset
  emit (emit_i32 drop_count)
  emit (emit_i32 keep_count)

-- The loop of `FixupTopLabel`.
unfoldable pub mend : ℕ → List ℕ → Emitter → Emitter
unfolding emit_i32_at
mend offset [] e = e
mend offset (fixup ∷ fixups) e = mend offset fixups (emit_i32_at fixup offset e)

unfoldable pub fixup_top_label : M (Unit {0})
unfolding mend
fixup_top_label r =
    let top = length r.label_stack - 1 in
    (
      some tt,
      record r {
        emitter = mend r.emitter.istream_offset (r.depth_fixups top) r.emitter;
        depth_fixups = λ i. if i == top then [] else r.depth_fixups i;
      },
    )

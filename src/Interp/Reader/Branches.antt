-- ===== src/Interp/Reader/Branches.antt =====
-- The callbacks of `BinaryReaderInterp` for blocks and branches, and for the begin and the end of a
-- function body (src/binary-reader-interp.cc). A block's signature is given by its types.
use wasm_sandboxing.Base.{
  ℕ, Option, ◌+◌, ◌*◌, ◌-◌, ◌%◌, ◌^◌, ◌||◌, List, [], ◌∷◌, ◌++◌, ◌==◌, if◌then◌else◌, length,
  replicate,
}
use wasm_sandboxing.TypeChecker.State.{ValueType, TypeVector, label_code, if_, else_}
use wasm_sandboxing.TypeChecker.Ops.{
  begin_function, on_block, on_loop, on_if, on_else, on_end, on_br, on_br_if, begin_br_table,
  on_br_table_target, end_br_table, end_function,
}
use wasm_sandboxing.TypeChecker.Simple.{on_return}
use wasm_sandboxing.Interp.Opcode.{Opcode}
use wasm_sandboxing.Interp.Opcode
use wasm_sandboxing.Interp.Control
use wasm_sandboxing.Interp.Emit.{emit_opcode, emit_i32, emit_i32_at, emit_drop_keep}
use wasm_sandboxing.Interp.Reader.{
  CodeLabel, M, ◌>>=◌, ◌>>◌, pure, check, checker_label, emit, get_istream_offset,
  invalid_istream_offset, push_code_label, pop_code_label, code_label, br_info, mend,
  get_br_drop_keep_count, get_return_drop_keep_count, emit_br, emit_br_table_offset,
  fixup_top_label,
}

abbrev br_unless_info : ℕ × Opcode
br_unless_info = (0xe1, Opcode.stack Control.interp_br_unless)

abbrev return_info : ℕ × Opcode
return_info = (0x0f, Opcode.flow Control.return)

abbrev br_table_info : ℕ × Opcode
br_table_info = (0x0e, Opcode.flow Control.br_table)

abbrev data_info : ℕ × Opcode
data_info = (0xe3, Opcode.never Opcode.interp_data)

abbrev alloca_info : ℕ × Opcode
alloca_info = (0xe0, Opcode.stack Control.interp_alloca)

unfoldable pub on_block_expr : TypeVector → TypeVector → M (Unit {0})
unfolding check on_block push_code_label
on_block_expr params results = do
  check (on_block params results)
  push_code_label invalid_istream_offset invalid_istream_offset

unfoldable pub on_loop_expr : TypeVector → TypeVector → M (Unit {0})
unfolding check on_loop push_code_label
on_loop_expr params results = do
  check (on_loop params results)
  offset ← get_istream_offset
  push_code_label offset invalid_istream_offset

unfoldable pub on_if_expr : TypeVector → TypeVector → M (Unit {0})
unfolding check on_if emit emit_opcode emit_i32 push_code_label
on_if_expr params results = do
  check (on_if params results)
  emit (emit_opcode br_unless_info)
  fixup_offset ← get_istream_offset
  emit (emit_i32 invalid_istream_offset)
  push_code_label invalid_istream_offset fixup_offset

-- An assignment through `TopLabel()`.
abbrev with_fixup : ℕ → List CodeLabel → List CodeLabel
with_fixup fixup_offset [] = []
with_fixup fixup_offset (l ∷ ls) = record l { fixup_offset = fixup_offset } ∷ ls

unfoldable pub set_fixup_offset : ℕ → M (Unit {0})
set_fixup_offset fixup_offset r =
    (Option.some tt, record r { label_stack = with_fixup fixup_offset r.label_stack })

unfoldable pub on_else_expr : M (Unit {0})
unfolding check on_else emit emit_opcode emit_i32 emit_i32_at set_fixup_offset
on_else_expr = do
  check on_else
  label ← code_label 0
  emit (emit_opcode br_info)
  fixup_offset ← get_istream_offset
  set_fixup_offset fixup_offset
  emit (emit_i32 invalid_istream_offset)
  offset ← get_istream_offset
  emit (emit_i32_at label.fixup_offset offset)

unfoldable pub mend_condition : M (Unit {0})
unfolding emit emit_i32_at
mend_condition = do
  label ← code_label 0
  offset ← get_istream_offset
  emit (emit_i32_at label.fixup_offset offset)

unfoldable pub on_end_expr : M (Unit {0})
unfolding check checker_label on_end mend_condition fixup_top_label pop_code_label
on_end_expr = do
  label ← checker_label 0
  check on_end
  (if label_code label.label_type == label_code if_
        || label_code label.label_type == label_code else_
      then mend_condition
      else pure tt)
  fixup_top_label
  pop_code_label

unfoldable pub on_br_expr : ℕ → M (Unit {0})
unfolding check on_br get_br_drop_keep_count emit_br
on_br_expr depth = do
  (drop_count, keep_count) ← get_br_drop_keep_count depth
  check (on_br depth)
  emit_br depth drop_count keep_count

unfoldable pub on_br_if_expr : ℕ → M (Unit {0})
unfolding check on_br_if get_br_drop_keep_count emit emit_opcode emit_i32 emit_i32_at emit_br
on_br_if_expr depth = do
  check (on_br_if depth)
  (drop_count, keep_count) ← get_br_drop_keep_count depth
  emit (emit_opcode br_unless_info)
  fixup_br_offset ← get_istream_offset
  emit (emit_i32 invalid_istream_offset)
  emit_br depth drop_count keep_count
  offset ← get_istream_offset
  emit (emit_i32_at fixup_br_offset offset)

-- The loop over the targets, the default one last.
unfoldable pub emit_targets : List ℕ → M (Unit {0})
unfolding check on_br_table_target emit_br_table_offset
emit_targets [] = pure tt
emit_targets (depth ∷ depths) = do
  check (on_br_table_target depth)
  emit_br_table_offset depth
  emit_targets depths

unfoldable pub on_br_table_expr : List ℕ → ℕ → M (Unit {0})
unfolding check begin_br_table end_br_table emit emit_opcode emit_i32 emit_i32_at emit_targets
on_br_table_expr target_depths default_target_depth = do
  check begin_br_table
  emit (emit_opcode br_table_info)
  emit (emit_i32 (length target_depths))
  fixup_table_offset ← get_istream_offset
  emit (emit_i32 invalid_istream_offset)
  emit (emit_opcode data_info)
  emit (emit_i32 ((length target_depths + 1) * 12))
  offset ← get_istream_offset
  emit (emit_i32_at fixup_table_offset offset)
  emit_targets (target_depths ++ default_target_depth ∷ [])
  check end_br_table

unfoldable pub on_return_expr : M (Unit {0})
unfolding check on_return get_return_drop_keep_count emit emit_drop_keep emit_opcode
on_return_expr = do
  (drop_count, keep_count) ← get_return_drop_keep_count
  check on_return
  emit (emit_drop_keep drop_count keep_count)
  emit (emit_opcode return_info)

-- `defined_index` is the function's index less the number of imported ones. `func_fixups` keeps its
-- offsets, as the vector does.
unfoldable pub begin_function_body : ℕ → TypeVector → TypeVector → M (Unit {0})
unfolding mend check begin_function push_code_label
begin_function_body defined_index params results = do
  (λ r. (
    Option.some tt,
    record r {
      label_stack = [];
      depth_fixups = λ i. [];
      func_offset = r.emitter.istream_offset;
      emitter = mend r.emitter.istream_offset (r.func_fixups defined_index) r.emitter;
      param_and_local_types = params;
      local_decl_count = 0;
      local_count = 0;
    },
  ))
  check (begin_function results)
  push_code_label invalid_istream_offset invalid_istream_offset

unfoldable pub end_function_body : M (Unit {0})
unfolding check end_function fixup_top_label get_return_drop_keep_count emit emit_drop_keep
    emit_opcode pop_code_label
end_function_body = do
  fixup_top_label
  (drop_count, keep_count) ← get_return_drop_keep_count
  check end_function
  emit (emit_drop_keep drop_count keep_count)
  emit (emit_opcode return_info)
  pop_code_label

unfoldable pub on_local_decl_count : ℕ → M (Unit {0})
on_local_decl_count count r = (Option.some tt, record r { local_decl_count = count })

-- The last declaration allocates the locals.
unfoldable pub on_local_decl : ℕ → ℕ → ValueType → M (Unit {0})
unfolding emit emit_opcode emit_i32
on_local_decl decl_index count type = do
  (λ r. (
    Option.some tt,
    record r {
      local_count = (r.local_count + count) % 2 ^ 32;
      param_and_local_types = r.param_and_local_types ++ replicate count type;
    },
  ))
  (λ r.
      (if decl_index == (r.local_decl_count + 2 ^ 32 - 1) % 2 ^ 32
          then (do emit (emit_opcode alloca_info); emit (emit_i32 r.local_count))
          else pure tt)
        r)

-- ===== src/BinaryReader/State.antt =====
-- The state of `BinaryReader` and its calls of the delegate (src/binary-reader.cc,
-- src/binary-reader.h). `size` is the length of the file. What the delegate answers is a function
-- of the calls that it has had, the newest first. A type is the uint32_t that was read for it, a
-- text the list of its bytes. The text of messages is left out.
use wasm_sandboxing.Base.{
  ℕ, zero, suc, ◌+◌, Bool, true, ◌&&◌, not, Option, List, [], ◌∷◌, if◌then◌else◌,
}
use wasm_sandboxing.Interp.Opcode.{Opcode}

abbrev pub Text : Type 0
Text = List ℕ

pub record Limits : Type 0 where
  pub initial : ℕ
  pub max : ℕ
  pub has_max : Bool
  pub is_shared : Bool

-- The callbacks that tell of an instruction.
pub data InstrEvent : Type 0 where
  on_opcode : Option Opcode → InstrEvent
  on_opcode_bare on_unreachable on_else on_select on_return on_nop on_drop on_end on_end_func :
      InstrEvent
  on_memory_size on_memory_grow on_catch on_rethrow : InstrEvent
  on_opcode_block_sig on_block on_loop on_if on_try : ℕ → InstrEvent
  on_opcode_index on_br on_br_if on_throw : ℕ → InstrEvent
  on_if_except : ℕ → ℕ → InstrEvent
  on_br_table : List ℕ → ℕ → InstrEvent
  on_opcode_uint32 on_opcode_uint64 on_opcode_f32 on_opcode_f64 on_opcode_v128 : ℕ → InstrEvent
  on_i32_const on_i64_const on_f32_const on_f64_const on_v128_const : ℕ → InstrEvent
  on_get_global on_get_local on_set_global on_set_local on_tee_local on_call on_call_indirect :
      ℕ → InstrEvent
  on_opcode_uint32_uint32 : ℕ → ℕ → InstrEvent
  on_load on_store on_atomic_wake on_atomic_wait on_atomic_load on_atomic_store on_atomic_rmw
        on_atomic_rmw_cmpxchg :
      Opcode → ℕ → ℕ → InstrEvent
  on_binary on_compare on_unary on_ternary on_convert : Opcode → InstrEvent
  on_simd_lane_op on_simd_shuffle_op : Opcode → ℕ → InstrEvent

-- The sections that are bracketed by a pair of callbacks.
pub data Part : Type 0 where
  type_ import_ function_ table_ memory_ global_ export_ start_ elem_ code_ data_ names_ reloc_
        linking_ exception_ :
      Part

-- What a count is told of.
pub data Counted : Type 0 where
  types imports functions tables memories globals exports elem_segments function_bodies
        data_segments function_names local_name_functions symbols segment_infos init_functions
        exceptions local_decls :
      Counted

pub data Event : Type 0 where
  instr : InstrEvent → Event
  begin_module : ℕ → Event
  end_module end_custom_section : Event
  begin_part : Part → ℕ → Event
  end_part : Part → Event
  begin_custom_section : ℕ → Text → Event
  on_count : Counted → ℕ → Event
  on_type : ℕ → List ℕ → List ℕ → Event
  on_import : ℕ → Text → Text → Event
  on_import_func : ℕ → Text → Text → ℕ → ℕ → Event
  on_import_table : ℕ → Text → Text → ℕ → ℕ → Limits → Event
  on_import_memory : ℕ → Text → Text → ℕ → Limits → Event
  on_import_global : ℕ → Text → Text → ℕ → ℕ → Bool → Event
  on_import_exception : ℕ → Text → Text → ℕ → List ℕ → Event
  on_function : ℕ → ℕ → Event
  on_table : ℕ → ℕ → Limits → Event
  on_memory : ℕ → Limits → Event
  begin_global : ℕ → ℕ → Bool → Event
  begin_global_init_expr end_global_init_expr end_global : ℕ → Event
  on_export : ℕ → ℕ → ℕ → Text → Event
  on_start_function : ℕ → Event
  begin_elem_segment : ℕ → ℕ → Event
  begin_elem_segment_init_expr end_elem_segment_init_expr end_elem_segment : ℕ → Event
  on_elem_segment_function_index_count on_elem_segment_function_index : ℕ → ℕ → Event
  begin_function_body end_function_body : ℕ → Event
  on_local_decl : ℕ → ℕ → ℕ → Event
  begin_data_segment : ℕ → ℕ → Event
  begin_data_segment_init_expr end_data_segment_init_expr end_data_segment : ℕ → Event
  on_data_segment_data : ℕ → List ℕ → Event
  on_init_expr_i32_const on_init_expr_i64_const on_init_expr_f32_const on_init_expr_f64_const
        on_init_expr_v128_const on_init_expr_get_global :
      ℕ → ℕ → Event
  on_module_name_subsection on_function_name_subsection on_local_name_subsection : ℕ → ℕ → ℕ → Event
  on_module_name : Text → Event
  on_function_name : ℕ → Text → Event
  on_local_name_local_count : ℕ → ℕ → Event
  on_local_name : ℕ → ℕ → Text → Event
  on_reloc_count : ℕ → ℕ → Event
  on_reloc : ℕ → ℕ → ℕ → ℕ → Event
  on_symbol : ℕ → ℕ → ℕ → Event
  on_function_symbol on_global_symbol : ℕ → ℕ → Text → ℕ → Event
  on_data_symbol : ℕ → ℕ → Text → ℕ → ℕ → ℕ → Event
  on_section_symbol : ℕ → ℕ → ℕ → Event
  on_segment_info : ℕ → Text → ℕ → ℕ → Event
  on_init_function : ℕ → ℕ → Event
  on_exception_type : ℕ → List ℕ → Event

pub data ErrorLevel : Type 0 where
  warning error : ErrorLevel

-- `BeginSection` and `OnError` stand beside the other callbacks.
pub data Call : Type 0 where
  begin_section : ℕ → ℕ → Call
  on_error : ErrorLevel → Call
  event : Event → Call

pub record Features : Type 0 where
  pub exceptions : Bool
  pub mutable_globals : Bool
  pub sat_float_to_int : Bool
  pub sign_extension : Bool
  pub threads : Bool
  pub simd : Bool
  pub multi_value : Bool

pub record Options : Type 0 where
  pub features : Features
  pub read_debug_names : Bool
  pub stop_on_first_error : Bool
  pub fail_on_custom_section_error : Bool

-- The counts that later checks rest on.
pub record Counts : Type 0 where
  pub num_signatures : ℕ
  pub num_imports : ℕ
  pub num_func_imports : ℕ
  pub num_table_imports : ℕ
  pub num_memory_imports : ℕ
  pub num_global_imports : ℕ
  pub num_exception_imports : ℕ
  pub num_function_signatures : ℕ
  pub num_tables : ℕ
  pub num_memories : ℕ
  pub num_globals : ℕ
  pub num_exports : ℕ
  pub num_function_bodies : ℕ
  pub num_exceptions : ℕ

-- `last_known_section` is `none` for `BinarySection::Invalid`.
pub record Reader : Type 0 where
  pub bytes : List ℕ
  pub read_end : ℕ
  pub offset : ℕ
  pub calls : List Call
  pub answer : List Call → Bool
  pub options : Options
  pub last_known_section : Option ℕ
  pub did_read_names_section : Bool
  pub reading_custom_section : Bool
  pub counts : Counts

-- How a method ends; `no_fuel` is not an end of the source's.
pub data Outcome (A : Type 0) : Type 0 where
  ok : A → Outcome A
  failed no_fuel : Outcome A

abbrev pub M : Type 0 → Type 0
M A = Reader → Outcome A × Reader

infixl 5 ◌>>=◌ ◌>>◌
abbrev pub continue : {A B : Type 0} → (A → M B) → Outcome A × Reader → Outcome B × Reader
continue f (ok a, r) = f a r
continue f (failed, r) = (failed, r)
continue f (no_fuel, r) = (no_fuel, r)

abbrev pub ◌>>=◌ : {A B : Type 0} → M A → (A → M B) → M B
◌>>=◌ m f r = continue f (m r)

abbrev pub ◌>>◌ : {B : Type 0} → M (Unit {0}) → M B → M B
◌>>◌ m k r = continue (λ _. k) (m r)

abbrev pub pure : {A : Type 0} → A → M A
pure a r = (ok a, r)

abbrev pub out_of_fuel : {A : Type 0} → M A
out_of_fuel r = (no_fuel, r)

abbrev pub called : Call → Reader → Reader
called c r = record r { calls = c ∷ r.calls }

-- `PrintError` and `return Result::Error`.
unfoldable pub fail : {A : Type 0} → M A
fail r =
    let level =
      if r.reading_custom_section && not r.options.fail_on_custom_section_error
      then warning
      else ErrorLevel.error in
    (failed, called (on_error level) r)

unfoldable pub error_unless : Bool → M (Unit {0})
unfolding fail
error_unless b = if b then pure tt else fail

unfoldable pub answered : Call → M (Unit {0})
unfolding error_unless
answered c r = error_unless (r.answer (c ∷ r.calls)) (called c r)

-- `CALLBACK` and `CALLBACK0`.
unfoldable pub callback : Event → M (Unit {0})
unfolding answered
callback e = answered (event e)

abbrev pub on_instr : InstrEvent → M (Unit {0})
on_instr e = callback (instr e)

unfoldable pub get_counts : M Counts
get_counts r = (ok r.counts, r)

unfoldable pub set_counts : (Counts → Counts) → M (Unit {0})
set_counts f r = (ok tt, record r { counts = f r.counts })

unfoldable pub get_options : M Options
get_options r = (ok r.options, r)

abbrev pub restore_read_end : {A : Type 0} → ℕ → Outcome A × Reader → Outcome A × Reader
restore_read_end e (o, r) = (o, record r { read_end = e })

-- `ReadEndRestoreGuard`, for the rest of a block.
unfoldable pub with_read_end : {A : Type 0} → ℕ → M A → M A
with_read_end e m r = restore_read_end r.read_end (m (record r { read_end = e }))

abbrev pub restore_custom : {A : Type 0} → Bool → Outcome A × Reader → Outcome A × Reader
restore_custom b (o, r) = (o, record r { reading_custom_section = b })

unfoldable pub with_custom_section : {A : Type 0} → M A → M A
with_custom_section m r =
    restore_custom r.reading_custom_section (m (record r { reading_custom_section = true }))

-- A loop of `n` rounds from the index `i` on.
unfoldable pub repeat : ℕ → ℕ → (ℕ → M (Unit {0})) → M (Unit {0})
repeat i zero m = pure tt
repeat i (suc n) m = do m i; repeat (i + 1) n m

-- A loop of `n` rounds that fills a vector.
unfoldable pub collect : ℕ → M ℕ → M (List ℕ)
collect zero m = pure []
collect (suc n) m = do x ← m; xs ← collect n m; pure (x ∷ xs)

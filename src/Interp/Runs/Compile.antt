-- ===== src/Interp/Runs/Compile.antt =====
-- Function bodies that the reader type-checks and emits and the interpreter runs
-- (src/binary-reader-interp.cc, src/interp.cc).
use wasm_sandboxing.Base.{ℕ, Option, some, none, false, List, [], ◌∷◌, ◌≡◌, refl, arith}
use wasm_sandboxing.TypeChecker.State
use wasm_sandboxing.TypeChecker.Check
use wasm_sandboxing.Interp.Opcode
use wasm_sandboxing.Interp.Ops.I32
use wasm_sandboxing.Interp.Executor.{run_function}
use wasm_sandboxing.Interp.State.{Thread, drop_keep}
use wasm_sandboxing.Interp.Run.{instruction}
use wasm_sandboxing.Interp.Emit.{Emitter, emit_drop_keep}
use wasm_sandboxing.Interp.Emit.Executes.{instruction-emit_drop_keep}
use wasm_sandboxing.Interp.Reader.{Reader, M, ◌>>◌}
use wasm_sandboxing.Interp.Reader.Branches.{
  begin_function_body, end_function_body, on_block_expr, on_end_expr, on_br_if_expr,
  on_local_decl_count, on_local_decl,
}
use wasm_sandboxing.Interp.Reader.Simple.{on_i32_const_expr, on_binary_expr, on_drop_expr}
use wasm_sandboxing.Interp.Runs.{sample_host, thread_of, with_values, outcome, values_of}

abbrev reader : Reader
reader = record {
  typechecker = record {
    error_callback = false;
    errors = [];
    type_stack = [];
    label_stack = [];
    br_table_sig = none;
  };
  emitter = record { istream = λ i. 0; istream_offset = 0 };
  label_stack = [];
  depth_fixups = λ i. [];
  func_fixups = λ i. [];
  func_offset = 0;
  param_and_local_types = [];
  local_decl_count = 0;
  local_count = 0;
  memory_index = none;
}

abbrev sub_op : Check.Opcode
sub_op = record {
  name = "i32.sub";
  result_type = State.i32;
  param1 = State.i32;
  param2 = State.i32;
  param3 = State.void;
}

-- The value that the body returns, with a local of type i32.
abbrev with_local : M (Unit {0}) → M (Unit {0})
with_local body = do
  begin_function_body 0 [] (State.i32 ∷ [])
  on_local_decl_count 1
  on_local_decl 0 1 State.i32
  body
  end_function_body

abbrev run_emitted : Option (Unit {0}) × Reader → List ℕ
run_emitted (none, r) = []
run_emitted (some x, r) =
    let t = thread_of [] in
    values_of (
      outcome (
        run_function sample_host 1000 1 0 []
          (record t { env = record t.env { istream = r.emitter.istream } })))

-- A branch out of a block takes its value past the one it drops, over 5: 5 - 9 is left.
abbrev branching : M (Unit {0})
branching = do
  on_i32_const_expr 5
  on_block_expr [] (State.i32 ∷ [])
  on_i32_const_expr 4
  on_i32_const_expr 9
  on_i32_const_expr 1
  on_br_if_expr 0
  on_drop_expr
  on_end_expr
  on_binary_expr sub_op (0x6b, Opcode.i32 I32.i32_sub)

test_branching : run_emitted (with_local branching reader) ≡ 0xfffffffc ∷ []
unfolding run_function begin_function_body end_function_body on_block_expr on_end_expr on_br_if_expr
    on_local_decl_count on_local_decl on_i32_const_expr on_binary_expr on_drop_expr
test_branching = refl

-- Two values dropped below one that is kept, emitted at offset 5.
abbrev dropping : Emitter
dropping = emit_drop_keep 2 1 (record { istream = λ i. 0; istream_offset = 5 })

abbrev at_drop : Thread
at_drop =
    let t = with_values (7 ∷ 8 ∷ 9 ∷ []) in
    record t { env = record t.env { istream = dropping.istream }; pc = 5 }

instruction-emit_drop_keep_example :
    instruction sample_host at_drop
    ≡ drop_keep 2 1 (record at_drop { pc = dropping.istream_offset })
instruction-emit_drop_keep_example =
    instruction-emit_drop_keep sample_host 2 1 (record { istream = λ i. 0; istream_offset = 5 })
      at_drop (omega arith) (omega arith) (omega arith) (omega arith) refl refl

-- ===== src/Interp/Runs.antt =====
-- Tests of the interpreter on small programs, and its theorems at concrete inputs (src/interp.cc).
mod Access
mod Calls
mod Compile
use wasm_sandboxing.Base.{
  ℕ, ◌+◌, ◌-◌, ◌*◌, ◌/◌, false, Option, some, List, [], ◌∷◌, ◌≡◌, refl, ltb, leb, ◌==◌,
  if◌then◌else◌, get_elem?, length, arith,
}
use wasm_sandboxing.TypeChecker.State.{ValueType}
use wasm_sandboxing.Interp.State
use wasm_sandboxing.Interp.State.{
  Result, ok, returned, FuncSignature, Limits, Memory, Table, TypedValue, FuncKind, Func,
  Environment, Thread, Flow, next, stop, thread_after,
}
use wasm_sandboxing.Interp.Host.{Host}
use wasm_sandboxing.Interp.Run.{instructions}
use wasm_sandboxing.Interp.Executor.{run_function, run_loop}
use wasm_sandboxing.Interp.Executor.Chunks.{run_loop-stop}
use wasm_sandboxing.Interp.Opcode.{Opcode}
use wasm_sandboxing.Interp.Ops.Convert
use wasm_sandboxing.Interp.Decode.{infos, read_opcode}
use wasm_sandboxing.Interp.Emit.{Emitter, emit_opcode}
use wasm_sandboxing.Interp.Emit.RoundTrip.{read_opcode-emit_opcode}

abbrev pub sample_value : TypedValue
sample_value = record { value_type = ValueType.i32; value = 7 }

-- A processor that counts nothing and whose floats are numbers.
abbrev pub sample_host : Host
sample_host = record {
  count_leading_zeros = λ w x. 0;
  count_trailing_zeros = λ w x. 0;
  count_ones = λ w x. 0;
  float_add = λ w x y. x + y;
  float_sub = λ w x y. x - y;
  float_mul = λ w x y. x * y;
  float_div = λ w x y. x / y;
  float_eq = λ w x y. x == y;
  float_lt = λ w x y. ltb x y;
  float_le = λ w x y. leb x y;
  ceil = λ w x. x;
  floor = λ w x. x;
  trunc = λ w x. x;
  nearbyint = λ w x. x;
  sqrt = λ w x. x;
  to_int = λ c w x. x;
  of_int = λ c w x. x;
  demote = λ x. x;
  promote = λ x. x;
  beyond_array = λ i. 0;
  callback = λ id sig args env. (State.host_trapped, λ i. sample_value, env);
}

abbrev pub nth_byte : List ℕ → ℕ → ℕ
nth_byte [] i = 0
nth_byte (b ∷ bs) i = if i == 0 then b else nth_byte bs (i - 1)

-- `i32.const 2`, `i32.const 3`, `i32.sub`, `return`
abbrev pub sub_code : List ℕ
sub_code = 0x41 ∷ 2 ∷ 0 ∷ 0 ∷ 0 ∷ 0x41 ∷ 3 ∷ 0 ∷ 0 ∷ 0 ∷ 0x6b ∷ 0x0f ∷ []

abbrev pub empty_memory : Memory
empty_memory = record {
  page_limits = record { initial = 0; max = 0; has_max = false };
  bytes = λ i. 0;
  data_size = 0;
}

abbrev pub env_of : List ℕ → Environment
env_of code = record {
  sigs = λ i. record { param_types = []; result_types = ValueType.i32 ∷ [] };
  funcs = λ i. record { sig_index = 0; kind = FuncKind.defined 0 };
  memories = λ i. empty_memory;
  tables = λ i. record { func_indexes = λ j. 0; table_size = 0 };
  globals = λ i. 0;
  istream = nth_byte code;
}

abbrev pub thread_of : List ℕ → Thread
thread_of code = record {
  env = env_of code;
  value_stack = λ i. 0;
  value_stack_size = 100;
  value_stack_top = 0;
  call_stack = λ i. 0;
  call_stack_size = 10;
  call_stack_top = 0;
  pc = 0;
}

abbrev pub outcome {ℓ κ} : {A : Type ℓ} {B : Type κ} → A × B → A
outcome (a, b) = a

abbrev pub values_of : Flow (Option (Result × List TypedValue)) → List ℕ
values_of (next (some (ok, v ∷ []))) = v.value ∷ []
values_of _ = []

test_sub :
    values_of (outcome (run_function sample_host 1000 1 0 [] (thread_of sub_code)))
    ≡ 0xffffffff ∷ []
unfolding run_function
test_sub = refl

-- The thread that runs `sub_code`, after the four instructions.
abbrev pub sub_end : Thread
sub_end = thread_after (instructions sample_host 4 (thread_of sub_code))

sub_ends : instructions sample_host 4 (thread_of sub_code) ≡ (stop returned, sub_end)
unfolding instructions
sub_ends = refl

run_loop-stop_example :
    (pc : ℕ) × (run_loop sample_host 1000 1 (thread_of sub_code)
      ≡ (next (some ok), record sub_end { pc = pc }))
run_loop-stop_example =
    run_loop-stop sample_host 1000 1 4 (thread_of sub_code) returned sub_end (omega arith) refl
      sub_ends

-- The stream after the first opcode with a prefix, written at offset 5.
abbrev pub emitted : Emitter
emitted =
    emit_opcode (0xfc00, Opcode.convert Convert.i32_trunc_s_sat_f32)
      (record { istream = λ i. 0; istream_offset = 5 })

abbrev pub emitted_thread : Thread
emitted_thread =
    let t = thread_of [] in record t { env = record t.env { istream = emitted.istream }; pc = 5 }

math_entry : get_elem? infos 187 ≡ some (0xfc00, Opcode.convert Convert.i32_trunc_s_sat_f32)
unfolding infos
math_entry = refl

read_opcode-emit_opcode_example : read_opcode emitted_thread ≡ (
  next (some (Opcode.convert Convert.i32_trunc_s_sat_f32)),
  record emitted_thread { pc = emitted.istream_offset },
)
read_opcode-emit_opcode_example =
    read_opcode-emit_opcode 187 0xfc00 (Opcode.convert Convert.i32_trunc_s_sat_f32)
      (record { istream = λ i. 0; istream_offset = 5 }) emitted_thread (omega arith) math_entry refl
      refl

-- A memory of three pages, and a thread with a stack of the given values, the deepest first.
abbrev pub three_pages : Memory
three_pages = record {
  page_limits = record { initial = 3; max = 0; has_max = false };
  bytes = λ i. 0;
  data_size = 3 * 0x10000;
}

abbrev pub with_values : List ℕ → Thread
with_values vs =
    let t = thread_of [] in
    record t {
      env = record t.env { memories = λ i. three_pages };
      value_stack = nth_byte vs;
      value_stack_top = length vs;
    }

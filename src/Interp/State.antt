-- ===== src/Interp/State.antt =====
-- The state of a thread and of the environment it runs in, and the primitives on its two stacks
-- (src/interp.h, src/interp.cc).
-- A `Value` is a number that `GetValue` cuts to the width it is read at. Vectors are functions
-- with a size beside them. An index that falls below 0 wraps round, as a uint32_t does, and what
-- stands there is whatever the function gives. `pc` is the local of `Thread::Run`.
pub mod DropKeep
use wasm_sandboxing.Base.{
  ℕ, zero, suc, ◌+◌, ◌-◌, ◌*◌, ◌%◌, ◌^◌, Bool, true, false, List, [], ◌∷◌, ltb, leb, ◌==◌,
  if◌then◌else◌,
}
use wasm_sandboxing.TypeChecker.State.{ValueType}

pub data Result : Type 0 where
  ok returned memory_access_out_of_bounds atomic_memory_access_unaligned integer_overflow : Result
  integer_divide_by_zero invalid_conversion_to_integer undefined_table_index : Result
  uninitialized_table_element unreachable indirect_call_signature_mismatch : Result
  call_stack_exhausted value_stack_exhausted host_result_type_mismatch host_trapped : Result
  argument_type_mismatch unknown_export export_kind_mismatch : Result

pub record FuncSignature : Type 0 where
  pub param_types : List ValueType
  pub result_types : List ValueType

pub record Limits : Type 0 where
  pub initial : ℕ
  pub max : ℕ
  pub has_max : Bool

pub record Memory : Type 0 where
  pub page_limits : Limits
  pub bytes : ℕ → ℕ
  pub data_size : ℕ

pub record Table : Type 0 where
  pub func_indexes : ℕ → ℕ
  pub table_size : ℕ

pub record TypedValue : Type 0 where
  pub value_type : ValueType
  pub value : ℕ

-- `DefinedFunc` with its offset, and `HostFunc` with a number for its callback.
pub data FuncKind : Type 0 where
  defined host : ℕ → FuncKind

pub record Func : Type 0 where
  pub sig_index : ℕ
  pub kind : FuncKind

pub record Environment : Type 0 where
  pub sigs : ℕ → FuncSignature
  pub funcs : ℕ → Func
  pub memories : ℕ → Memory
  pub tables : ℕ → Table
  pub globals : ℕ → ℕ
  pub istream : ℕ → ℕ

pub record Thread : Type 0 where
  pub env : Environment
  pub value_stack : ℕ → ℕ
  pub value_stack_size : ℕ
  pub value_stack_top : ℕ
  pub call_stack : ℕ → ℕ
  pub call_stack_size : ℕ
  pub call_stack_top : ℕ
  pub pc : ℕ

-- A step goes on with a value, leaves `Run` with a result, or aborts the process
-- (`WABT_UNREACHABLE`); the thread has changed either way.
pub data Flow (A : Type 0) : Type 0 where
  next : A → Flow A
  stop : Result → Flow A
  aborted : Flow A

abbrev pub M : Type 0 → Type 0
M A = Thread → Flow A × Thread

infixl 5 ◌>>=◌ ◌>>◌
abbrev pub continue : {A B : Type 0} → (A → M B) → Flow A × Thread → Flow B × Thread
continue f (next a, t) = f a t
continue f (stop r, t) = (stop r, t)
continue f (aborted, t) = (aborted, t)

abbrev pub ◌>>=◌ : {A B : Type 0} → M A → (A → M B) → M B
◌>>=◌ m f t = continue f (m t)

abbrev pub ◌>>◌ : {B : Type 0} → M (Unit {0}) → M B → M B
◌>>◌ m k t = continue (λ _. k) (m t)

abbrev pub pure : {A : Type 0} → A → M A
pure a t = (next a, t)

abbrev pub trap : {A : Type 0} → Result → M A
trap r t = (stop r, t)

abbrev pub trap_if : Bool → Result → M (Unit {0})
trap_if c r = if c then trap r else pure tt

-- A call whose result the caller drops.
abbrev pub ignored : Flow (Unit {0}) × Thread → Flow (Unit {0}) × Thread
ignored (aborted, t) = (aborted, t)
ignored (next x, t) = (next tt, t)
ignored (stop r, t) = (next tt, t)

abbrev pub ignore : M (Unit {0}) → M (Unit {0})
ignore m t = ignored (m t)

abbrev pub thread_after : {A : Type 0} → Flow A × Thread → Thread
thread_after (x, t) = t

abbrev pub put {ℓ} : {A : Type ℓ} → (ℕ → A) → ℕ → A → ℕ → A
put f i v j = if j == i then v else f j

-- `memcpy` of `n` bytes, lowest first, from a byte function.
abbrev pub read_bytes : (ℕ → ℕ) → ℕ → ℕ → ℕ
read_bytes d a zero = 0
read_bytes d a (suc n) = d a + 256 * read_bytes d (a + 1) n

-- `ReadUx`: the immediates in the instruction stream.
unfoldable pub read_ux : ℕ → M ℕ
read_ux n t = (next (read_bytes t.env.istream t.pc n), record t { pc = t.pc + n })

unfoldable pub read_u8 : M ℕ
unfolding read_ux
read_u8 = read_ux 1

unfoldable pub read_u32 : M ℕ
unfolding read_ux
read_u32 = read_ux 4

unfoldable pub read_u64 : M ℕ
unfolding read_ux
read_u64 = read_ux 8

unfoldable pub read_v128 : M ℕ
unfolding read_ux
read_v128 = read_ux 16

unfoldable pub goto : ℕ → M (Unit {0})
goto offset t = (next tt, record t { pc = offset })

unfoldable pub reset : Thread → Thread
reset t = record t { pc = 0; value_stack_top = 0; call_stack_top = 0 }

unfoldable pub push : ℕ → M (Unit {0})
push v t = if leb t.value_stack_size t.value_stack_top then (stop value_stack_exhausted, t) else (
  next tt,
  record t {
    value_stack = put t.value_stack t.value_stack_top v;
    value_stack_top = t.value_stack_top + 1;
  },
)

-- `top - n` of a uint32_t.
abbrev pub below : ℕ → ℕ → ℕ
below top n = if leb n top then top - n else top + 2 ^ 32 - n

unfoldable pub pop : M ℕ
pop t = (
  next (t.value_stack (below t.value_stack_top 1)),
  record t { value_stack_top = below t.value_stack_top 1 },
)

-- `Pick` as a value, and as the target of an assignment.
unfoldable pub pick : ℕ → M ℕ
pick depth t = (next (t.value_stack (below t.value_stack_top depth)), t)

unfoldable pub set_pick : ℕ → ℕ → M (Unit {0})
set_pick depth v t =
    (next tt, record t { value_stack = put t.value_stack (below t.value_stack_top depth) v })

-- `Push<T>` and `Pop<T>`, `PushRep<T>` and `PopRep<T>` for a `T` of `w` bits.
unfoldable pub push_rep : ℕ → ℕ → M (Unit {0})
unfolding push
push_rep w v = push (v % 2 ^ w)

unfoldable pub pop_rep : ℕ → M ℕ
unfolding pop
pop_rep w = do v ← pop; pure (v % 2 ^ w)

-- The loop of `DropKeep` from round `i`, with `left` rounds to go.
unfoldable pub keep_loop : ℕ → ℕ → ℕ → M (Unit {0})
unfolding pick set_pick
keep_loop drop_count i zero = pure tt
keep_loop drop_count i (suc left) = do
  v ← pick (i + 1)
  set_pick (drop_count + i + 1) v
  keep_loop drop_count (i + 1) left

unfoldable pub drop_values : ℕ → M (Unit {0})
drop_values n t = (next tt, record t { value_stack_top = below t.value_stack_top n })

unfoldable pub drop_keep : ℕ → ℕ → M (Unit {0})
unfolding keep_loop drop_values
drop_keep drop_count keep_count = do keep_loop drop_count 0 keep_count; drop_values drop_count

unfoldable pub push_call : M (Unit {0})
push_call t = if leb t.call_stack_size t.call_stack_top then (stop call_stack_exhausted, t) else (
  next tt,
  record t {
    call_stack = put t.call_stack t.call_stack_top t.pc;
    call_stack_top = t.call_stack_top + 1;
  },
)

unfoldable pub pop_call : M ℕ
pop_call t = (
  next (t.call_stack (below t.call_stack_top 1)),
  record t { call_stack_top = below t.call_stack_top 1 },
)

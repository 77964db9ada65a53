-- ===== src/Interp/Calls/Safe.antt =====
-- Calls through a table and of host functions (src/interp.cc).
use wasm_sandboxing.Base.{
  ℕ, ◌+◌, ◌-◌, ◌%◌, ◌^◌, ◌<◌, ◌≡◌, ◌≢◌, ◌∙◌, inl, inr, refl, sym, ap, Bool, true, false, not,
  Bool-cases, List, [], ◌∷◌, leb, ◌==◌, arith,
}
use wasm_sandboxing.TypeChecker.State.{ValueType, same_type}
use wasm_sandboxing.TypeChecker.Ops.{same_types}
use wasm_sandboxing.TypeChecker.Pops.{same_type→eq}
use wasm_sandboxing.Interp.State
use wasm_sandboxing.Interp.State.{
  Environment, put, thread_after, push_call, goto, FuncSignature, FuncKind, host, defined, Func,
  Table, Thread, Flow, next, stop, M, ◌>>=◌, ◌>>◌, continue, ignored, read_u32, read_ux, read_bytes,
  below, pop, pop_rep,
}
use wasm_sandboxing.Interp.Host.{Host}
use wasm_sandboxing.Interp.Calls.Frame.{HasCalled, frame, call_host_lem}
use wasm_sandboxing.Interp.Calls.{
  enter, call_host, call_indirect, interp_call_host, func_signatures_are_equal, call_indirect_to,
  host_only, run_call,
}

ignored-goes_on :
    (x : Flow (Unit {0}) × Thread) (r : State.Result) (t : Thread) → ignored x ≢ (stop r, t)
ignored-goes_on (next a, t') r t e = absurd (ground arith)
ignored-goes_on (stop r', t') r t e = absurd (ground arith)
ignored-goes_on (State.aborted, t') r t e = absurd (ground arith)

host_only-goes_on :
    (h : Host) (sig : FuncSignature) (kind : FuncKind) (t t' : Thread) (r : State.Result)
    → host_only h sig kind t ≢ (stop r, t')
unfolding host_only
host_only-goes_on h sig (host id) t t' r e = ignored-goes_on _ r t' e
host_only-goes_on h sig (defined offset) t t' r e = absurd (ground arith)

-- `InterpCallHost` ends no run: what the callback returned, a trap too, is dropped.
interp_call_host-goes_on :
    (h : Host) (t t' : Thread) (r : State.Result) → run_call h interp_call_host t ≢ (stop r, t')
unfolding run_call read_u32 read_ux
interp_call_host-goes_on h t t' r e =
    let func = t.env.funcs (read_bytes t.env.istream t.pc 4) in
    host_only-goes_on h (t.env.sigs func.sig_index) func.kind (record t { pc = t.pc + 4 }) t' r e

-- A signature with the types of another is that one.
not-false : (b : Bool) → not b ≡ false → b ≡ true
not-false true e = refl
not-false false e = absurd (ground arith)

signature_eq :
    (a b : FuncSignature) → a.param_types ≡ b.param_types → a.result_types ≡ b.result_types → a ≡ b
signature_eq a b p r = cc

same_types→eq : (a b : List ValueType) → same_types a b ≡ true → a ≡ b
same_types→eq [] [] e = refl
same_types→eq [] (u ∷ us) e = absurd (ground arith)
same_types→eq (t ∷ ts) [] e = absurd (ground arith)
same_types→eq (t ∷ ts) (u ∷ us) e = elim (Bool-cases (same_type t u)) [
  | inl s ↦
      let e' : same_types ts us ≡ true = ground arith in
      rw (same_type→eq t u s) (ap (λ l. u ∷ l) (same_types→eq ts us e'))
  | inr s ↦ absurd (ground arith)
]

func_signatures_are_equal→eq :
    (env : Environment) (i j : ℕ)
    → func_signatures_are_equal env i j ≡ true
    → env.sigs i ≡ env.sigs j
unfolding func_signatures_are_equal
func_signatures_are_equal→eq env i j e = elim (Bool-cases (i == j)) [
  | inl s ↦ let ij : i ≡ j = ground arith in ap env.sigs ij
  | inr s ↦
      let p = same_types→eq (env.sigs i).param_types (env.sigs j).param_types (ground arith) in
      let r = same_types→eq (env.sigs i).result_types (env.sigs j).result_types (ground arith) in
      signature_eq (env.sigs i) (env.sigs j) p r
]

checks-pass :
    {A : Type 0} (c : Bool) (r : State.Result) (m : M A) (t t' : Thread) (a : A)
    → (State.trap_if c r >> m) t ≡ (next a, t')
    → (c ≡ false) × (m t ≡ (next a, t'))
checks-pass true r m t t' a e = absurd (ground arith)
checks-pass false r m t t' a e = (refl, e)

-- The immediates of `call_indirect` and the index on the stack.
abbrev pub table_of : Thread → Table
table_of t = t.env.tables (read_bytes t.env.istream t.pc 4)

abbrev pub expected_sig : Thread → ℕ
expected_sig t = read_bytes t.env.istream (t.pc + 4) 4

abbrev pub entry_index : Thread → ℕ
entry_index t = t.value_stack (below t.value_stack_top 1) % 2 ^ 32

-- The thread past the immediates, with the index taken off the stack.
abbrev pub fetched : Thread → Thread
fetched t = record t { pc = t.pc + 8; value_stack_top = below t.value_stack_top 1 }

-- What the call of a function makes of a thread.
abbrev pub Entered : Host → FuncSignature → FuncKind → Thread → Thread → Type 0
Entered h sig (host id) t t' = HasCalled h sig id t t' × (frame t' ≡ frame t)
Entered h sig (defined offset) t t' =
    (t.call_stack_top < t.call_stack_size)
    × (t' ≡ record t {
      pc = offset;
      call_stack = put t.call_stack t.call_stack_top t.pc;
      call_stack_top = t.call_stack_top + 1;
    })

ignored-after :
    (x : Flow (Unit {0}) × Thread) (t : Thread) → ignored x ≡ (next tt, t) → t ≡ thread_after x
ignored-after (next a, t') t e = ap thread_after (sym e)
ignored-after (stop r, t') t e = ap thread_after (sym e)
ignored-after (State.aborted, t') t e = ap thread_after (sym e)

enter_lem :
    (h : Host) (sig : FuncSignature) (kind : FuncKind) (t t' : Thread)
    → enter h sig kind t ≡ (next tt, t')
    → Entered h sig kind t t'
unfolding enter push_call goto
enter_lem h sig (host id) t t' e =
    rw (ignored-after (call_host h sig id t) t' e) (call_host_lem h sig id t)
enter_lem h sig (defined offset) t t' e =
    elim (Bool-cases (leb t.call_stack_size t.call_stack_top)) [
      | inl full ↦ absurd (ground arith)
      | inr room ↦ (ground arith, ap thread_after (sym e) ∙ rw room refl)
    ]

-- A `call_indirect` that does not trap has its index inside of the table, at an entry that is set,
-- and calls a function of the signature that the instruction names. From the thread past the
-- immediates with the index taken off the stack, a call of a defined function goes to its offset,
-- with the return address at the top of the call stack, which had room for it, and everything else
-- as it was. A call of a host function has called its callback with the topmost values as
-- arguments, the last one topmost, of the types of the parameters; the environment is the one after
-- the callback, and `pc` and the call stack are as they were.
pub call_indirect-safe :
    (h : Host) (t t' : Thread)
    → run_call h call_indirect t ≡ (next tt, t')
    → (entry_index t < (table_of t).table_size)
      × ((table_of t).func_indexes (entry_index t) ≢ 2 ^ 32 - 1)
      × (t.env.sigs (t.env.funcs ((table_of t).func_indexes (entry_index t))).sig_index
          ≡ t.env.sigs (expected_sig t))
      × Entered h
          (t.env.sigs (expected_sig t))
          (t.env.funcs ((table_of t).func_indexes (entry_index t))).kind
          (fetched t)
          t'
unfolding run_call call_indirect_to read_u32 read_ux pop_rep pop
call_indirect-safe h t t' e =
    let (inside, e₁) = checks-pass (leb (table_of t).table_size (entry_index t)) _ _ _ t' tt e in
    let (set, e₂) =
      checks-pass ((table_of t).func_indexes (entry_index t) == 2 ^ 32 - 1) _ _ _ t' tt e₁ in
    let (same, e₃) =
      checks-pass
        (not (
          func_signatures_are_equal t.env
            (t.env.funcs ((table_of t).func_indexes (entry_index t))).sig_index (expected_sig t)))
        _ _ _ t' tt e₂ in
    let func = t.env.funcs ((table_of t).func_indexes (entry_index t)) in
    let sig_eq = func_signatures_are_equal→eq t.env _ (expected_sig t) (not-false _ same) in
    let past : t.pc + 8 ≡ t.pc + 4 + 4 = omega arith in
    let e₄ : enter h (t.env.sigs func.sig_index) func.kind (fetched t) ≡ (next tt, t') =
      ap
        (λ p.
          enter h (t.env.sigs func.sig_index) func.kind
            (record t { pc = p; value_stack_top = below t.value_stack_top 1 }))
        past
      ∙ e₃ in
    (
      ground arith,
      (λ z. absurd (ground arith)),
      sig_eq,
      rw (sym sig_eq) (enter_lem h (t.env.sigs func.sig_index) func.kind (fetched t) t' e₄),
    )

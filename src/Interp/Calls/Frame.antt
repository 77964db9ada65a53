-- ===== src/Interp/Calls/Frame.antt =====
-- What `CallHost` leaves of a thread (src/interp.cc).
use mathlib.Core.List.{reverse-cons, append_assoc, append-nil, reverse-reverse}
use wasm_sandboxing.Base.{
  zero, suc, length, length-append, arith, ℕ, ◌+◌, ◌≡◌, ◌∙◌, refl, sym, ap, inl, inr, Bool, true,
  false, not, Bool-cases, List, [], ◌∷◌, ◌++◌, map, reverse, leb,
}
use wasm_sandboxing.TypeChecker.State.{ValueType, same_type}
use wasm_sandboxing.Interp.State
use wasm_sandboxing.Interp.State.{
  Result, Environment, FuncSignature, TypedValue, Thread, Flow, next, stop, M, ◌>>=◌, ◌>>◌,
  continue, trap_if, push, thread_after, host_result_type_mismatch,
}
use wasm_sandboxing.Interp.Host.{Host}
use wasm_sandboxing.Interp.Calls.{pop_params, push_results, run_callback, call_host, is_ok}

-- A part of `Thread::Run` that leaves a field of the thread alone.
abbrev Keeps : {A B : Type 0} → (Thread → B) → M A → Type 0
Keeps field m = (t : Thread) → field (thread_after (m t)) ≡ field t

module _ {A B C : Type 0} (field : Thread → C) (f : A → M B)
    (kept : (a : A) → Keeps field (f a)) where
  continue-kept :
      (x : Flow A × Thread) → field (thread_after (continue f x)) ≡ field (thread_after x)
  continue-kept (next a, t) = kept a t
  continue-kept (stop r, t) = refl
  continue-kept (State.aborted, t) = refl

  bind-Keeps : (m : M A) → Keeps field m → Keeps field (m >>= f)
  bind-Keeps m k t = continue-kept (m t) ∙ k t

-- What a call puts into a thread besides values.
abbrev pub frame : Thread → ℕ × (ℕ → ℕ) × ℕ
frame t = (t.pc, t.call_stack, t.call_stack_top)

abbrev env_frame : Thread → Environment × ℕ × (ℕ → ℕ) × ℕ
env_frame t = (t.env, t.pc, t.call_stack, t.call_stack_top)

push-Keeps : (v : ℕ) → Keeps env_frame (push v)
unfolding push
push-Keeps v t = elim (Bool-cases (leb t.value_stack_size t.value_stack_top)) [
  | inl e ↦ rw e refl
  | inr e ↦ rw e refl
]

trap_if-Keeps : (c : Bool) (r : Result) → Keeps env_frame (trap_if c r)
trap_if-Keeps true r t = refl
trap_if-Keeps false r t = refl

push_results-Keeps :
    (types : List ValueType) (i : ℕ) (results : ℕ → TypedValue)
    → Keeps env_frame (push_results types i results)
unfolding push_results
push_results-Keeps [] i results t = refl
push_results-Keeps (u ∷ us) i results t =
    bind-Keeps env_frame (λ _. push (results i).value >> push_results us (i + 1) results)
      (λ _.
        bind-Keeps env_frame (λ _. push_results us (i + 1) results)
          (λ _. push_results-Keeps us (i + 1) results) (push (results i).value)
          (push-Keeps (results i).value))
      (trap_if (not (same_type (results i).value_type u)) host_result_type_mismatch)
      (trap_if-Keeps (not (same_type (results i).value_type u)) host_result_type_mismatch) t

abbrev pub types_of : List TypedValue → List ValueType
types_of = map (λ v. v.value_type)

abbrev pub values_of : List TypedValue → List ℕ
values_of = map (λ v. v.value)

-- The `n` topmost values of a stack, the topmost first.
abbrev pub top_values : (ℕ → ℕ) → ℕ → ℕ → List ℕ
top_values stack top zero = []
top_values stack top (suc n) = stack (State.below top 1) ∷ top_values stack (State.below top 1) n

reverse-onto :
    {A : Type 0} (u : A) (us vs : List A) → reverse us ++ (u ∷ vs) ≡ reverse (u ∷ us) ++ vs
reverse-onto u us vs =
    sym (append_assoc (reverse us) (u ∷ []) vs) ∙ ap (λ l. l ++ vs) (sym (reverse-cons u us))

length-reverse : (us : List ValueType) → length (reverse us) ≡ length us
length-reverse [] = refl
length-reverse (u ∷ us) =
    ap length (reverse-cons u us)
    ∙ omega (arith, length-append (reverse us) (u ∷ []), length-reverse us)

-- The parameters are popped from the last to the first.
pop_params_lem :
    (us : List ValueType) (params : List TypedValue) (t : Thread)
    → (out : List TypedValue) × (t' : Thread) × (pop_params us params t ≡ (next out, t'))
      × (types_of out ≡ reverse us ++ types_of params)
      × (values_of out
          ≡ reverse (top_values t.value_stack t.value_stack_top (length us)) ++ values_of params)
      × (env_frame t' ≡ env_frame t)
unfolding pop_params State.pop
pop_params_lem [] params t = (params, t, refl, refl, refl, refl)
pop_params_lem (u ∷ us) params t =
    let top = State.below t.value_stack_top 1 in
    let param : TypedValue = record { value_type = u; value = t.value_stack top } in
    let (out, t', e, types, values, same) =
      pop_params_lem us (param ∷ params) (record t { value_stack_top = top }) in
    (
      out,
      t',
      e,
      types ∙ reverse-onto u us (types_of params),
      values
          ∙ reverse-onto (t.value_stack top) (top_values t.value_stack top (length us))
              (values_of params),
      same,
    )

-- A thread after a call of the callback `id`: its arguments have the types of the parameters, in
-- their order, and the values on top of the stack, the last one topmost, and its environment is the
-- one after the call.
abbrev pub HasCalled : Host → FuncSignature → ℕ → Thread → Thread → Type 0
HasCalled h sig id t t' =
    (args : List TypedValue) × (types_of args ≡ sig.param_types)
    × (values_of args
        ≡ reverse (top_values t.value_stack t.value_stack_top (length sig.param_types)))
    × (t'.env ≡ (h.callback id sig args t.env).2)

of_env_frame : (t u : Thread) → env_frame t ≡ env_frame u → (t.env ≡ u.env) × (frame t ≡ frame u)
of_env_frame t u e = (ap (λ x. x.0) e, ap (λ x. (x.1, x.2, x.3)) e)

-- The callback and the results that `CallHost` pushes after it.
run_callback_lem :
    (h : Host) (sig : FuncSignature) (id : ℕ) (args : List TypedValue) (t : Thread)
    → let t' = thread_after ((run_callback h id sig args >>= push_results sig.result_types 0) t) in
      (t'.env ≡ (h.callback id sig args t.env).2) × (frame t' ≡ frame t)
unfolding run_callback
run_callback_lem h sig id args t =
    let after = record t { env = (h.callback id sig args t.env).2 } in
    let results = (h.callback id sig args t.env).1 in
    elim (Bool-cases (is_ok (h.callback id sig args t.env).0)) [
      | inl e ↦ rw e (
          of_env_frame (thread_after (push_results sig.result_types 0 results after)) after
            (push_results-Keeps sig.result_types 0 results after))
      | inr e ↦ rw e (refl, refl)
    ]

pub call_host_lem :
    (h : Host) (sig : FuncSignature) (id : ℕ) (t : Thread)
    → HasCalled h sig id t (thread_after (call_host h sig id t))
      × (frame (thread_after (call_host h sig id t)) ≡ frame t)
unfolding call_host
call_host_lem h sig id t =
    let (args, t', e, types, values, same) = pop_params_lem (reverse sig.param_types) [] t in
    let (env, kept) = run_callback_lem h sig id args t' in
    let (same_env, same_frame) = of_env_frame t' t same in
    let order : types_of args ≡ sig.param_types =
      types ∙ append-nil (reverse (reverse sig.param_types)) ∙ reverse-reverse sig.param_types in
    let popped = top_values t.value_stack t.value_stack_top in
    let vs : values_of args ≡ reverse (popped (length sig.param_types)) =
      values
      ∙ append-nil (reverse (popped (length (reverse sig.param_types))))
      ∙ ap (λ n. reverse (popped n)) (length-reverse sig.param_types) in
    (
      (args, order, vs, rw e (env ∙ ap (λ z. (h.callback id sig args z).2) same_env)),
      rw e (kept ∙ same_frame),
    )

-- ===== src/Interp/Executor/Chunks.antt =====
-- Executing in rounds of any number of instructions (`Thread::Run` and `RunDefinedFunction`,
-- src/interp.cc).
use Prim.Native.Nat.mul
use wasm_sandboxing.Base.{
  ℕ, zero, suc, ◌+◌, ◌-◌, ◌*◌, ◌≤◌, ◌≡◌, ◌∙◌, refl, sym, ap, false, some, inl, inr, le-cases, arith,
}
use wasm_sandboxing.Interp.State
use wasm_sandboxing.Interp.State.{
  Result, ok, returned, Thread, Flow, next, stop, M, ◌>>=◌, ◌>>◌, continue, pure,
}
use wasm_sandboxing.Interp.Host.{Host}
use wasm_sandboxing.Interp.Calls.{is_ok}
use wasm_sandboxing.Interp.Run.{instruction, instructions, exit_loop, run}
use wasm_sandboxing.Interp.Executor.{final, loop_again, run_loop}

-- Going on with `f` after `x`, where `f` is `g` and then `k`.
continue-continue :
    {A B C : Type 0} (f : M C) (g : M B) (k : M C)
    → ((t : Thread) → f t ≡ continue (λ (_ : B). k) (g t))
    → (x : Flow A × Thread) → continue (λ _. f) x ≡ continue (λ _. k) (continue (λ _. g) x)
continue-continue f g k e (next a, t) = e t
continue-continue f g k e (stop r, t) = refl
continue-continue f g k e (State.aborted, t) = refl

instructions-add :
    (host : Host) (m n : ℕ) (t : Thread)
    → instructions host (m + n) t ≡ continue (λ _. instructions host n) (instructions host m t)
unfolding instructions
instructions-add host zero n t = ap (λ k. instructions host k t) (omega arith)
instructions-add host (suc m) n t =
    let e : suc m + n ≡ suc (m + n) = omega arith in
    ap (λ k. instructions host k t) e
    ∙ continue-continue (instructions host (m + n)) (instructions host m) (instructions host n)
        (instructions-add host m n) (instruction host t)

-- A run that does not go on after `k` instructions is the same within more.
instructions-settled :
    (host : Host) (k n : ℕ) (t : Thread) (x : Flow (Unit {0}) × Thread)
    → k ≤ n
    → ((f : M (Unit {0})) → continue (λ (_ : Unit {0}). f) x ≡ x)
    → instructions host k t ≡ x
    → instructions host n t ≡ x
instructions-settled host k n t x h s e =
    let en : n ≡ k + (n - k) = omega (arith, h) in
    ap (λ i. instructions host i t) en
    ∙ instructions-add host k (n - k) t
    ∙ ap (continue λ _. instructions host (n - k)) e
    ∙ s (instructions host (n - k))

abbrev pub Ends : Host → ℕ → Thread → Result → Thread → Type 0
Ends host k t r t' = instructions host k t ≡ (stop r, t')

-- What a call of `Thread::Run` returns where the run ends within it.
run-stop :
    (host : Host) (c : ℕ) (t : Thread) (r : Result) (t' : Thread)
    → is_ok r ≡ false
    → Ends host c t r t'
    → (pc : ℕ) × (run host c t ≡ (next r, record t' { pc = pc }))
unfolding run
run-stop host c t ok t' o e = absurd (ground arith)
run-stop host c t returned t' o e = (t'.pc, ap (exit_loop t.pc) e)
run-stop host c t r t' o e = (t.pc, ap (exit_loop t.pc) e)

-- How a number of instructions can turn out.
data Turn (x : Flow (Unit {0}) × Thread) : Type 0 where
  goes_on : (t : Thread) → x ≡ (next tt, t) → Turn x
  ends : (r : Result) (t : Thread) → x ≡ (stop r, t) → Turn x
  aborts : (t : Thread) → x ≡ (State.aborted, t) → Turn x

turn : (x : Flow (Unit {0}) × Thread) → Turn x
turn (next tt, t) = goes_on t refl
turn (stop r, t) = ends r t refl
turn (State.aborted, t) = aborts t refl

-- The thread after the first `c` of the `k` instructions, where the run goes on after them.
rest-Ends :
    (host : Host) (c k : ℕ) (t t₁ : Thread) (r : Result) (t' : Thread)
    → instructions host c t ≡ (next tt, t₁)
    → Ends host k t r t'
    → (c ≤ k) × Ends host (k - c) t₁ r t'
rest-Ends host c k t t₁ r t' e h = elim (le-cases c k) [
  | inl le ↦ (
    le,
    sym (ap (continue λ _. instructions host (k - c)) e)
        ∙ sym (instructions-add host c (k - c) t)
        ∙ ap (λ i. instructions host i t) (omega (arith, le))
        ∙ h,
  )
  | inr le ↦
      let e' = instructions-settled host k c t (stop r, t') le (λ f. refl) h in
      absurd (ground arith)
]

not-Ends-zero : (host : Host) (t : Thread) (r : Result) (t' : Thread) → ¬ Ends host 0 t r t'
unfolding instructions
not-Ends-zero host t r t' e = ground arith

run-goes_on :
    (host : Host) (c : ℕ) (t t₁ : Thread)
    → instructions host c t ≡ (next tt, t₁)
    → run host c t ≡ (next ok, t₁)
unfolding run
run-goes_on host c t t₁ e = ap (exit_loop t.pc) e

rest_le : (c fuel k : ℕ) → k ≤ suc fuel * c → k - c ≤ fuel * c
rest_le c fuel k h = let e : suc fuel * c ≡ c + fuel * c = mul.suc fuel c in omega (arith, e, h)

run_loop-ok :
    (host : Host) (c fuel : ℕ) (t t₁ : Thread)
    → run host c t ≡ (next ok, t₁)
    → run_loop host c (suc fuel) t ≡ run_loop host c fuel t₁
unfolding run_loop
run_loop-ok host c fuel t t₁ e = rw (◌>>=◌, e)

run_loop-end :
    (host : Host) (c fuel : ℕ) (t t₁ : Thread) (r : Result)
    → is_ok r ≡ false
    → run host c t ≡ (next r, t₁)
    → run_loop host c (suc fuel) t ≡ (next (some (final r)), t₁)
unfolding run_loop
run_loop-end host c fuel t t₁ r o e =
    ap (continue λ (r' : Result). loop_again (is_ok r') r' (run_loop host c fuel)) e
    ∙ ap (λ b. loop_again b r (run_loop host c fuel) t₁) o

-- Both have the same end, whichever is longer.
Ends-either :
    (host : Host) (c k : ℕ) (t : Thread) (x : Flow (Unit {0}) × Thread) (r : Result) (t' : Thread)
    → ((f : M (Unit {0})) → continue (λ (_ : Unit {0}). f) x ≡ x)
    → instructions host c t ≡ x
    → Ends host k t r t'
    → Ends host c t r t'
Ends-either host c k t x r t' s e h = elim (le-cases c k) [
  | inl le ↦ e ∙ sym (instructions-settled host c k t x le s e) ∙ h
  | inr le ↦ instructions-settled host k c t (stop r, t') le (λ f. refl) h
]

-- A run that ends with the result `r` after `k` instructions gives that result to the loop of
-- `RunDefinedFunction`, in the state in which it ended but for `pc`, for every number `c` of
-- instructions in a round and for any fuel for at least `k` instructions.
pub run_loop-stop :
    (host : Host) (c fuel k : ℕ) (t : Thread) (r : Result) (t' : Thread)
    → k ≤ fuel * c
    → is_ok r ≡ false
    → instructions host k t ≡ (stop r, t')
    → (pc : ℕ) × (run_loop host c fuel t ≡ (next (some (final r)), record t' { pc = pc }))
run_loop-stop host c zero k t r t' b o h =
    let h' = instructions-settled host k 0 t (stop r, t') (omega arith) (λ f. refl) h in
    absurd (not-Ends-zero host t r t' h')
run_loop-stop host c (suc fuel) k t r t' b o h = elim (turn (instructions host c t)) [
  | goes_on t₁ e ↦
      let (le, h₁) = rest-Ends host c k t t₁ r t' e h in
      let b' : k - c ≤ fuel * c = rest_le c fuel k b in
      let (pc, l) = run_loop-stop host c fuel (k - c) t₁ r t' b' o h₁ in
      (pc, run_loop-ok host c fuel t t₁ (run-goes_on host c t t₁ e) ∙ l)
  | ends r₁ t₁ e ↦ settled (stop r₁, t₁) (λ f. refl) e
  | aborts t₁ e ↦ settled (State.aborted, t₁) (λ f. refl) e
]
  where
    settled :
        (x : Flow (Unit {0}) × Thread)
        → ((f : M (Unit {0})) → continue (λ (_ : Unit {0}). f) x ≡ x)
        → instructions host c t ≡ x
        → (pc : ℕ) × (run_loop host c (suc fuel) t ≡ (next (some (final r)), record t' { pc = pc }))
    settled x s e =
        let (pc, l) = run-stop host c t r t' o (Ends-either host c k t x r t' s e h) in
        (pc, run_loop-end host c fuel t (record t' { pc = pc }) r o l)

-- ===== src/BinaryReader/Errors/File.antt =====
-- What the delegate is told of errors over a whole file, against the result of `ReadBinary`
-- (src/binary-reader.cc).
use wasm_sandboxing.Base.{
  ℕ, zero, suc, ◌<◌, ◌≡◌, ◌≢◌, ◌∙◌, inl, subst, inr, refl, sym, ap, Bool, true, false, Bool-cases,
  ◌&&◌, List, length, ltb, ◌==◌, arith,
}
use wasm_sandboxing.BinaryReader.State.{
  Reader, M, Outcome, ok, failed, no_fuel, continue, error_unless, Call, callback, begin_module,
  end_module, Options,
}
use wasm_sandboxing.BinaryReader.Read.{read_u32}
use wasm_sandboxing.BinaryReader.Module.{
  section_round, section_loop, read_sections, read_module, read_binary, new_reader, returned,
  magic_number,
}
use wasm_sandboxing.BinaryReader.Within.{Told, errors, Safe}
use wasm_sandboxing.BinaryReader.Within.Primitives.{steps, callback-Safe}
use wasm_sandboxing.BinaryReader.Within.File.{read_binary-ends}
use wasm_sandboxing.BinaryReader.Errors.{
  strict, Status, ToldBy, Accounts, Adds, Accounts-Told, section_round-accounts,
}

Status-Adds :
    (strict result success : Bool) (a b : ℕ)
    → Status strict result a
    → Adds strict a success b
    → Status strict (result && success) b
Status-Adds true true true a b h k = ground arith
Status-Adds false true true a b h k = refl
Status-Adds strict true false a b h k = omega (arith, k)
Status-Adds strict false true a b h k = omega (arith, h, k.0)
Status-Adds strict false false a b h k = omega (arith, h, k)

Accounts-from :
    (r s : Reader) (x : Outcome Bool × Reader)
    → strict s ≡ strict r
    → Accounts s (Status (strict s)) x
    → Accounts r (Status (strict r)) x
Accounts-from r s (ok b, t) e (d, k) = (d ∙ e, subst (λ c. Status c b (errors t.calls)) e k)
Accounts-from r s (failed, t) e (d, k) = (d ∙ e, k)
Accounts-from r s (no_fuel, t) e (d, k) = (d ∙ e, k)

module _ (n : ℕ) where
  section_loop-accounts :
      (fuel : ℕ) (result : Bool) (r : Reader)
      → Status (strict r) result (errors r.calls)
      → Accounts r (Status (strict r)) (section_loop fuel (suc n) result r)
  unfolding section_loop
  section_loop-accounts zero result r h = (refl, tt)
  section_loop-accounts (suc fuel) result r h = elim (Bool-cases (ltb r.offset (length r.bytes))) [
    | inl more ↦ rw more (
        after (section_round (suc n) r) (section_round-accounts n r)
          λ success s. section_loop-accounts fuel (result && success) s)
    | inr done ↦ rw done (refl, h)
  ]
    where
      after :
          (x : Outcome Bool × Reader)
          → Accounts r (Adds (strict r) (errors r.calls)) x
          → ((success : Bool) (s : Reader)
              → Status (strict s) (result && success) (errors s.calls)
              → Accounts s (Status (strict s)) (section_loop fuel (suc n) (result && success) s))
          → Accounts r
              (Status (strict r))
              (continue (λ success. section_loop fuel (suc n) (result && success)) x)
      after (ok success, s) (e, a) next =
          let now = Status-Adds (strict r) result success (errors r.calls) (errors s.calls) h a in
          Accounts-from r s (section_loop fuel (suc n) (result && success) s) e (
            next success s (subst (λ c. Status c (result && success) (errors s.calls)) (sym e) now))
      after (failed, s) a next = a
      after (no_fuel, s) a next = a

-- What has been told when a file is read.
abbrev Clean : Bool → Unit {0} → ℕ → Type 0
Clean strict u e = (strict && ltb 0 e) ≡ false

returned-accounts :
    (r s : Reader) (b : Bool)
    → strict s ≡ strict r
    → Status (strict r) b (errors s.calls)
    → Accounts r (Clean (strict r)) (returned b s)
returned-accounts r s true e h = (e, h)
returned-accounts r s false e h = (e, h)

none_told : (strict : Bool) (e : ℕ) → e ≡ 0 → (strict && ltb 0 e) ≡ false
none_told true e z = ground arith
none_told false e z = refl

read_sections-accounts :
    (n : ℕ) (r : Reader)
    → errors r.calls ≡ 0
    → Accounts r (Clean (strict r)) (read_sections (suc n) r)
unfolding read_sections
read_sections-accounts n r z =
    after (section_loop (suc n) (suc n) true r)
      (section_loop-accounts n (suc n) true r (none_told (strict r) (errors r.calls) z))
  where
    after :
        (x : Outcome Bool × Reader)
        → Accounts r (Status (strict r)) x
        → Accounts r (Clean (strict r)) (continue returned x)
    after (ok b, s) (e, h) = returned-accounts r s b e h
    after (failed, s) a = a
    after (no_fuel, s) a = a

last-accounts :
    (r s : Reader) (x : Outcome (Unit {0}) × Reader)
    → strict s ≡ strict r
    → Clean (strict r) tt (errors s.calls)
    → Told s x
    → Accounts r (Clean (strict r)) x
last-accounts r s (ok u, t) e h (d, k) = (
  ap (λ (o : Options). o.fail_on_custom_section_error) d ∙ e,
  subst (λ c. (strict r && ltb 0 c) ≡ false) (omega (arith, k)) h,
)
last-accounts r s (failed, t) e h (d, k) =
    (ap (λ (o : Options). o.fail_on_custom_section_error) d ∙ e, omega (arith, k))
last-accounts r s (no_fuel, t) e h (d, k) =
    (ap (λ (o : Options). o.fail_on_custom_section_error) d ∙ e, tt)

module _ (n : ℕ) where
  step :
      {A : Type 0} (r q : Reader) (m : M A) (f : A → M (Unit {0}))
      → strict q ≡ strict r
      → errors q.calls ≡ 0
      → Safe n 0 m
      → ((a : A) (s : Reader)
          → strict s ≡ strict r
          → errors s.calls ≡ 0
          → Accounts r (Clean (strict r)) (f a s))
      → Accounts r (Clean (strict r)) (continue f (m q))
  step r q m f e z safe after =
      Accounts-Told (Clean (strict r)) r q f (m q) e (safe.told q) λ a s d k. after a s d (k ∙ z)

  read_module-accounts :
      (r : Reader) → errors r.calls ≡ 0 → Accounts r (Clean (strict r)) (read_module (suc n) r)
  unfolding read_module
  read_module-accounts r z = step r r read_u32 _ refl z (search steps) λ magic r₁ e₁ z₁.
      step r r₁ (error_unless (magic == magic_number)) (λ u. _) e₁ z₁ (search steps)
        λ u₂ r₂ e₂ z₂. step r r₂ read_u32 _ e₂ z₂ (search steps) λ version r₃ e₃ z₃.
          step r r₃ (error_unless (version == 1)) (λ u. _) e₃ z₃ (search steps)
            λ u₄ r₄ e₄ z₄.
              step r r₄ (callback (begin_module version)) (λ u. _) e₄ z₄ (search steps)
                λ u₅ r₅ e₅ z₅.
                  after r₅ e₅ (read_sections (suc n) r₅) (read_sections-accounts n r₅ z₅)
    where
      after :
          (q : Reader)
          → strict q ≡ strict r
          → (x : Outcome (Unit {0}) × Reader) → Accounts q (Clean (strict q)) x
          → Accounts r (Clean (strict r)) (continue (λ u. callback end_module) x)
      after q e (ok u, s) (d, k) =
          last-accounts r s (callback end_module s) (d ∙ e)
            (subst (λ c. (c && ltb 0 (errors s.calls)) ≡ false) e k)
            ((callback-Safe n end_module).told s)
      after q e (failed, s) (d, k) = (d ∙ e, k)
      after q e (no_fuel, s) (d, k) = (d ∙ e, k)

-- A result against the number of calls of `OnError`.
abbrev pub Accounted : Options → Outcome (Unit {0}) → ℕ → Type 0
Accounted options (ok u) e = (options.fail_on_custom_section_error && ltb 0 e) ≡ false
Accounted options failed e = 0 < e
Accounted options no_fuel e = ⊥

Accounts-Accounted :
    (options : Options) (x : Outcome (Unit {0}) × Reader)
    → ToldBy (Clean options.fail_on_custom_section_error) x.0 (errors x.1.calls)
    → x.0 ≢ no_fuel
    → Accounted options x.0 (errors x.1.calls)
Accounts-Accounted options (ok u, s) k ends = k
Accounts-Accounted options (failed, s) k ends = k
Accounts-Accounted options (no_fuel, s) k ends = ends refl

-- `ReadBinary` returns an error only if `OnError` was called, and where errors in custom sections
-- count it returns success only if `OnError` was not called, whatever the file and the delegate.
pub read_binary-Accounted :
    (bytes : List ℕ) (answer : List Call → Bool) (options : Options)
    → let x = read_binary bytes answer options in Accounted options x.0 (errors x.1.calls)
unfolding read_binary
read_binary-Accounted bytes answer options =
    let r = new_reader bytes answer options in
    let x = read_module (suc (length bytes)) r in
    Accounts-Accounted options x (read_module-accounts (length bytes) r refl).1
      (read_binary-ends bytes answer options).0

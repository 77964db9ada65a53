-- ===== src/BinaryReader/Errors.antt =====
-- What the delegate is told of errors in a section (src/binary-reader.cc).

pub mod File
use wasm_sandboxing.Base.{
  ℕ, suc, ◌+◌, ◌≤◌, ◌<◌, ◌≡◌, ◌∙◌, inl, subst, inr, refl, sym, ap, Bool, true, false, Bool-cases,
  ◌&&◌, ltb, ◌==◌, arith,
}
use wasm_sandboxing.BinaryReader.State.{
  Reader, M, Outcome, ok, failed, no_fuel, continue, ◌>>=◌, ◌>>◌, pure, fail, called, begin_section,
  Options, get_options, with_read_end, restore_read_end,
}
use wasm_sandboxing.BinaryReader.Read.{read_u32_leb}
use wasm_sandboxing.BinaryReader.Module.{section_body, set_last_section, counts_as, section_round}
use wasm_sandboxing.BinaryReader.Within.{Told, errors}
use wasm_sandboxing.BinaryReader.Within.Primitives.{read_u32_leb-Safe}
use wasm_sandboxing.BinaryReader.Within.Contents.{Exact, section_contents-Exact}
use wasm_sandboxing.BinaryReader.Within.Section.{section_checks-cases, answered-cases}

-- Whether errors in custom sections count.
abbrev pub strict : Reader → Bool
strict r = r.options.fail_on_custom_section_error

-- What has been told when the result so far is `b`.
abbrev pub Status : Bool → Bool → ℕ → Type 0
Status strict true e = (strict && ltb 0 e) ≡ false
Status strict false e = 0 < e

abbrev pub ToldBy : {A : Type 0} → (A → ℕ → Type 0) → Outcome A → ℕ → Type 0
ToldBy P (ok a) e = P a e
ToldBy P failed e = 0 < e
ToldBy P no_fuel e = Unit {0}

-- A run from `r`, after which what was told of is as `P` says of the value.
abbrev pub Accounts : {A : Type 0} → Reader → (A → ℕ → Type 0) → Outcome A × Reader → Type 0
Accounts r P (o, s) = (strict s ≡ strict r) × ToldBy P o (errors s.calls)

pub Accounts-Told :
    {A B : Type 0} (P : B → ℕ → Type 0) (r q : Reader) (f : A → M B) (x : Outcome A × Reader)
    → strict q ≡ strict r
    → Told q x
    → ((a : A) (s : Reader)
        → strict s ≡ strict r
        → errors s.calls ≡ errors q.calls
        → Accounts r P (f a s))
    → Accounts r P (continue f x)
Accounts-Told P r q f (ok a, s) e (d, k) after =
    after a s (ap (λ (o : Options). o.fail_on_custom_section_error) d ∙ e) (omega (arith, k))
Accounts-Told P r q f (failed, s) e (d, k) after =
    (ap (λ (o : Options). o.fail_on_custom_section_error) d ∙ e, omega (arith, k))
Accounts-Told P r q f (no_fuel, s) e (d, k) after =
    (ap (λ (o : Options). o.fail_on_custom_section_error) d ∙ e, tt)

-- What a section's value adds to the result so far.
abbrev pub Adds : Bool → ℕ → Bool → ℕ → Type 0
Adds strict a true b = (a ≤ b) × ((strict && ltb a b) ≡ false)
Adds strict a false b = a < b

section_end :
    (r q s : Reader) (section : ℕ) (success : Bool)
    → strict q ≡ strict r
    → Exact q (ok success, s)
    → Accounts r (Adds (strict r) (errors q.calls)) (
        (set_last_section section
            >> (get_options >>= λ options. pure (counts_as section options success)))
          s)
unfolding set_last_section get_options
section_end r q s section true e (d, c) =
    let same = ap (λ (o : Options). o.fail_on_custom_section_error) d ∙ e in
    elim (Bool-cases (section == 0)) [
      | inl z ↦ rw z (same, (omega (arith, c), ground arith))
      | inr z ↦ rw z (same, (omega (arith, c), ground arith))
    ]
section_end r q s section false e (d, c) =
    let same = ap (λ (o : Options). o.fail_on_custom_section_error) d ∙ e in
    elim (Bool-cases (section == 0)) [
      | inl z ↦ elim (Bool-cases s.options.fail_on_custom_section_error) [
        | inl counts ↦ rw (z, counts) (sym counts ∙ same, c)
        | inr mild ↦ rw (z, mild) (sym mild ∙ same, (omega (arith, c), rw (sym same ∙ mild) refl))
      ]
      | inr z ↦ rw z (same, c)
    ]

contents_end :
    (r q : Reader) (section : ℕ)
    → strict q ≡ strict r
    → (x : Outcome Bool × Reader) → Exact q x
    → Accounts r (Adds (strict r) (errors q.calls)) (
        continue
          (λ success.
            set_last_section section
            >> (get_options >>= λ options. pure (counts_as section options success)))
          x)
contents_end r q section e (ok success, s) x = section_end r q s section success e x
contents_end r q section e (failed, s) (d, c) =
    (ap (λ (o : Options). o.fail_on_custom_section_error) d ∙ e, omega (arith, c))
contents_end r q section e (no_fuel, s) d =
    (ap (λ (o : Options). o.fail_on_custom_section_error) d ∙ e, tt)

restored :
    (r : Reader) (a b e : ℕ) (x : Outcome Bool × Reader)
    → a ≡ b
    → Accounts r (Adds (strict r) a) x
    → Accounts r (Adds (strict r) b) (restore_read_end e x)
restored r a b e x h k = subst (λ c. Accounts r (Adds (strict r) c) (restore_read_end e x)) h k

module _ (n : ℕ) where
  section_body-accounts :
      (r q : Reader) (section size : ℕ)
      → strict q ≡ strict r
      → Accounts r (Adds (strict r) (errors q.calls)) (section_body (suc n) section size q)
  unfolding section_body
  section_body-accounts r q section size e = elim (section_checks-cases section q) [
    | inl no_ ↦ rw no_ (unfold fail in (e, omega arith))
    | inr (yes_, checked) ↦ rw yes_ (elim (answered-cases (begin_section section size) q) [
      | inl no_ ↦ rw no_ (unfold fail in (e, omega arith))
      | inr yes_ ↦ rw yes_ (
          contents_end r (called (begin_section section size) q) section e _
            (section_contents-Exact n section size (called (begin_section section size) q)))
    ])
  ]

  pub section_round-accounts :
      (r : Reader) → Accounts r (Adds (strict r) (errors r.calls)) (section_round (suc n) r)
  unfolding section_round with_read_end
  section_round-accounts r =
      Accounts-Told _ r r _ (read_u32_leb r) refl ((read_u32_leb-Safe n).told r) λ code s e c.
        Accounts-Told _ r s _ (read_u32_leb s) e ((read_u32_leb-Safe n).told s) λ size q d k.
          let end_ = q.offset + size in
          restored r (errors q.calls) (errors r.calls) q.read_end
            (section_body (suc n) code size (record q { read_end = end_ })) (k ∙ c)
            (section_body-accounts r (record q { read_end = end_ }) code size d)

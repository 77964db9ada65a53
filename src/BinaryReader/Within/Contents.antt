-- ===== src/BinaryReader/Within/Contents.antt =====
-- The contents of every section stay within it (src/binary-reader.cc).
use wasm_sandboxing.Base.{
  ℕ, suc, ◌≤◌, ◌<◌, ◌≡◌, ◌⊎◌, inl, inr, refl, Bool, true, false, Bool-cases, ◌&&◌, ◌||◌, not,
  length, ◌==◌, arith,
}
use wasm_sandboxing.BinaryReader.State.{
  Reader, M, Outcome, ok, failed, no_fuel, continue, ◌>>=◌, ◌>>◌, pure, fail, error_unless,
  get_options,
}
use wasm_sandboxing.BinaryReader.Subsections.{at_end, skip_to_end}
use wasm_sandboxing.BinaryReader.Module.{read_section, caught, after_section, section_contents}
use wasm_sandboxing.BinaryReader.Within.{
  IsWithin, Keeps-IsWithin, Good, Good-after, Told, errors, Safe, length-kept,
}
use wasm_sandboxing.BinaryReader.Within.Primitives.{steps, fail-Safe}
use wasm_sandboxing.BinaryReader.Within.Names.{read_custom_section-Safe, skip_to_end-Safe}
use wasm_sandboxing.BinaryReader.Within.Sections.{
  read_type_section-Safe, read_import_section-Safe, read_function_section-Safe,
  read_table_section-Safe, read_memory_section-Safe, read_global_section-Safe,
  read_export_section-Safe, read_start_section-Safe, read_elem_section-Safe, read_code_section-Safe,
  read_data_section-Safe,
}

module _ (n : ℕ) where
  read_section-Safe : (section size : ℕ) → Safe n 0 (read_section (suc n) section size)
  unfolding read_section
  read_section-Safe section size =
      search
        (
          steps, read_custom_section-Safe, read_type_section-Safe, read_import_section-Safe,
          read_function_section-Safe, read_table_section-Safe, read_memory_section-Safe,
          read_global_section-Safe, read_export_section-Safe, read_start_section-Safe,
          read_elem_section-Safe, read_code_section-Safe, read_data_section-Safe,
        )
        depth 20

abbrev rest : ℕ → Bool → M Bool
rest section success =
    after_section section success >> (at_end >>= λ finished. error_unless finished >> pure success)

-- After contents that failed the reader stops, or goes on at the end of the section.
rest-failed :
    (section : ℕ) (s : Reader)
    → (rest section false s ≡ (failed, s))
      ⊎ (rest section false s ≡ (ok false, record s { offset = s.read_end }))
unfolding after_section get_options skip_to_end error_unless
rest-failed section s =
    elim (Bool-cases (
      s.options.stop_on_first_error
      && (not (section == 0) || s.options.fail_on_custom_section_error))) [
        | inl stop ↦ inl (rw stop refl)
        | inr go ↦
            (let same : (s.read_end == s.read_end) ≡ true = ground arith in
              inr (rw (go, same) refl))
      ]

rest-succeeded :
    (section : ℕ) (s : Reader)
    → (rest section true s ≡ (ok true, s)) ⊎ (rest section true s ≡ fail {A = Bool} s)
unfolding after_section get_options error_unless
rest-succeeded section s = elim (Bool-cases (s.offset == s.read_end)) [
  | inl finished ↦ inl (rw finished refl)
  | inr short ↦ inr (rw short (unfold fail in refl))
]

module _ (n section : ℕ) where
  caught-Good :
      (r : Reader) (x : Outcome (Unit {0}) × Reader)
      → length r.bytes ≤ n
      → IsWithin r
      → Good 0 r x
      → Good 0 r (continue (rest section) (caught x))
  unfolding skip_to_end
  caught-Good r (ok u, s) h w (e, k, p) = elim (rest-succeeded section s) [
    | inl finished ↦ rw finished (tt, k, omega (arith, k.forward))
    | inr short ↦ rw short (
        Good-after r s k (fail {A = Bool} s)
          ((fail-Safe {A = Bool} n 0).run s (length-kept n r s h k) (Keeps-IsWithin r s w k)))
  ]
  caught-Good r (failed, s) h w (e, k, p) = elim (rest-failed section s) [
    | inl stop ↦ rw stop (tt, k, tt)
    | inr go ↦ rw go (
        let (e₁, l, q) =
          (skip_to_end-Safe n).run s (length-kept n r s h k) (Keeps-IsWithin r s w k) in
        Good-after r s k (ok false, record s { offset = s.read_end }) (tt, l, q))
  ]
  caught-Good r (no_fuel, s) h w (e, k, p) = absurd e

  pub section_contents-Good :
      (size : ℕ) (r : Reader)
      → length r.bytes ≤ n
      → IsWithin r
      → Good 0 r (section_contents (suc n) section size r)
  unfolding section_contents
  section_contents-Good size r h w =
      caught-Good r (read_section (suc n) section size r) h w
        ((read_section-Safe n section size).run r h w)

-- Contents that succeed have told the delegate of no error, and others of one at least.
abbrev pub Exact : Reader → Outcome Bool × Reader → Type 0
Exact r (ok true, s) = (s.options ≡ r.options) × (errors s.calls ≡ errors r.calls)
Exact r (ok false, s) = (s.options ≡ r.options) × (errors r.calls < errors s.calls)
Exact r (failed, s) = (s.options ≡ r.options) × (errors r.calls < errors s.calls)
Exact r (no_fuel, s) = s.options ≡ r.options

module _ (n section : ℕ) where
  caught-Exact :
      (r : Reader) (x : Outcome (Unit {0}) × Reader)
      → Told r x
      → Exact r (continue (rest section) (caught x))
  caught-Exact r (ok u, s) (e, c) = elim (rest-succeeded section s) [
    | inl finished ↦ rw finished (e, omega (arith, c))
    | inr short ↦ rw short (unfold fail in (e, omega (arith, c)))
  ]
  caught-Exact r (failed, s) (e, c) = elim (rest-failed section s) [
    | inl stop ↦ rw stop (e, omega (arith, c))
    | inr go ↦ rw go (e, omega (arith, c))
  ]
  caught-Exact r (no_fuel, s) (e, c) = e

  pub section_contents-Exact :
      (size : ℕ) (r : Reader) → Exact r (section_contents (suc n) section size r)
  unfolding section_contents
  section_contents-Exact size r =
      caught-Exact r (read_section (suc n) section size r)
        ((read_section-Safe n section size).told r)

-- ===== src/BinaryReader/Within/Section.antt =====
-- A whole section of a file (src/binary-reader.cc).
use wasm_sandboxing.Base.{
  ℕ, suc, ◌≤◌, ◌<◌, ◌≡◌, ◌∙◌, ◌⊎◌, subst, inl, inr, refl, sym, ap, Bool, true, Bool-cases, ◌||◌,
  not, Option, some, List, ◌∷◌, length, ltb, leb, ◌==◌, arith,
}
use wasm_sandboxing.BinaryReader.State.{
  Reader, Outcome, ok, failed, no_fuel, continue, ◌>>=◌, ◌>>◌, pure, fail, error_unless, answered,
  called, Call, begin_section, get_options, restore_read_end,
}
use wasm_sandboxing.BinaryReader.Module.{
  section_contents, section_body, section_checks, follows, set_last_section, counts_as,
}
use wasm_sandboxing.BinaryReader.Within.{section_codes, Keeps, Good}
use wasm_sandboxing.BinaryReader.Within.Contents.{section_contents-Good}
use wasm_sandboxing.BinaryReader.Within.Order.{
  known, Falls, sections_of, bound, IsReady, Sound, Falls-mono, next_falls, next_in_order,
}

abbrev pub errored : Reader → Reader
errored r = (fail {A = Unit {0}} r).1

-- What `section_checks` makes sure of.
pub record Checked (section : ℕ) (r : Reader) : Type 0 where
  code : section < 12
  fits : r.read_end ≤ length r.bytes
  order : follows section r.last_known_section ≡ true

pub section_checks-cases :
    (section : ℕ) (r : Reader)
    → (section_checks section r ≡ (failed, errored r))
      ⊎ ((section_checks section r ≡ (ok tt, r)) × Checked section r)
unfolding section_checks error_unless fail
section_checks-cases section r = elim (Bool-cases (ltb section 12)) [
  | inr a ↦ inl (rw a refl)
  | inl a ↦ elim (Bool-cases (leb r.read_end (length r.bytes))) [
    | inr b ↦ inl (rw (a, b) refl)
    | inl b ↦ elim (Bool-cases (follows section r.last_known_section)) [
      | inr c ↦ inl (rw (a, b, c) refl)
      | inl c ↦ elim (Bool-cases (not r.did_read_names_section || section == 0)) [
        | inr d ↦ inl (rw (a, b, c, d) refl)
        | inl d ↦
            inr
              (rw (a, b, c, d) refl, record { code = ground arith; fits = ground arith; order = c })
      ]
    ]
  ]
]

pub answered-cases :
    (c : Call) (r : Reader)
    → (answered c r ≡ (failed, errored (called c r))) ⊎ (answered c r ≡ (ok tt, called c r))
unfolding answered error_unless fail
answered-cases c r = elim (Bool-cases (r.answer (c ∷ r.calls))) [
  | inl yes_ ↦ inr (rw yes_ refl)
  | inr no_ ↦ inl (rw no_ refl)
]

module _ (n : ℕ) (r q : Reader) (e : ℕ) (ready : IsReady q) (same : q.bytes ≡ r.bytes) where
  -- The state of a section that goes up to `e`, and its end.
  abbrev opened : Reader
  opened = record q { read_end = e }

  stopped :
      (s : Reader)
      → s.bytes ≡ q.bytes
      → s.offset ≤ length q.bytes
      → Falls 12 (sections_of s)
      → Sound {A = Bool} r (failed, record s { read_end = q.read_end })
  stopped s b o f = (
    b ∙ same,
    record {
      within = record {
        offset-le = omega (arith, o, ready.sound.whole);
        end-le = omega (arith, ready.sound.whole, ap (λ (l : List ℕ). length l) b);
      };
      whole = ready.sound.whole ∙ ap (λ (l : List ℕ). length l) (sym b);
      falls = f;
    },
    tt,
  )

  module _ (section size : ℕ) (ahead : r.offset < q.offset) (lo : q.offset ≤ e)
      (short : length q.bytes ≤ n) (checked : Checked section opened) where
    abbrev begun : Reader
    begun = called (begin_section section size) opened

    falls_next : Falls 12 (known (section ∷ section_codes q.calls))
    falls_next =
        next_falls section q.last_known_section (section_codes q.calls) checked.order ready.in_order
          checked.code ready.known

    -- The end of the section, whose last known section is now `last`.
    closed :
        (s : Reader) (last : Option ℕ)
        → Keeps begun s
        → Falls (bound last) (sections_of s)
        → bound last ≤ 12
        → IsReady (record s { read_end = q.read_end; last_known_section = last })
    closed s last k f b = record {
      sound = record {
        within = record {
          offset-le = omega (arith, k.offset-le, k.read_end, checked.fits, ready.sound.whole);
          end-le = omega (arith, ready.sound.whole, ap (λ (l : List ℕ). length l) k.bytes);
        };
        whole = ready.sound.whole ∙ ap (λ (l : List ℕ). length l) (sym k.bytes);
        falls = Falls-mono (bound last) 12 (sections_of s) b f;
      };
      in_order = f;
      known = b;
    }

    finished :
        (f : Bool → Reader → Outcome Bool × Reader) (x : Outcome Bool × Reader)
        → Good 0 begun x
        → ((success : Bool) (s : Reader)
            → Keeps begun s
            → Sound r (restore_read_end q.read_end (f success s)))
        → Sound r (restore_read_end q.read_end (continue f x))
    finished f (ok success, s) (d, k, p) after = after success s k
    finished f (failed, s) (d, k, p) after =
        stopped s k.bytes (omega (arith, k.offset-le, k.read_end, checked.fits))
          (subst (λ cs. Falls 12 (known cs)) (sym k.sections) falls_next)
    finished f (no_fuel, s) (d, k, p) after = absurd d

    section_end :
        (success : Bool) (s : Reader)
        → Keeps begun s
        → Sound r (
            restore_read_end q.read_end (
              (set_last_section section
                  >> (get_options >>= λ options. pure (counts_as section options success)))
                s))
    unfolding set_last_section get_options
    section_end success s k = elim (Bool-cases (section == 0)) [
      | inl z ↦
          let codes : sections_of s ≡ sections_of q = ap known k.sections ∙ rw z refl in
          let ready_ =
            closed s s.last_known_section k
              (subst (λ l. Falls (bound l) (sections_of s)) (sym k.last)
                (subst (Falls (bound q.last_known_section)) (sym codes) ready.in_order))
              (subst (λ l. bound l ≤ 12) (sym k.last) ready.known) in
          rw z (k.bytes ∙ same, ready_.sound, (ready_, omega (arith, ahead, k.forward)))
      | inr nz ↦
          let order =
            subst (λ cs. Falls (suc section) (known cs)) (sym k.sections)
              (next_in_order section q.last_known_section (section_codes q.calls) checked.order
                ready.in_order nz) in
          let ready_ = closed s (some section) k order (omega (arith, checked.code)) in
          rw nz (k.bytes ∙ same, ready_.sound, (ready_, omega (arith, ahead, k.forward)))
    ]

    contents_run : Good 0 begun (section_contents (suc n) section size begun)
    contents_run =
        section_contents-Good n section size begun short
          (record { offset-le = lo; end-le = checked.fits })

    begun_run : Sound r (
        restore_read_end q.read_end (
          (answered (begin_section section size)
              >> (section_contents (suc n) section size >>= λ success.
                  set_last_section section
                  >> (get_options >>= λ options. pure (counts_as section options success))))
            opened))
    begun_run = elim (answered-cases (begin_section section size) opened) [
      | inr yes_ ↦ rw yes_ (
          finished
            (λ success.
              set_last_section section
              >> (get_options >>= λ options. pure (counts_as section options success)))
            (section_contents (suc n) section size begun) contents_run section_end)
      | inl no_ ↦ rw no_ (
          unfold fail in
          stopped (errored begun) refl (omega (arith, lo, checked.fits, ready.sound.whole))
            falls_next)
    ]

  pub section_body-Sound :
      (section size : ℕ)
      → r.offset < q.offset
      → q.offset ≤ e
      → length q.bytes ≤ n
      → Sound r (restore_read_end q.read_end (section_body (suc n) section size opened))
  unfolding section_body
  section_body-Sound section size ahead lo short = elim (section_checks-cases section opened) [
    | inl no_ ↦ rw no_ (
        unfold fail in
        stopped (errored opened) refl
          (omega (arith, ready.sound.within.offset-le, ready.sound.whole)) ready.sound.falls)
    | inr (yes_, checked) ↦ rw yes_ (begun_run section size ahead lo short checked)
  ]

-- ===== src/BinaryReader/Within/Order.antt =====
-- The codes of the sections, in order, and the states between sections (src/binary-reader.cc).
use wasm_sandboxing.Base.{
  ℕ, suc, ◌≤◌, ◌<◌, ◌≡◌, ◌≢◌, inl, inr, true, false, Bool-cases, Option, none, some, List, [], ◌∷◌,
  length, ◌==◌, if◌then◌else◌, arith,
}
use wasm_sandboxing.BinaryReader.State.{Reader, Outcome, ok, failed, no_fuel}
use wasm_sandboxing.BinaryReader.Module.{follows}
use wasm_sandboxing.BinaryReader.Within.{section_codes, IsWithin}

-- The codes of the known sections.
abbrev pub known : List ℕ → List ℕ
known [] = []
known (c ∷ cs) = if c == 0 then known cs else c ∷ known cs

-- Strictly falling from below a bound.
abbrev pub Falls : ℕ → List ℕ → Type 0
Falls b [] = Unit {0}
Falls b (c ∷ cs) = (c < b) × Falls c cs

pub Falls-mono : (a b : ℕ) (cs : List ℕ) → a ≤ b → Falls a cs → Falls b cs
Falls-mono a b [] h f = tt
Falls-mono a b (c ∷ cs) h f = (omega (arith, f.0), f.1)

abbrev pub sections_of : Reader → List ℕ
sections_of r = known (section_codes r.calls)

abbrev pub bound : Option ℕ → ℕ
bound none = 0
bound (some last) = suc last

-- Between two sections, and at the end of the file.
pub record IsSound (r : Reader) : Type 0 where
  pub within : IsWithin r
  pub whole : r.read_end ≡ length r.bytes
  pub falls : Falls 12 (sections_of r)

pub record IsReady (r : Reader) : Type 0 where
  pub sound : IsSound r
  pub in_order : Falls (bound r.last_known_section) (sections_of r)
  pub known : bound r.last_known_section ≤ 12

abbrev pub Progress : {A : Type 0} → Reader → Outcome A → Reader → Type 0
Progress r (ok x) s = IsReady s × (r.offset < s.offset)
Progress r failed s = Unit {0}
Progress r no_fuel s = ⊥

abbrev pub Sound : {A : Type 0} → Reader → Outcome A × Reader → Type 0
Sound r (o, s) = (s.bytes ≡ r.bytes) × IsSound s × Progress r o s

-- A new section is above all the known ones before it.
bound-le :
    (section : ℕ) (last : Option ℕ)
    → follows section last ≡ true
    → section ≢ 0
    → bound last ≤ section
bound-le section none h nz = omega arith
bound-le section (some last) h nz = ground arith

pub next_falls :
    (section : ℕ) (last : Option ℕ) (cs : List ℕ)
    → follows section last ≡ true
    → Falls (bound last) (known cs)
    → section < 12
    → bound last ≤ 12
    → Falls 12 (known (section ∷ cs))
next_falls section last cs f h lt b = elim (Bool-cases (section == 0)) [
  | inl z ↦ rw z (Falls-mono (bound last) 12 (known cs) b h)
  | inr nz ↦ rw nz (
    lt,
    Falls-mono (bound last) section (known cs) (bound-le section last f (λ e. ground arith)) h,
  )
]

pub next_in_order :
    (section : ℕ) (last : Option ℕ) (cs : List ℕ)
    → follows section last ≡ true
    → Falls (bound last) (known cs)
    → (section == 0) ≡ false
    → Falls (suc section) (known (section ∷ cs))
next_in_order section last cs f h nz = rw nz (
  omega arith,
  Falls-mono (bound last) section (known cs) (bound-le section last f (λ e. ground arith)) h,
)

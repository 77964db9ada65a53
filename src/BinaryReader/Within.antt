-- ===== src/BinaryReader/Within.antt =====
-- What every method of `BinaryReader` keeps, whether it succeeds or not (src/binary-reader.cc).

pub mod Reads
pub mod Scopes
pub mod Primitives
pub mod Body
pub mod Names
pub mod Sections
pub mod Contents
pub mod Order
pub mod Section
pub mod File
use wasm_sandboxing.Base.{
  ℕ, zero, suc, ◌+◌, ◌≤◌, ◌<◌, ◌≡◌, ◌∙◌, refl, ap, Bool, true, false, Option, List, [], ◌∷◌, length,
  arith,
}
use wasm_sandboxing.BinaryReader.State.{
  Reader, M, Outcome, ok, failed, no_fuel, ◌>>=◌, ◌>>◌, pure, continue, Call, begin_section,
  on_error, event, repeat, collect,
}

abbrev pub section_codes : List Call → List ℕ
section_codes [] = []
section_codes (begin_section code size ∷ cs) = code ∷ section_codes cs
section_codes (on_error level ∷ cs) = section_codes cs
section_codes (event e ∷ cs) = section_codes cs

-- The offset is within the section, and the section within the file.
pub record IsWithin (r : Reader) : Type 0 where
  pub offset-le : r.offset ≤ r.read_end
  pub end-le : r.read_end ≤ length r.bytes

-- From one state to a later one inside a section.
pub record Keeps (r s : Reader) : Type 0 where
  pub read_end : s.read_end ≡ r.read_end
  pub bytes : s.bytes ≡ r.bytes
  pub forward : r.offset ≤ s.offset
  pub offset-le : s.offset ≤ s.read_end
  pub sections : section_codes s.calls ≡ section_codes r.calls
  pub last : s.last_known_section ≡ r.last_known_section

pub Keeps-self : (r : Reader) → IsWithin r → Keeps r r
Keeps-self r w = record {
  read_end = refl;
  bytes = refl;
  forward = omega arith;
  offset-le = w.offset-le;
  sections = refl;
  last = refl;
}

pub Keeps-IsWithin : (r s : Reader) → IsWithin r → Keeps r s → IsWithin s
Keeps-IsWithin r s w k = record {
  offset-le = k.offset-le;
  end-le = omega (arith, w.end-le, k.read_end, ap (λ (b : List ℕ). length b) k.bytes);
}

pub Keeps-trans : (r s t : Reader) → Keeps r s → Keeps s t → Keeps r t
Keeps-trans r s t k l = record {
  read_end = l.read_end ∙ k.read_end;
  bytes = l.bytes ∙ k.bytes;
  forward = omega (arith, k.forward, l.forward);
  offset-le = l.offset-le;
  sections = l.sections ∙ k.sections;
  last = l.last ∙ k.last;
}

abbrev pub Ends : {A : Type 0} → Outcome A → Type 0
Ends no_fuel = ⊥
Ends _ = Unit {0}

-- Where a method moves at least `step` bytes when it succeeds.
abbrev pub Moves : {A : Type 0} → ℕ → ℕ → Outcome A → ℕ → Type 0
Moves step a (ok x) b = a + step ≤ b
Moves step a _ b = Unit {0}

abbrev pub Good : {A : Type 0} → ℕ → Reader → Outcome A × Reader → Type 0
Good step r (o, s) = Ends o × Keeps r s × Moves step r.offset o s.offset

abbrev pub errors : List Call → ℕ
errors [] = 0
errors (begin_section code size ∷ cs) = errors cs
errors (on_error level ∷ cs) = suc (errors cs)
errors (event e ∷ cs) = errors cs

abbrev pub cost : {A : Type 0} → Outcome A → ℕ
cost failed = 1
cost _ = 0

-- A method that fails tells the delegate of one error, and one that succeeds of none.
abbrev pub Told : {A : Type 0} → Reader → Outcome A × Reader → Type 0
Told r (o, s) = (s.options ≡ r.options) × (errors s.calls ≡ errors r.calls + cost o)

pub continue-Told :
    {A B : Type 0} (f : A → M B) (r : Reader) (x : Outcome A × Reader)
    → ((a : A) (s : Reader) → Told s (f a s))
    → Told r x
    → Told r (continue f x)
continue-Told f r (ok a, s) after (e, k) = let (d, l) = after a s in (d ∙ e, omega (arith, k, l))
continue-Told f r (failed, s) after t = t
continue-Told f r (no_fuel, s) after t = t

-- `m` ends in every state within its section, in a file of `n` bytes at most, and it keeps what
-- `Keeps` says; when it succeeds it has moved `step` bytes. It accounts for its errors as `Told`
-- says.
pub record Safe {A : Type 0} (n step : ℕ) (m : M A) : Type 0 where
  pub run : (r : Reader) → length r.bytes ≤ n → IsWithin r → Good step r (m r)
  pub told : (r : Reader) → Told r (m r)

module _ {A B : Type 0} (n step : ℕ) (f : A → M B) (after : (a : A) → Safe n 0 (f a)) where
  continue-Good :
      (r : Reader) (x : Outcome A × Reader)
      → length r.bytes ≤ n
      → IsWithin r
      → Good step r x
      → Good step r (continue f x)
  continue-Good r (ok a, s) h w (e, k, p) =
      let (e₁, k₁, p₁) =
        (after a).run s (omega (arith, h, ap (λ (b : List ℕ). length b) k.bytes))
          (Keeps-IsWithin r s w k) in
      (e₁, Keeps-trans r s _ k k₁, moved (f a s).0 (f a s).1 k₁.forward)
    where
      moved : (o : Outcome B) (t : Reader) → s.offset ≤ t.offset → Moves step r.offset o t.offset
      moved (ok b) t l = omega (arith, p, l)
      moved failed t l = tt
      moved no_fuel t l = tt
  continue-Good r (failed, s) h w (e, k, p) = (tt, k, tt)
  continue-Good r (no_fuel, s) h w (e, k, p) = absurd e

pub Safe-bind :
    {A B : Type 0} (n step : ℕ) (m : M A) (f : A → M B)
    → Safe n step m
    → ((a : A) → Safe n 0 (f a))
    → Safe n step (m >>= f)
Safe-bind n step m f s after = record {
  run = λ r h w. continue-Good n step f after r (m r) h w (s.run r h w);
  told = λ r. continue-Told f r (m r) (λ a. (after a).told) (s.told r);
}

pub Safe-then :
    {B : Type 0} (n step : ℕ) (m : M (Unit {0})) (k : M B)
    → Safe n step m
    → Safe n 0 k
    → Safe n step (m >> k)
Safe-then n step m k s after = record {
  run = λ r h w. continue-Good n step (λ x. k) (λ x. after) r (m r) h w (s.run r h w);
  told = λ r. continue-Told (λ x. k) r (m r) (λ x. after.told) (s.told r);
}

pub length-kept : (n : ℕ) (r s : Reader) → length r.bytes ≤ n → Keeps r s → length s.bytes ≤ n
length-kept n r s h k = omega (arith, h, ap (λ (b : List ℕ). length b) k.bytes)

-- What is good from a later state is good from an earlier one.
pub Good-after :
    {A : Type 0} (r s : Reader) → Keeps r s → (x : Outcome A × Reader) → Good 0 s x → Good 0 r x
Good-after r s k (ok a, t) (e, l, p) = (tt, Keeps-trans r s t k l, omega (arith, p, k.forward))
Good-after r s k (failed, t) (e, l, p) = (tt, Keeps-trans r s t k l, tt)
Good-after r s k (no_fuel, t) (e, l, p) = absurd e

-- A round of a loop that moves, and what follows from the state after it.
pub round-Good :
    {A B : Type 0} (n : ℕ) (f : A → M B) (r : Reader) (x : Outcome A × Reader)
    → length r.bytes ≤ n
    → IsWithin r
    → ((a : A) (s : Reader)
        → length s.bytes ≤ n
        → IsWithin s
        → s.read_end ≡ r.read_end
        → r.offset < s.offset
        → Good 0 s (f a s))
    → Good 1 r x
    → Good 0 r (continue f x)
round-Good n f r (ok a, s) h w after (e, k, p) =
    Good-after r s k (f a s)
      (after a s (length-kept n r s h k) (Keeps-IsWithin r s w k) k.read_end (omega (arith, p)))
round-Good n f r (failed, s) h w after (e, k, p) = (tt, k, tt)
round-Good n f r (no_fuel, s) h w after (e, k, p) = absurd e

-- ===== src/BinaryReader/Within/Primitives.antt =====
-- The primitives of `BinaryReader` stay within the section (src/binary-reader.cc).
use wasm_sandboxing.Base.{
  [], ℕ, zero, suc, ◌+◌, ◌-◌, ◌≤◌, ◌≡◌, inl, inr, refl, Bool, true, false, Bool-cases, List, ◌∷◌,
  length, take, drop, ltb, leb, if◌then◌else◌, arith,
}
use wasm_sandboxing.Leb128.{ReadResult, read_u32_leb128, read_s32_leb128, read_s64_leb128}
use wasm_sandboxing.Leb128.Bounds.{
  StaysIn, read_u32_leb128-StaysIn, read_s32_leb128-StaysIn, read_s64_leb128-StaysIn,
}
use wasm_sandboxing.BinaryReader.State.{
  Reader, M, Outcome, ok, failed, no_fuel, pure, fail, error_unless, answered, callback, Event,
  event, Counts, get_counts, set_counts, get_options, repeat, collect, called,
}
use wasm_sandboxing.BinaryReader.Read.{
  window, read_t, read_leb, read_u32_leb, read_s32_leb, read_s64_leb, read_span, section_remaining,
}
use wasm_sandboxing.BinaryReader.Within.{
  section_codes, IsWithin, Keeps, Keeps-self, Good, Safe, Safe-bind, Safe-then,
}

Good-weaken :
    {A : Type 0} (step : ℕ) (r : Reader) (x : Outcome A × Reader) → Good step r x → Good 0 r x
Good-weaken step r (ok a, s) (e, k, p) = (e, k, omega (arith, p))
Good-weaken step r (failed, s) (e, k, p) = (tt, k, tt)
Good-weaken step r (no_fuel, s) (e, k, p) = absurd e

pub Safe-weaken : {A : Type 0} (n step : ℕ) (m : M A) → Safe n step m → Safe n 0 m
Safe-weaken n step m s = record {
  run = λ r h w. Good-weaken step r (m r) (s.run r h w);
  told = s.told;
}

-- A state that differs in what `Keeps` does not see.
pub pure-Safe : {A : Type 0} (n : ℕ) (a : A) → Safe n 0 (pure a)
pure-Safe n a = record {
  run = λ r h w. (tt, Keeps-self r w, omega arith);
  told = λ r. (refl, omega arith);
}

pub asks-Safe : {A : Type 0} (n : ℕ) (f : Reader → A) → Safe n 0 (λ r. (ok (f r), r))
asks-Safe n f = record {
  run = λ r h w. (tt, Keeps-self r w, omega arith);
  told = λ r. (refl, omega arith);
}

-- A change of what `Keeps` does not see.
pub Keeps-unseen :
    (r s : Reader)
    → IsWithin r
    → s.read_end ≡ r.read_end
    → s.bytes ≡ r.bytes
    → s.offset ≡ r.offset
    → section_codes s.calls ≡ section_codes r.calls
    → s.last_known_section ≡ r.last_known_section
    → Keeps r s
Keeps-unseen r s w e b o c l = record {
  read_end = e;
  bytes = b;
  forward = omega (arith, o);
  offset-le = omega (arith, o, e, w.offset-le);
  sections = c;
  last = l;
}

pub Keeps-advance :
    (r : Reader) (k : ℕ) → r.offset + k ≤ r.read_end → Keeps r (record r { offset = r.offset + k })
Keeps-advance r k h = record {
  read_end = refl;
  bytes = refl;
  forward = omega arith;
  offset-le = h;
  sections = refl;
  last = refl;
}

pub fail-Safe : {A : Type 0} (n step : ℕ) → Safe n step (fail {A = A})
unfolding fail
fail-Safe n step = record {
  run = λ r h w. (tt, Keeps-unseen r _ w refl refl refl refl refl, tt);
  told = λ r. (refl, omega arith);
}

pub error_unless-Safe : (n : ℕ) (b : Bool) → Safe n 0 (error_unless b)
unfolding error_unless
error_unless-Safe n true = pure-Safe n tt
error_unless-Safe n false = fail-Safe n 0

pub callback-Safe : (n : ℕ) (e : Event) → Safe n 0 (callback e)
unfolding callback answered error_unless fail
callback-Safe n e = record {
  run = λ r h w.
      let k = Keeps-unseen r (called (event e) r) w refl refl refl refl refl in
      elim (Bool-cases (r.answer (event e ∷ r.calls))) [
        | inl yes_ ↦ rw yes_ (tt, k, omega arith)
        | inr no_ ↦ rw no_ (tt, Keeps-unseen r _ w refl refl refl refl refl, tt)
      ];
  told = λ r. elim (Bool-cases (r.answer (event e ∷ r.calls))) [
    | inl yes_ ↦ rw yes_ (refl, omega arith)
    | inr no_ ↦ rw no_ (refl, omega arith)
  ];
}

pub get_counts-Safe : (n : ℕ) → Safe n 0 get_counts
unfolding get_counts
get_counts-Safe n = asks-Safe n (λ r. r.counts)

pub get_options-Safe : (n : ℕ) → Safe n 0 get_options
unfolding get_options
get_options-Safe n = asks-Safe n (λ r. r.options)

pub set_counts-Safe : (n : ℕ) (f : Counts → Counts) → Safe n 0 (set_counts f)
unfolding set_counts
set_counts-Safe n f = record {
  run = λ r h w. (tt, Keeps-unseen r _ w refl refl refl refl refl, omega arith);
  told = λ r. (refl, omega arith);
}

pub section_remaining-Safe : (n : ℕ) → Safe n 0 section_remaining
unfolding section_remaining
section_remaining-Safe n = asks-Safe n _

pub if-Safe :
    {A : Type 0} (n step : ℕ) (b : Bool) (m k : M A)
    → Safe n step m
    → Safe n step k
    → Safe n step (if b then m else k)
if-Safe n step true m k s t = s
if-Safe n step false m k s t = t

pub repeat-Safe :
    (n i rounds : ℕ) (m : ℕ → M (Unit {0}))
    → ((j : ℕ) → Safe n 0 (m j))
    → Safe n 0 (repeat i rounds m)
unfolding repeat
repeat-Safe n i zero m s = pure-Safe n tt
repeat-Safe n i (suc rounds) m s = Safe-then n 0 (m i) _ (s i) (repeat-Safe n (i + 1) rounds m s)

pub collect-Safe : (n rounds : ℕ) (m : M ℕ) → Safe n 0 m → Safe n 0 (collect rounds m)
unfolding collect
collect-Safe n zero m s = pure-Safe n []
collect-Safe n (suc rounds) m s =
    Safe-bind n 0 m _ s
      λ x. Safe-bind n 0 (collect rounds m) _ (collect-Safe n rounds m s) λ xs. pure-Safe n (x ∷ xs)

pub read_t-Safe : (n k : ℕ) → Safe n k (read_t k)
unfolding read_t
read_t-Safe n k = record {
  run = λ r h w. elim (Bool-cases (ltb r.read_end (r.offset + k))) [
    | inl short ↦ rw short ((fail-Safe {A = ℕ} n k).run r h w)
    | inr fits ↦ rw fits (tt, Keeps-advance r k (ground arith), omega arith)
  ];
  told = λ r. elim (Bool-cases (ltb r.read_end (r.offset + k))) [
    | inl short ↦ rw short ((fail-Safe {A = ℕ} n k).told r)
    | inr fits ↦ rw fits (refl, omega arith)
  ];
}

pub read_span-Safe : (n k : ℕ) → Safe n 0 (read_span k)
unfolding read_span
read_span-Safe n k = record {
  run = λ r h w. elim (Bool-cases (leb (r.offset + k) r.read_end)) [
    | inl fits ↦ rw fits (tt, Keeps-advance r k (ground arith), omega arith)
    | inr short ↦ rw short ((fail-Safe {A = List ℕ} n 0).run r h w)
  ];
  told = λ r. elim (Bool-cases (leb (r.offset + k) r.read_end)) [
    | inl fits ↦ rw fits (refl, omega arith)
    | inr short ↦ rw short ((fail-Safe {A = List ℕ} n 0).told r)
  ];
}

length-take : (k : ℕ) (xs : List ℕ) → length (take k xs) ≤ k
length-take zero xs = omega arith
length-take (suc k) [] = omega arith
length-take (suc k) (x ∷ xs) = omega (arith, length-take k xs)

read_leb-Safe : (n : ℕ) (reader : List ℕ → ReadResult) → StaysIn reader → Safe n 1 (read_leb reader)
unfolding read_leb
read_leb-Safe n reader stays = record {
  run = λ r h w. elim (Bool-cases (ltb 0 (reader (window r)).size)) [
    | inl some_ ↦
        let room : (reader (window r)).size ≤ r.read_end - r.offset =
          omega (
            arith,
            stays (window r),
            length-take (r.read_end - r.offset) (drop r.offset r.bytes),
          ) in
        rw some_ (tt, Keeps-advance r _ (omega (arith, room, w.offset-le)), ground arith)
    | inr none_ ↦ rw none_ ((fail-Safe {A = ℕ} n 1).run r h w)
  ];
  told = λ r. elim (Bool-cases (ltb 0 (reader (window r)).size)) [
    | inl some_ ↦ rw some_ (refl, omega arith)
    | inr none_ ↦ rw none_ ((fail-Safe {A = ℕ} n 1).told r)
  ];
}

pub read_u32_leb-moves : (n : ℕ) → Safe n 1 read_u32_leb
unfolding read_u32_leb
read_u32_leb-moves n = read_leb-Safe n read_u32_leb128 read_u32_leb128-StaysIn

pub read_s32_leb-moves : (n : ℕ) → Safe n 1 read_s32_leb
unfolding read_s32_leb
read_s32_leb-moves n = read_leb-Safe n read_s32_leb128 read_s32_leb128-StaysIn

pub read_s64_leb-moves : (n : ℕ) → Safe n 1 read_s64_leb
unfolding read_s64_leb
read_s64_leb-moves n = read_leb-Safe n read_s64_leb128 read_s64_leb128-StaysIn

module _ (n : ℕ) where
  pub read_u32_leb-Safe : Safe n 0 read_u32_leb
  read_u32_leb-Safe = Safe-weaken n 1 read_u32_leb (read_u32_leb-moves n)

  pub read_s32_leb-Safe : Safe n 0 read_s32_leb
  read_s32_leb-Safe = Safe-weaken n 1 read_s32_leb (read_s32_leb-moves n)

  pub read_s64_leb-Safe : Safe n 0 read_s64_leb
  read_s64_leb-Safe = Safe-weaken n 1 read_s64_leb (read_s64_leb-moves n)

  pub read_t-still : (k : ℕ) → Safe n 0 (read_t k)
  read_t-still k = Safe-weaken n k (read_t k) (read_t-Safe n k)

-- The rules by which a method is taken apart.
pub ruleset steps = (
  Safe-bind, Safe-then, pure-Safe, asks-Safe, fail-Safe, error_unless-Safe, callback-Safe,
  get_counts-Safe, get_options-Safe, set_counts-Safe, section_remaining-Safe, if-Safe, repeat-Safe,
  collect-Safe, read_t-still, read_span-Safe, read_u32_leb-Safe, read_s32_leb-Safe,
  read_s64_leb-Safe,
)

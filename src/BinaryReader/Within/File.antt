-- ===== src/BinaryReader/Within/File.antt =====
-- The reading of a whole file ends, within the file, with the known sections in order
-- (src/binary-reader.cc).
use wasm_sandboxing.Base.{
  ℕ, zero, suc, ◌+◌, ◌≤◌, ◌<◌, ◌≡◌, ◌≢◌, ◌∙◌, subst, inl, inr, refl, sym, ap, Bool, true, false,
  Bool-cases, ◌&&◌, List, length, ltb, ◌==◌, arith,
}
use wasm_sandboxing.BinaryReader.State.{
  Reader, M, Outcome, ok, failed, no_fuel, continue, ◌>>=◌, error_unless, Call, callback,
  begin_module, end_module, Options, with_read_end,
}
use wasm_sandboxing.BinaryReader.Read.{read_u32_leb, read_u32}
use wasm_sandboxing.BinaryReader.Module.{
  section_round, section_loop, read_sections, read_module, read_binary, new_reader, returned,
  magic_number,
}
use wasm_sandboxing.BinaryReader.Within.{Keeps, Keeps-IsWithin, Ends, Good, Safe, length-kept}
use wasm_sandboxing.BinaryReader.Within.Primitives.{steps, read_u32_leb-moves, callback-Safe}
use wasm_sandboxing.BinaryReader.Within.Order.{
  known, Falls, sections_of, bound, IsSound, IsReady, Sound,
}
use wasm_sandboxing.BinaryReader.Within.Section.{section_body-Sound}

Keeps-IsSound : (r s : Reader) → IsSound r → Keeps r s → IsSound s
Keeps-IsSound r s i k = record {
  within = Keeps-IsWithin r s i.within k;
  whole = k.read_end ∙ i.whole ∙ ap (λ (l : List ℕ). length l) (sym k.bytes);
  falls = subst (λ cs. Falls 12 (known cs)) (sym k.sections) i.falls;
}

Keeps-IsReady : (r s : Reader) → IsReady r → Keeps r s → IsReady s
Keeps-IsReady r s i k = record {
  sound = Keeps-IsSound r s i.sound k;
  in_order =
      subst (λ l. Falls (bound l) (sections_of s)) (sym k.last)
        (subst (λ cs. Falls (bound r.last_known_section) (known cs)) (sym k.sections) i.in_order);
  known = subst (λ l. bound l ≤ 12) (sym k.last) i.known;
}

-- The end of a run: it is not for want of fuel.
abbrev Done : {A : Type 0} → Reader → Outcome A × Reader → Type 0
Done r (o, s) = Ends o × (s.bytes ≡ r.bytes) × IsSound s

-- A method that is safe, and what follows it.
prefix-Sound :
    {A : Type 0} (r q : Reader) (step : ℕ) (f : A → M Bool) (x : Outcome A × Reader)
    → IsReady q
    → q.bytes ≡ r.bytes
    → Good step q x
    → ((a : A) (s : Reader)
        → IsReady s
        → s.bytes ≡ r.bytes
        → q.offset + step ≤ s.offset
        → Sound r (f a s))
    → Sound r (continue f x)
prefix-Sound r q step f (ok a, s) i b (e, k, p) after =
    after a s (Keeps-IsReady q s i k) (k.bytes ∙ b) p
prefix-Sound r q step f (failed, s) i b (e, k, p) after =
    (k.bytes ∙ b, Keeps-IsSound q s i.sound k, tt)
prefix-Sound r q step f (no_fuel, s) i b (e, k, p) after = absurd e

prefix-Done :
    {A B : Type 0} (r q : Reader) (f : A → M B) (x : Outcome A × Reader)
    → q.bytes ≡ r.bytes
    → Done q x
    → ((a : A) (s : Reader) → IsSound s → s.bytes ≡ r.bytes → Done r (f a s))
    → Done r (continue f x)
prefix-Done r q f (ok a, s) b (e, k, i) after = after a s i (k ∙ b)
prefix-Done r q f (failed, s) b (e, k, i) after = (tt, k ∙ b, i)
prefix-Done r q f (no_fuel, s) b (e, k, i) after = absurd e

Good-Done : {A : Type 0} (r : Reader) (x : Outcome A × Reader) → IsSound r → Good 0 r x → Done r x
Good-Done r (ok a, s) i (e, k, p) = (tt, k.bytes, Keeps-IsSound r s i k)
Good-Done r (failed, s) i (e, k, p) = (tt, k.bytes, Keeps-IsSound r s i k)
Good-Done r (no_fuel, s) i (e, k, p) = absurd e

module _ (n : ℕ) where
  short : (r s : Reader) → length r.bytes ≤ n → s.bytes ≡ r.bytes → length s.bytes ≤ n
  short r s h b = omega (arith, h, ap (λ (l : List ℕ). length l) b)

  section_round-Sound :
      (r : Reader) → length r.bytes ≤ n → IsReady r → Sound r (section_round (suc n) r)
  unfolding section_round with_read_end
  section_round-Sound r h i =
      prefix-Sound r r 1 _ (read_u32_leb r) i refl ((read_u32_leb-moves n).run r h i.sound.within)
        λ code s si b p.
          prefix-Sound r s 1 _ (read_u32_leb s) si b
            ((read_u32_leb-moves n).run s (short r s h b) si.sound.within)
            λ size q qi c l.
              section_body-Sound n r q (q.offset + size) qi c code size (omega (arith, p, l))
                (omega arith) (short r q h c)

  section_loop-Done :
      (fuel : ℕ) (result : Bool) (r : Reader)
      → length r.bytes ≤ n
      → IsReady r
      → length r.bytes < r.offset + fuel
      → Done r (section_loop fuel (suc n) result r)
  unfolding section_loop
  section_loop-Done zero result r h i f =
      absurd (omega (arith, f, i.sound.within.offset-le, i.sound.whole))
  section_loop-Done (suc fuel) result r h i f = elim (Bool-cases (ltb r.offset (length r.bytes))) [
    | inl more ↦ rw more (
        after (section_round (suc n) r) (section_round-Sound r h i) λ success s hs si b p.
          section_loop-Done fuel (result && success) s hs si
            (omega (arith, f, p, ap (λ (l : List ℕ). length l) b)))
    | inr done ↦ rw done (tt, refl, i.sound)
  ]
    where
      after :
          (x : Outcome Bool × Reader)
          → Sound r x
          → ((success : Bool) (s : Reader)
              → length s.bytes ≤ n
              → IsReady s
              → s.bytes ≡ r.bytes
              → r.offset < s.offset
              → Done s (section_loop fuel (suc n) (result && success) s))
          → Done r (continue (λ success. section_loop fuel (suc n) (result && success)) x)
      after (ok success, s) (b, si, (ready, p)) rest =
          let (d, c, l) = rest success s (short r s h b) ready b p in (d, c ∙ b, l)
      after (failed, s) (b, si, p) rest = (tt, b, si)
      after (no_fuel, s) (b, si, p) rest = absurd p

  returned-Done : (b : Bool) (r : Reader) → IsSound r → Done r (returned b r)
  returned-Done true r i = (tt, refl, i)
  returned-Done false r i = (tt, refl, i)

  read_sections-Done :
      (r : Reader) → length r.bytes ≤ n → IsReady r → Done r (read_sections (suc n) r)
  unfolding read_sections
  read_sections-Done r h i =
      prefix-Done r r returned (section_loop (suc n) (suc n) true r) refl
        (section_loop-Done (suc n) true r h i (omega (arith, h)))
        λ b s si c. let (e, d, l) = returned-Done b s si in (e, d ∙ c, l)

  ready-Done :
      {A B : Type 0} (r : Reader) (m : M A) (f : A → M B) (q : Reader)
      → Safe n 0 m
      → length q.bytes ≤ n
      → IsReady q
      → q.bytes ≡ r.bytes
      → ((a : A) (s : Reader) → IsReady s → s.bytes ≡ r.bytes → length s.bytes ≤ n → Done r (f a s))
      → Done r ((m >>= f) q)
  ready-Done {A} {B} r m f q safe h i b after = go (m q) (safe.run q h i.sound.within)
    where
      go : (x : Outcome A × Reader) → Good 0 q x → Done r (continue f x)
      go (ok a, s) (e, k, p) =
          after a s (Keeps-IsReady q s i k) (k.bytes ∙ b) (length-kept n q s h k)
      go (failed, s) (e, k, p) = (tt, k.bytes ∙ b, Keeps-IsSound q s i.sound k)
      go (no_fuel, s) (e, k, p) = absurd e

  read_module-Done : (r : Reader) → length r.bytes ≤ n → IsReady r → Done r (read_module (suc n) r)
  unfolding read_module
  read_module-Done r h i = ready-Done r read_u32 _ r (search steps) h i refl λ magic r₁ i₁ b₁ h₁.
      ready-Done r (error_unless (magic == magic_number)) (λ u. _) r₁ (search steps) h₁ i₁ b₁
        λ u₂ r₂ i₂ b₂ h₂. ready-Done r read_u32 _ r₂ (search steps) h₂ i₂ b₂ λ version r₃ i₃ b₃ h₃.
          ready-Done r (error_unless (version == 1)) (λ u. _) r₃ (search steps) h₃ i₃ b₃
            λ u₄ r₄ i₄ b₄ h₄.
              ready-Done r (callback (begin_module version)) (λ u. _) r₄ (search steps) h₄ i₄ b₄
                λ u₅ r₅ i₅ b₅ h₅.
                  prefix-Done r r₅ (λ u. callback end_module) (read_sections (suc n) r₅) b₅
                    (read_sections-Done r₅ h₅ i₅)
                    λ u₆ r₆ i₆ b₆.
                      let (e, c, l) =
                        Good-Done r₆ _ i₆
                          ((callback-Safe n end_module).run r₆ (short r r₆ h b₆) i₆.within) in
                      (e, c ∙ b₆, l)

Done-ends :
    {A : Type 0} (r : Reader) (x : Outcome A × Reader)
    → Done r x
    → (x.0 ≢ no_fuel) × (x.1.offset ≤ length r.bytes) × Falls 12 (sections_of x.1)
Done-ends r (ok a, s) (e, b, i) =
    (λ h. cc, omega (arith, i.within.offset-le, i.whole, ap (λ (l : List ℕ). length l) b), i.falls)
Done-ends r (failed, s) (e, b, i) =
    (λ h. cc, omega (arith, i.within.offset-le, i.whole, ap (λ (l : List ℕ). length l) b), i.falls)
Done-ends r (no_fuel, s) (e, b, i) = absurd e

new_reader-IsReady :
    (bytes : List ℕ) (answer : List Call → Bool) (options : Options)
    → IsReady (new_reader bytes answer options)
new_reader-IsReady bytes answer options = record {
  sound = record {
    within = record { offset-le = omega arith; end-le = omega arith };
    whole = refl;
    falls = tt;
  };
  in_order = tt;
  known = omega arith;
}

-- `ReadBinary` ends on every file, whatever the delegate answers and the options say: no loop runs
-- out of a fuel of one more than the file's bytes, the offset is within the file, and the codes of
-- the known sections that `BeginSection` was called with are at most 11 and rise from call to call.
pub read_binary-ends :
    (bytes : List ℕ) (answer : List Call → Bool) (options : Options)
    → let x = read_binary bytes answer options in
      (x.0 ≢ no_fuel) × (x.1.offset ≤ length bytes) × Falls 12 (sections_of x.1)
unfolding read_binary
read_binary-ends bytes answer options =
    let r = new_reader bytes answer options in
    Done-ends r (read_module (suc (length bytes)) r)
      (read_module-Done (length bytes) r (omega arith) (new_reader-IsReady bytes answer options))

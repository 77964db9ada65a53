-- ===== src/BinaryReader/Within/Scopes.antt =====
-- The blocks at whose end a member is restored (src/binary-reader.cc).
use wasm_sandboxing.Base.{ℕ, ◌≤◌, refl, Bool, true, length, arith}
use wasm_sandboxing.BinaryReader.State.{
  Reader, M, Outcome, ok, failed, no_fuel, with_read_end, with_custom_section, restore_custom,
  restore_read_end,
}
use wasm_sandboxing.BinaryReader.Within.{IsWithin, Good, Told, Safe}

module _ (n : ℕ) where
  with_custom_section-Good :
      {A : Type 0} (r : Reader) (b : Bool) (x : Outcome A × Reader)
      → Good 0 (record r { reading_custom_section = true }) x
      → Good 0 r (restore_custom b x)
  with_custom_section-Good r b (ok a, s) (e, k, p) = (
    tt,
    record {
      read_end = k.read_end;
      bytes = k.bytes;
      forward = k.forward;
      offset-le = k.offset-le;
      sections = k.sections;
      last = k.last;
    },
    p,
  )
  with_custom_section-Good r b (failed, s) (e, k, p) = (
    tt,
    record {
      read_end = k.read_end;
      bytes = k.bytes;
      forward = k.forward;
      offset-le = k.offset-le;
      sections = k.sections;
      last = k.last;
    },
    tt,
  )
  with_custom_section-Good r b (no_fuel, s) (e, k, p) = absurd e

  restore_custom-Told :
      {A : Type 0} (r : Reader) (b c : Bool) (x : Outcome A × Reader)
      → Told (record r { reading_custom_section = c }) x
      → Told r (restore_custom b x)
  restore_custom-Told r b c (o, s) t = t

  restore_read_end-Told :
      {A : Type 0} (r : Reader) (e end_ : ℕ) (x : Outcome A × Reader)
      → Told (record r { read_end = e }) x
      → Told r (restore_read_end end_ x)
  restore_read_end-Told r e end_ (o, s) t = t

  pub with_custom_section-Safe :
      {A : Type 0} (m : M A) → Safe n 0 m → Safe n 0 (with_custom_section m)
  unfolding with_custom_section
  with_custom_section-Safe m s = record {
    run = λ r h w. with_custom_section-Good r r.reading_custom_section (m _) (
        s.run (record r { reading_custom_section = true }) h
          (record { offset-le = w.offset-le; end-le = w.end-le }));
    told = λ r.
        restore_custom-Told r r.reading_custom_section true (m _)
          (s.told (record r { reading_custom_section = true }));
  }

  with_read_end-Good :
      {A : Type 0} (r : Reader) (e : ℕ) (x : Outcome A × Reader)
      → e ≤ r.read_end
      → Good 0 (record r { read_end = e }) x
      → Good 0 r (restore_read_end r.read_end x)
  with_read_end-Good r e (ok a, s) b (d, k, p) = (
    tt,
    record {
      read_end = refl;
      bytes = k.bytes;
      forward = k.forward;
      offset-le = omega (arith, k.offset-le, k.read_end);
      sections = k.sections;
      last = k.last;
    },
    p,
  )
  with_read_end-Good r e (failed, s) b (d, k, p) = (
    tt,
    record {
      read_end = refl;
      bytes = k.bytes;
      forward = k.forward;
      offset-le = omega (arith, k.offset-le, k.read_end);
      sections = k.sections;
      last = k.last;
    },
    tt,
  )
  with_read_end-Good r e (no_fuel, s) b (d, k, p) = absurd d

  pub with_read_end-Told :
      {A : Type 0} (m : M A) (e : ℕ) (r : Reader) → Safe n 0 m → Told r (with_read_end e m r)
  unfolding with_read_end
  with_read_end-Told m e r s =
      restore_read_end-Told r e r.read_end (m (record r { read_end = e })) (s.told _)

  -- A block up to an end that lies between the offset and the section's end.
  pub with_read_end-run :
      {A : Type 0} (m : M A) (e : ℕ) (r : Reader)
      → Safe n 0 m
      → length r.bytes ≤ n
      → IsWithin r
      → r.offset ≤ e
      → e ≤ r.read_end
      → Good 0 r (with_read_end e m r)
  unfolding with_read_end
  with_read_end-run m e r s h w lo hi = with_read_end-Good r e (m (record r { read_end = e })) hi (
      s.run (record r { read_end = e }) h
        (record { offset-le = lo; end-le = omega (arith, w.end-le, hi) }))

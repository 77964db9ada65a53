-- ===== src/BinaryReader/Within/Names.antt =====
-- The custom sections stay within the section, and their loops end (src/binary-reader.cc).
use wasm_sandboxing.Base.{
  ℕ, zero, suc, ◌+◌, ◌≤◌, ◌<◌, inl, inr, refl, Bool-cases, length, ltb, leb, arith,
}
use wasm_sandboxing.BinaryReader.State.{
  Reader, M, ◌>>=◌, ◌>>◌, Counted, Part, Text, with_read_end, error_unless,
}
use wasm_sandboxing.BinaryReader.Read.{read_u32_leb}
use wasm_sandboxing.BinaryReader.Names.{
  read_function_names, read_local_names, read_funcs_local_names, name_subsection, name_round,
  name_loop, read_name_section, read_exception, read_exception_section, set_did_read_names,
  custom_contents, read_custom_section,
}
use wasm_sandboxing.BinaryReader.Linking.{
  read_reloc, read_reloc_section, read_func_or_global_symbol, read_symbol_place, read_data_symbol,
  read_symbol, read_segment_info, read_init_function, counted, linking_subsection, linking_round,
  linking_loop, read_linking_section,
}
use wasm_sandboxing.BinaryReader.Subsections.{skip_to_end, at_end, subsection, bracketed}
use wasm_sandboxing.BinaryReader.Within.{
  IsWithin, Keeps-self, Good, Told, continue-Told, Safe, Safe-bind, Safe-then, round-Good,
}
use wasm_sandboxing.BinaryReader.Within.Primitives.{
  steps, read_u32_leb-moves, Keeps-unseen, fail-Safe, asks-Safe,
}
use wasm_sandboxing.BinaryReader.Within.Scopes.{
  with_read_end-run, with_read_end-Told, with_custom_section-Safe,
}
use wasm_sandboxing.BinaryReader.Within.Reads.{reads}

module _ (n : ℕ) where
  read_function_names-Safe : (k last : ℕ) → Safe n 0 (read_function_names k last)
  unfolding read_function_names
  read_function_names-Safe zero last = search steps
  read_function_names-Safe (suc k) last = search (reads, read_function_names-Safe k) depth 16

  read_local_names-Safe : (f k last : ℕ) → Safe n 0 (read_local_names f k last)
  unfolding read_local_names
  read_local_names-Safe f zero last = search steps
  read_local_names-Safe f (suc k) last = search (reads, read_local_names-Safe f k) depth 16

  read_funcs_local_names-Safe : (k last : ℕ) → Safe n 0 (read_funcs_local_names k last)
  unfolding read_funcs_local_names
  read_funcs_local_names-Safe zero last = search steps
  read_funcs_local_names-Safe (suc k) last =
      search (reads, read_local_names-Safe, read_funcs_local_names-Safe k) depth 16

  pub skip_to_end-Safe : Safe n 0 skip_to_end
  unfolding skip_to_end
  skip_to_end-Safe = record {
    run = λ r h w. (
      tt,
      record {
        read_end = refl;
        bytes = refl;
        forward = w.offset-le;
        offset-le = omega arith;
        sections = refl;
        last = refl;
      },
      omega (arith, w.offset-le),
    );
    told = λ r. (refl, omega arith);
  }

  name_subsection-Safe : (i t size : ℕ) → Safe n 0 (name_subsection i t size)
  unfolding name_subsection
  name_subsection-Safe i t size =
      search (reads, read_function_names-Safe, read_funcs_local_names-Safe, skip_to_end-Safe) depth
        16

  at_end-Safe : Safe n 0 at_end
  at_end-Safe = asks-Safe n _

  subsection-run :
      (m : M (Unit {0}))
      → Safe n 0 m
      → (e : ℕ) (r : Reader) → length r.bytes ≤ n
      → IsWithin r
      → r.offset ≤ e
      → Good 0 r (
          (error_unless (leb e r.read_end)
              >> with_read_end e (m >> (at_end >>= λ finished. error_unless finished)))
            r)
  unfolding error_unless
  subsection-run m s e r h w lo = elim (Bool-cases (leb e r.read_end)) [
    | inl fits ↦ rw fits (
        with_read_end-run n _ e r (Safe-then n 0 m _ s (search (steps, at_end-Safe))) h w lo
          (ground arith))
    | inr out ↦ rw out ((fail-Safe {A = Unit {0}} n 0).run r h w)
  ]

  subsection-Told :
      (m : M (Unit {0}))
      → Safe n 0 m
      → (e : ℕ) (r : Reader)
      → Told r (
          (error_unless (leb e r.read_end)
              >> with_read_end e (m >> (at_end >>= λ finished. error_unless finished)))
            r)
  unfolding error_unless
  subsection-Told m s e r = elim (Bool-cases (leb e r.read_end)) [
    | inl fits ↦
        rw fits (with_read_end-Told n _ e r (Safe-then n 0 m _ s (search (steps, at_end-Safe))))
    | inr out ↦ rw out ((fail-Safe {A = Unit {0}} n 0).told r)
  ]

  subsection-Safe : (size : ℕ) (m : M (Unit {0})) → Safe n 0 m → Safe n 0 (subsection size m)
  unfolding subsection
  subsection-Safe size m s = record {
    run = λ r h w. subsection-run m s (r.offset + size) r h w (omega arith);
    told = λ r. subsection-Told m s (r.offset + size) r;
  }

  name_round-moves : (i previous : ℕ) → Safe n 1 (name_round i previous)
  unfolding name_round
  name_round-moves i previous =
      Safe-bind n 1 read_u32_leb _ (read_u32_leb-moves n)
        λ t. search (steps, subsection-Safe, name_subsection-Safe) depth 16

  name_loop-run :
      (fuel i previous : ℕ) (r : Reader)
      → length r.bytes ≤ n
      → IsWithin r
      → r.read_end < r.offset + fuel
      → Good 0 r (name_loop fuel i previous r)
  unfolding name_loop
  name_loop-run zero i previous r h w f = absurd (omega (arith, f, w.offset-le))
  name_loop-run (suc fuel) i previous r h w f = elim (Bool-cases (ltb r.offset r.read_end)) [
    | inl more ↦ rw more (
        round-Good n (λ t. name_loop fuel (i + 1) t) r (name_round i previous r) h w
          (λ t s hs ws e p. name_loop-run fuel (i + 1) t s hs ws (omega (arith, f, p, e)))
          ((name_round-moves i previous).run r h w))
    | inr done ↦ rw done (tt, Keeps-self r w, omega arith)
  ]

  name_loop-Told : (fuel i previous : ℕ) (r : Reader) → Told r (name_loop fuel i previous r)
  unfolding name_loop
  name_loop-Told zero i previous r = (refl, omega arith)
  name_loop-Told (suc fuel) i previous r = elim (Bool-cases (ltb r.offset r.read_end)) [
    | inl more ↦ rw more (
        continue-Told (λ t. name_loop fuel (i + 1) t) r (name_round i previous r)
          (name_loop-Told fuel (i + 1)) ((name_round-moves i previous).told r))
    | inr done ↦ rw done (refl, omega arith)
  ]

  name_loop-Safe : Safe n 0 (name_loop (suc n) 0 0)
  name_loop-Safe = record {
    run = λ r h w. name_loop-run (suc n) 0 0 r h w (omega (arith, h, w.end-le));
    told = name_loop-Told (suc n) 0 0;
  }

  pub bracketed-Safe :
      (part : Part) (size : ℕ) (m : M (Unit {0})) → Safe n 0 m → Safe n 0 (bracketed part size m)
  unfolding bracketed
  bracketed-Safe part size m s = search steps

  read_reloc-Safe : Safe n 0 read_reloc
  unfolding read_reloc
  read_reloc-Safe = search steps depth 16

  read_reloc_section-Safe : (size : ℕ) → Safe n 0 (read_reloc_section size)
  unfolding read_reloc_section
  read_reloc_section-Safe size = search (reads, bracketed-Safe, read_reloc-Safe) depth 16

  read_func_or_global_symbol-Safe :
      (i kind flags : ℕ) → Safe n 0 (read_func_or_global_symbol i kind flags)
  unfolding read_func_or_global_symbol
  read_func_or_global_symbol-Safe i kind flags = search reads

  read_symbol_place-Safe : (flags : ℕ) → Safe n 0 (read_symbol_place flags)
  unfolding read_symbol_place
  read_symbol_place-Safe flags = search steps

  read_data_symbol-Safe : (i flags : ℕ) → Safe n 0 (read_data_symbol i flags)
  unfolding read_data_symbol
  read_data_symbol-Safe i flags = search (reads, read_symbol_place-Safe)

  read_symbol-Safe : (i : ℕ) → Safe n 0 (read_symbol i)
  unfolding read_symbol
  read_symbol-Safe i =
      search (reads, read_func_or_global_symbol-Safe, read_data_symbol-Safe) depth 16

  read_segment_info-Safe : (i : ℕ) → Safe n 0 (read_segment_info i)
  unfolding read_segment_info
  read_segment_info-Safe i = search reads

  read_init_function-Safe : Safe n 0 read_init_function
  unfolding read_init_function
  read_init_function-Safe = search steps

  counted-Safe :
      (what : Counted) (item : ℕ → M (Unit {0}))
      → ((i : ℕ) → Safe n 0 (item i))
      → Safe n 0 (counted what item)
  unfolding counted
  counted-Safe what item s = search steps

  linking_subsection-Safe : (t : ℕ) → Safe n 0 (linking_subsection t)
  unfolding linking_subsection
  linking_subsection-Safe t = search (
    steps, counted-Safe, read_symbol-Safe, read_segment_info-Safe, read_init_function-Safe,
    skip_to_end-Safe,
  )

  linking_round-moves : Safe n 1 linking_round
  unfolding linking_round
  linking_round-moves =
      Safe-bind n 1 read_u32_leb _ (read_u32_leb-moves n)
        λ t. search (steps, subsection-Safe, linking_subsection-Safe)

  linking_loop-run :
      (fuel : ℕ) (r : Reader)
      → length r.bytes ≤ n
      → IsWithin r
      → r.read_end < r.offset + fuel
      → Good 0 r (linking_loop fuel r)
  unfolding linking_loop
  linking_loop-run zero r h w f = absurd (omega (arith, f, w.offset-le))
  linking_loop-run (suc fuel) r h w f = elim (Bool-cases (ltb r.offset r.read_end)) [
    | inl more ↦ rw more (
        round-Good n (λ t. linking_loop fuel) r (linking_round r) h w
          (λ t s hs ws e p. linking_loop-run fuel s hs ws (omega (arith, f, p, e)))
          (linking_round-moves.run r h w))
    | inr done ↦ rw done (tt, Keeps-self r w, omega arith)
  ]

  linking_loop-Told : (fuel : ℕ) (r : Reader) → Told r (linking_loop fuel r)
  unfolding linking_loop
  linking_loop-Told zero r = (refl, omega arith)
  linking_loop-Told (suc fuel) r = elim (Bool-cases (ltb r.offset r.read_end)) [
    | inl more ↦ rw more (
        continue-Told (λ t. linking_loop fuel) r (linking_round r) (λ t. linking_loop-Told fuel)
          (linking_round-moves.told r))
    | inr done ↦ rw done (refl, omega arith)
  ]

  linking_loop-Safe : Safe n 0 (linking_loop (suc n))
  linking_loop-Safe = record {
    run = λ r h w. linking_loop-run (suc n) r h w (omega (arith, h, w.end-le));
    told = linking_loop-Told (suc n);
  }

  read_linking_section-Safe : (size : ℕ) → Safe n 0 (read_linking_section (suc n) size)
  unfolding read_linking_section
  read_linking_section-Safe size = search (steps, bracketed-Safe, linking_loop-Safe)

  read_name_section-Safe : (size : ℕ) → Safe n 0 (read_name_section (suc n) size)
  unfolding read_name_section
  read_name_section-Safe size = search (bracketed-Safe, name_loop-Safe)

  read_exception-Safe : (i : ℕ) → Safe n 0 (read_exception i)
  unfolding read_exception
  read_exception-Safe i = search reads

  read_exception_section-Safe : (size : ℕ) → Safe n 0 (read_exception_section size)
  unfolding read_exception_section
  read_exception_section-Safe size = search (reads, bracketed-Safe, read_exception-Safe) depth 16

  set_did_read_names-Safe : Safe n 0 set_did_read_names
  unfolding set_did_read_names
  set_did_read_names-Safe = record {
    run = λ r h w. (tt, Keeps-unseen r _ w refl refl refl refl refl, omega arith);
    told = λ r. (refl, omega arith);
  }

  custom_contents-Safe : (size : ℕ) (name : Text) → Safe n 0 (custom_contents (suc n) size name)
  unfolding custom_contents
  custom_contents-Safe size name =
      search
        (
          steps, read_name_section-Safe, set_did_read_names-Safe, read_reloc_section-Safe,
          read_linking_section-Safe, read_exception_section-Safe, skip_to_end-Safe,
        )
        depth 16

  pub read_custom_section-Safe : (size : ℕ) → Safe n 0 (read_custom_section (suc n) size)
  unfolding read_custom_section
  read_custom_section-Safe size = search (reads, with_custom_section-Safe, custom_contents-Safe)

-- ===== src/BinaryReader/Subsections.antt =====
-- What the custom sections share (src/binary-reader.cc).
use wasm_sandboxing.Base.{ℕ, ◌+◌, Bool, leb, ◌==◌}
use wasm_sandboxing.BinaryReader.State.{
  ◌>>=◌, ◌>>◌, M, ok, error_unless, callback, with_read_end, Part, begin_part, end_part,
}

-- `state_.offset = read_end_`, with which an unknown part is skipped.
unfoldable pub skip_to_end : M (Unit {0})
skip_to_end r = (ok tt, record r { offset = r.read_end })

abbrev pub at_end : M Bool
at_end r = (ok (r.offset == r.read_end), r)

-- A subsection of the given size, up to its end.
unfoldable pub subsection : ℕ → M (Unit {0}) → M (Unit {0})
unfolding error_unless with_read_end
subsection size m r =
    let subsection_end = r.offset + size in
    (do
      error_unless (leb subsection_end r.read_end)
      with_read_end subsection_end (do m; finished ← at_end; error_unless finished))
      r

-- The callbacks at both ends of a section.
unfoldable pub bracketed : Part → ℕ → M (Unit {0}) → M (Unit {0})
unfolding callback
bracketed part section_size m = do
  callback (begin_part part section_size)
  m
  callback (end_part part)

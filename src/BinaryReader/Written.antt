-- ===== src/BinaryReader/Written.antt =====
-- What the writers of LEB128 have written is read by `BinaryReader` (src/binary-reader.cc).
use wasm_sandboxing.Base.{
  ℕ, zero, suc, ◌+◌, ◌-◌, ◌^◌, ◌≤◌, ◌<◌, ◌≡◌, ◌∙◌, refl, sym, ap, subst, true, some, List, [], ◌∷◌,
  ◌++◌, length, take, drop, drop-append, drop-drop, ltb, leb, arith,
}
use wasm_sandboxing.Leb128.{write_u32_leb128, read_u32_leb128, read_ok}
use wasm_sandboxing.Leb128.RoundTrip.{encoding, read-write_u32_leb128, write_u32_leb128-encoding}
use wasm_sandboxing.Utf8.{is_valid_utf8}
use wasm_sandboxing.BinaryReader.State.{Reader, ok, error_unless}
use wasm_sandboxing.BinaryReader.Read.{window, read_leb, read_u32_leb, read_span, read_str}

take-append_ge :
    (n : ℕ) (xs ys : List ℕ) → length xs ≤ n → take n (xs ++ ys) ≡ xs ++ take (n - length xs) ys
take-append_ge n [] ys h = ap (λ i. take i ys) (omega arith)
take-append_ge zero (x ∷ xs) ys h = absurd (omega (arith, h))
take-append_ge (suc n) (x ∷ xs) ys h =
    ap (λ zs. x ∷ zs) (take-append_ge n xs ys (omega (arith, h)))
    ∙ ap (λ i. x ∷ (xs ++ take i ys)) (omega arith)

take-append : (xs ys : List ℕ) → take (length xs) (xs ++ ys) ≡ xs
take-append [] ys = refl
take-append (x ∷ xs) ys = ap (λ zs. x ∷ zs) (take-append xs ys)

length-encoding : (n v : ℕ) → 0 < length (encoding n v)
unfolding encoding
length-encoding zero v = omega arith
length-encoding (suc n) v = ground arith

read_u32_leb-encoding :
    (r : Reader) (v : ℕ) (rest : List ℕ)
    → v < 2 ^ 32
    → window r ≡ encoding 4 v ++ rest
    → read_u32_leb r ≡ (ok v, record r { offset = r.offset + length (encoding 4 v) })
unfolding read_u32_leb read_leb
read_u32_leb-encoding r v rest h e =
    let (bytes, w, l, f) = read-write_u32_leb128 v rest h in
    let writes = write_u32_leb128-encoding v h in
    let same : bytes ≡ encoding 4 v = cc in
    let read_ : read_u32_leb128 (window r) ≡ read_ok (length (encoding 4 v)) v =
      ap read_u32_leb128 e
      ∙ subst (λ b. read_u32_leb128 (b ++ rest) ≡ read_ok (length b) v) same f in
    let some_ : ltb 0 (length (encoding 4 v)) ≡ true = ground (arith, length-encoding 4 v) in
    rw (read_, some_) refl

read_span-append :
    (r : Reader) (xs rest : List ℕ)
    → drop r.offset r.bytes ≡ xs ++ rest
    → r.offset + length xs ≤ r.read_end
    → read_span (length xs) r ≡ (ok xs, record r { offset = r.offset + length xs })
unfolding read_span
read_span-append r xs rest e h =
    let fits : leb (r.offset + length xs) r.read_end ≡ true = ground arith in
    rw (fits, e, take-append xs rest) refl

read_str-encoding :
    (r : Reader) (str rest : List ℕ)
    → length str < 2 ^ 32
    → is_valid_utf8 str ≡ some true
    → drop r.offset r.bytes ≡ encoding 4 (length str) ++ (str ++ rest)
    → r.offset + length (encoding 4 (length str)) + length str ≤ r.read_end
    → read_str r
      ≡ (ok str, record r { offset = r.offset + length (encoding 4 (length str)) + length str })
unfolding read_str error_unless
read_str-encoding r str rest h valid e fits =
    let k = length (encoding 4 (length str)) in
    let window_ : window r
        ≡ encoding 4 (length str) ++ take (r.read_end - r.offset - k) (str ++ rest) =
      ap (take (r.read_end - r.offset)) e
      ∙ take-append_ge (r.read_end - r.offset) (encoding 4 (length str)) (str ++ rest)
          (omega (arith, fits)) in
    let after : drop (r.offset + k) r.bytes ≡ str ++ rest =
      sym (drop-drop k r.offset (r.offset + k) r.bytes refl)
      ∙ ap (drop k) e
      ∙ drop-append (encoding 4 (length str)) (str ++ rest) in
    rw
      (
        read_u32_leb-encoding r (length str) (take (r.read_end - r.offset - k) (str ++ rest)) h
            window_,
        read_span-append (record r { offset = r.offset + k }) str rest after fits,
        valid,
      )
      refl

-- Where the bytes from the offset on are what `WriteU32Leb128` writes for the length of a valid
-- UTF-8 text, and the text, and both lie within the section, `ReadStr` returns the text and moves
-- the offset behind it, with nothing else changed.
pub read_str-written :
    (r : Reader) (written str rest : List ℕ)
    → length str < 2 ^ 32
    → write_u32_leb128 (length str) ≡ some written
    → is_valid_utf8 str ≡ some true
    → drop r.offset r.bytes ≡ written ++ (str ++ rest)
    → r.offset + length written + length str ≤ r.read_end
    → read_str r ≡ (ok str, record r { offset = r.offset + length written + length str })
read_str-written r written str rest h w valid e fits =
    let writes = write_u32_leb128-encoding (length str) h in
    let same : encoding 4 (length str) ≡ written = cc in
    subst
      (λ b.
        drop r.offset r.bytes ≡ b ++ (str ++ rest)
        → r.offset + length b + length str ≤ r.read_end
        → read_str r ≡ (ok str, record r { offset = r.offset + length b + length str }))
      same (read_str-encoding r str rest h valid) e fits

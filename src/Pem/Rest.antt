-- ===== src/Pem/Rest.antt =====
-- What `parse_x509_pem` leaves, and the iterator as repeated calls of it.
use x509_parser.Error.{missing_header}
use x509_parser.Pem.{Pem, Reader, begin_loop, cursor, parse_x509_pem, pem_read, read_body}
use x509_parser.Pem.Position.{cursor-At, pem_read-At, pem_read_count}
use x509_parser.Pem.Progress.{pem_read_takes}
use x509_parser.Prelude.{
  Bytes, List-cases, Option, Text, [], ap, arith, concat, drop, drop-length-append, inl, inr,
  length, refl, split_lines, subst, sym, ℕ, ◌++◌, ◌+◌, ◌<◌, ◌∙◌, ◌≡◌, ◌≢◌,
}
use x509_parser.Result.{Result-cases, Slice, err, ok, ok_inj}

-- `rem` is what a non-empty front of `i` leaves.
abbrev pub Rest : Slice → Slice → Type 0
Rest i rem =
    (front : Bytes) × (front ≢ [])
    × (front ++ rem.bytes ≡ i.bytes)
    × (rem.start ≡ i.start + length front)

-- The slice that starts a number of bytes later.
abbrev pub later : Slice → ℕ → Slice
later i n = record { start = i.start + n; bytes = drop n i.bytes }

module _ (base64_decode : Text → Option Bytes) where
  -- The reader after a read of a buffer.
  abbrev pub reader_after : Bytes → Reader
  reader_after i = (pem_read base64_decode (cursor i)).1

  pem_read_empty : (r : Reader) → r.lines ≡ [] → (pem_read base64_decode r).0 ≡ err missing_header
  unfolding pem_read begin_loop read_body
  pem_read_empty r h = rw (h) refl

  pub fewer_lines :
      (i : Bytes) (pem : Pem) (n : ℕ)
      → (pem_read base64_decode (cursor i)).0 ≡ ok (pem, n)
      → length (reader_after i).lines < length (split_lines i)
  unfolding cursor
  fewer_lines i pem n h = elim (List-cases (split_lines i)) [
    | inl k ↦ ground (arith, pem_read_empty (cursor i) k)
    | inr (l, ls, k) ↦ pem_read_takes base64_decode (cursor i) (rw (k) refl)
  ]

  -- The bytes after the position that a read returns are those that the reader has not read.
  pub parsed_rest :
      (i : Bytes) (pem : Pem) (n : ℕ)
      → (pem_read base64_decode (cursor i)).0 ≡ ok (pem, n)
      → (front : Bytes) × (front ++ drop n i ≡ i)
        × (length front ≡ n)
        × (split_lines (drop n i) ≡ (reader_after i).lines)
  parsed_rest i pem n h =
      let a = pem_read-At base64_decode i (cursor i) (cursor-At i) in
      let rest = concat (reader_after i).lines in
      let e : length a.front ≡ n =
        a.count ∙ sym (pem_read_count base64_decode (cursor i) pem n h) in
      let d : drop n i ≡ rest =
        ap (drop n) (sym a.halves)
        ∙ subst (λ m. drop m (a.front ++ rest) ≡ rest) e (drop-length-append a.front rest) in
      (a.front, ap (λ x. a.front ++ x) d ∙ a.halves, e, ap split_lines d ∙ a.whole_lines)

  pub parse_x509_pem-ok :
      (i : Slice) (pem : Pem) (n : ℕ)
      → (pem_read base64_decode (cursor i.bytes)).0 ≡ ok (pem, n)
      → parse_x509_pem base64_decode i ≡ ok (later i n, pem)
  unfolding parse_x509_pem
  parse_x509_pem-ok i pem n h = rw (h, parse_x509_pem) refl

  rest_shorter :
      (i : Bytes) (pem : Pem) (n : ℕ)
      → (pem_read base64_decode (cursor i)).0 ≡ ok (pem, n)
      → drop n i ≢ i
  rest_shorter i pem n h same = omega (
    arith,
    fewer_lines i pem n h,
    ap length (sym (parsed_rest i pem n h).3),
    ap (λ x. length (split_lines x)) same,
  )

  -- A block that is parsed takes a non-empty front of the slice, and the slice that is returned is
  -- what follows.
  pub parse_x509_pem-Rest :
      (i rem : Slice) (pem : Pem) → parse_x509_pem base64_decode i ≡ ok (rem, pem) → Rest i rem
  unfolding parse_x509_pem
  parse_x509_pem-Rest i rem pem h =
      elim (Result-cases (pem_read base64_decode (cursor i.bytes)).0) [
        | inl (e, k) ↦ ground arith
        | inr ((pem', n), k) ↦
            let (front, halves, count, lines) = parsed_rest i.bytes pem' n k in
            let q =
              ok_inj (parse_x509_pem base64_decode i) (later i n, pem') (rem, pem)
                (parse_x509_pem-ok i pem' n k) h in
            subst (Rest i) (ap (λ p. p.0) q) (
              front,
              (λ empty.
                  rest_shorter i.bytes pem' n k
                    (ap (λ x. x ++ drop n i.bytes) (sym empty) ∙ halves)),
              halves,
              ap (λ m. i.start + m) (sym count),
            )
      ]

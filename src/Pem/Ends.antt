-- ===== src/Pem/Ends.antt =====
-- When the iterator ends: where no block starts in what is left.
use x509_parser.Error.{
  PemError, base64_decode_error, incomplete_pem, invalid_header, io_error, missing_header,
}
use x509_parser.Pem.{
  Pem, Read, Reader, begin_loop, begin_mark, body_loop, dashes, decoded, header_label, item_of,
  iterator_next, label_of, line_text, pem_read, read_body,
}
use x509_parser.Prelude.{
  All, Bool-cases, Bytes, List, Option, Text, [], ap, append_nonempty, arith, false, inl, inr,
  is_empty, length, none, refl, some, split, str_starts_with, trim_end, true, ℕ, ◌++◌, ◌+◌, ◌↔◌,
  ◌∷◌, ◌≡◌, ◌≢◌,
}
use x509_parser.Result.{Result, Result-cases, err, ok}
use x509_parser.Utf8.{from_utf8}

-- A line that is passed over: text that does not start a block.
abbrev pub Ignored : Bytes → Type 0
Ignored l = (line : Text) × (line_text l ≡ ok line) × (str_starts_with begin_mark line ≡ false)

label_of_other : (pieces : List Text) → label_of pieces ≢ err missing_header
unfolding label_of
label_of_other [] h = ground arith
label_of_other (a ∷ []) h = ground arith
label_of_other (a ∷ b ∷ []) h = ground arith
label_of_other (a ∷ b ∷ c ∷ more) h = ground arith

line_text_other : (l : Bytes) → line_text l ≢ err missing_header
unfolding line_text
line_text_other l h = ground arith

begin_loop_missing :
    (p : ℕ) (ls : List Bytes) (r : Reader)
    → begin_loop p ls ≡ (err missing_header, r)
    → All Ignored ls × (r.lines ≡ [])
unfolding begin_loop header_label
begin_loop_missing p [] r h = (tt, ground arith)
begin_loop_missing p (l ∷ ls) r h = elim (Result-cases (line_text l)) [
  | inl (e, k) ↦ ground (arith, line_text_other l)
  | inr (line, k) ↦ elim (Bool-cases (str_starts_with begin_mark line)) [
    | inl m ↦ ground (arith, label_of_other (split line dashes))
    | inr m ↦
        let (rest, done) = begin_loop_missing (p + length l) ls r (rw (k, m, begin_loop) at h) in
        (((line, k, m), rest), done)
  ]
]

begin_loop-Ignored :
    (p : ℕ) (ls : List Bytes) → All Ignored ls → (begin_loop p ls).0 ≡ err missing_header
unfolding begin_loop
begin_loop-Ignored p [] a = refl
begin_loop-Ignored p (l ∷ ls) ((line, k, m), rest) =
    rw (k, m, begin_loop) (begin_loop-Ignored (p + length l) ls rest)

body_loop_other : (s : Text) (p : ℕ) (ls : List Bytes) → (body_loop s p ls).0 ≢ err missing_header
unfolding body_loop
body_loop_other s p [] h = cc
body_loop_other s p (l ∷ ls) h = elim (Result-cases (line_text l)) [
  | inl (e, k) ↦ ground (arith, line_text_other l)
  | inr (line, k) ↦ ground (arith, body_loop_other (s ++ trim_end line) (p + length l) ls)
]

module _ (base64_decode : Text → Option Bytes) where
  decoded_other : (label s : Text) → decoded base64_decode label s ≢ err missing_header
  unfolding decoded
  decoded_other label s h = ground arith

  read_body_missing :
      (x : Read Text)
      → (read_body base64_decode x).0 ≡ err missing_header
      → (x.0 ≡ err missing_header) × ((read_body base64_decode x).1 ≡ x.1)
  unfolding read_body
  read_body_missing (err e, r) h = ground arith
  read_body_missing (ok label, r) h = elim (Result-cases (body_loop [] r.position r.lines).0) [
    | inl (e, k) ↦ ground (arith, body_loop_other [] r.position r.lines)
    | inr (s, k) ↦ ground (arith, decoded_other label s)
  ]

  item_of-none :
      (x : Result PemError (Pem × ℕ)) → item_of base64_decode x ≡ none → x ≡ err missing_header
  unfolding item_of
  item_of-none (ok v) h = ground arith
  item_of-none (err missing_header) h = refl
  item_of-none (err io_error) h = cc
  item_of-none (err base64_decode_error) h = cc
  item_of-none (err incomplete_pem) h = cc
  item_of-none (err invalid_header) h = cc

  no_lines : (r : Reader) → is_empty r.lines ≡ true → r.lines ≡ []
  no_lines r h = ground arith

  read_body_ignored :
      (x : Read Text)
      → x.0 ≡ err missing_header
      → item_of base64_decode (read_body base64_decode x).0 ≡ none
  unfolding read_body item_of
  read_body_ignored (err e, r) h = ground arith
  read_body_ignored (ok label, r) h = cc

  iterator_next_done : (r : Reader) → r.lines ≡ [] → iterator_next base64_decode r ≡ (none, r)
  unfolding iterator_next
  iterator_next_done r h = rw (h) refl

  next_none :
      (r : Reader)
      → (iterator_next base64_decode r).0 ≡ none
      → All Ignored r.lines × ((iterator_next base64_decode r).1.lines ≡ [])
  unfolding iterator_next pem_read
  next_none r h = elim (Bool-cases (is_empty r.lines)) [
    | inl k ↦ rw (k, no_lines r k) (tt, refl)
    | inr k ↦
        let m = item_of-none (pem_read base64_decode r).0 (rw (k) at h) in
        let (b, e) = read_body_missing (begin_loop r.position r.lines) m in
        let after_loop = (begin_loop r.position r.lines).1 in
        rw (k, e) (begin_loop_missing r.position r.lines after_loop (ap (λ x. (x, after_loop)) b))
  ]

  -- The iterator returns `None` exactly if every line left is UTF-8 and starts no block.
  pub iterator_next-none :
      (r : Reader) → ((iterator_next base64_decode r).0 ≡ none) ↔ All Ignored r.lines
  unfolding iterator_next pem_read
  iterator_next-none r = (
    (λ h. (next_none r h).0),
    λ a. elim (Bool-cases (is_empty r.lines)) [
      | inl k ↦ rw (k) refl
      | inr k ↦
          rw
            (
              k,
              read_body_ignored (begin_loop r.position r.lines)
                  (begin_loop-Ignored r.position r.lines a),
            )
            refl
    ],
  )

  -- Once the iterator has returned `None`, it returns `None` for ever, from the same reader.
  pub iterator_next-fused :
      (r : Reader)
      → (iterator_next base64_decode r).0 ≡ none
      → iterator_next base64_decode (iterator_next base64_decode r).1
        ≡ (none, (iterator_next base64_decode r).1)
  iterator_next-fused r h = iterator_next_done (iterator_next base64_decode r).1 (next_none r h).1

  begin_loop-invalid :
      (p : ℕ) (skipped : List Bytes) (l : Bytes) (rest : List Bytes)
      → All Ignored skipped
      → from_utf8 l ≡ none
      → (q : ℕ) × (begin_loop p (skipped ++ l ∷ rest)
          ≡ (err io_error, record { position = q; lines = rest }))
  unfolding begin_loop line_text
  begin_loop-invalid p [] l rest a h = (p + length l, rw (h, begin_loop) refl)
  begin_loop-invalid p (s ∷ skipped) l rest ((line, k, m), a) h =
      let (q, e) = begin_loop-invalid (p + length s) skipped l rest a h in
      (q, rw (k, m, begin_loop) e)

  -- After lines that are UTF-8 and start no block, a line that is not UTF-8 is returned as an I/O
  -- error, although it is outside every block, and the iterator goes on after it.
  pub iterator_next-invalid :
      (p : ℕ) (skipped : List Bytes) (l : Bytes) (rest : List Bytes)
      → All Ignored skipped
      → from_utf8 l ≡ none
      → (q : ℕ) × (iterator_next base64_decode
            (record { position = p; lines = skipped ++ l ∷ rest })
          ≡ (some (err io_error), record { position = q; lines = rest }))
  unfolding iterator_next pem_read read_body item_of
  iterator_next-invalid p skipped l rest a h =
      let (q, e) = begin_loop-invalid p skipped l rest a h in
      (q, rw (append_nonempty skipped l rest, e, iterator_next) refl)

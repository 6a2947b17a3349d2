-- ===== src/Pem/Position.antt =====
-- The position of a reader over a buffer, and the rest of the buffer that a read leaves.
use x509_parser.Pem.{
  Pem, Read, Reader, begin_loop, begin_mark, body_loop, cursor, decoded, end_mark, iterator_next,
  line_text, pem_read, read_body,
}
use x509_parser.Pem.Lines.{Split, Split-tail, concat-split_lines, split_lines-Split}
use x509_parser.Prelude.{
  Bool-cases, Bytes, List, Option, Text, [], ap, append_assoc, arith, concat, inl, inr, is_empty,
  length, length-append, refl, str_starts_with, trim_end, ℕ, ◌++◌, ◌+◌, ◌∙◌, ◌∷◌, ◌≡◌,
}
use x509_parser.Result.{Result-cases, err, ok}

-- A reader that has read the first part of a buffer, and stands at the start of a line.
pub record At (buffer : Bytes) (r : Reader) : Type 0 where
  pub front : Bytes
  pub halves : front ++ concat r.lines ≡ buffer
  pub count : length front ≡ r.position
  pub whole_lines : Split r.lines

pub cursor-At : (i : Bytes) → At i (cursor i)
unfolding cursor
cursor-At i = record {
  front = [];
  halves = concat-split_lines i;
  count = refl;
  whole_lines = split_lines-Split i;
}

abbrev reader : ℕ → List Bytes → Reader
reader position lines = record { position = position; lines = lines }

module _ (buffer : Bytes) where
  At-line :
      (p : ℕ) (l : Bytes) (ls : List Bytes)
      → At buffer (reader p (l ∷ ls))
      → At buffer (reader (p + length l) ls)
  At-line p l ls a = record {
    front = a.front ++ l;
    halves = append_assoc a.front l (concat ls) ∙ a.halves;
    count = length-append a.front l ∙ ap (λ n. n + length l) a.count;
    whole_lines = Split-tail l ls a.whole_lines;
  }

  begin_loop-At :
      (p : ℕ) (ls : List Bytes) → At buffer (reader p ls) → At buffer (begin_loop p ls).1
  unfolding begin_loop
  begin_loop-At p [] a = a
  begin_loop-At p (l ∷ ls) a =
      let b = At-line p l ls a in
      elim (Result-cases (line_text l)) [
        | inl (e, h) ↦ rw (h, begin_loop) b
        | inr (line, h) ↦ elim (Bool-cases (str_starts_with begin_mark line)) [
          | inl k ↦ rw (h, k, begin_loop) b
          | inr k ↦ rw (h, k, begin_loop) (begin_loop-At (p + length l) ls b)
        ]
      ]

  body_loop-At :
      (s : Text) (p : ℕ) (ls : List Bytes)
      → At buffer (reader p ls)
      → At buffer (body_loop s p ls).1
  unfolding body_loop
  body_loop-At s p [] a = a
  body_loop-At s p (l ∷ ls) a =
      let b = At-line p l ls a in
      elim (Result-cases (line_text l)) [
        | inl (e, h) ↦ rw (h, body_loop) b
        | inr (line, h) ↦ elim (Bool-cases (str_starts_with end_mark line)) [
          | inl k ↦ rw (h, k, body_loop) b
          | inr k ↦ rw (h, k, body_loop) (body_loop-At (s ++ trim_end line) (p + length l) ls b)
        ]
      ]

module _ (base64_decode : Text → Option Bytes) where
  read_body-At :
      (buffer : Bytes) (x : Read Text) → At buffer x.1 → At buffer (read_body base64_decode x).1
  unfolding read_body
  read_body-At buffer (err e, r) a = a
  read_body-At buffer (ok label, r) a = body_loop-At buffer [] r.position r.lines a

  pub pem_read-At :
      (buffer : Bytes) (r : Reader) → At buffer r → At buffer (pem_read base64_decode r).1
  unfolding pem_read
  pem_read-At buffer r a =
      read_body-At buffer (begin_loop r.position r.lines)
        (begin_loop-At buffer r.position r.lines a)

  -- A reader stays at the start of a line of its buffer, at the position that it reports, after
  -- the iterator's `next`.
  pub iterator_next-At :
      (buffer : Bytes) (r : Reader) → At buffer r → At buffer (iterator_next base64_decode r).1
  unfolding iterator_next
  iterator_next-At buffer r a = elim (Bool-cases (is_empty r.lines)) [
    | inl h ↦ rw (h) a
    | inr h ↦ rw (h) (pem_read-At buffer r a)
  ]

  read_body_count :
      (x : Read Text) (pem : Pem) (n : ℕ)
      → (read_body base64_decode x).0 ≡ ok (pem, n)
      → n ≡ (read_body base64_decode x).1.position
  unfolding read_body decoded
  read_body_count (err e, r) pem n h = cc
  read_body_count (ok label, r) pem n h = ground arith

  -- The number of bytes that a read returns is the position of the reader after it.
  pub pem_read_count :
      (r : Reader) (pem : Pem) (n : ℕ)
      → (pem_read base64_decode r).0 ≡ ok (pem, n)
      → n ≡ (pem_read base64_decode r).1.position
  unfolding pem_read
  pem_read_count r = read_body_count (begin_loop r.position r.lines)

-- ===== src/Pem/Repeated.antt =====
-- The iterator over a buffer against repeated calls of `parse_x509_pem`.
use x509_parser.Error.{
  PemError, base64_decode_error, incomplete_pem, invalid_header, io_error, missing_header,
}
use x509_parser.Pem.{
  Pem, Read, Reader, begin_loop, body_loop, cursor, decoded, item_of, iter_from_buffer,
  iterator_next, line_text, parse_x509_pem, pem_read, read_body,
}
use x509_parser.Pem.Rest.{fewer_lines, later, parse_x509_pem-ok, parsed_rest, reader_after}
use x509_parser.Prelude.{
  Bool-cases, Bytes, List, List-cases, Option, Option-cases, Text, [], ap, ap₂, arith, drop, false,
  inl, inr, is_empty, length, none, refl, some, split_lines, subst, suc, sym, trim_end, zero, ℕ,
  ◌++◌, ◌+◌, ◌∙◌, ◌∷◌, ◌≡◌,
}
use x509_parser.Result.{Result, Result-cases, Slice, err, error, map_ok, ok, ◌>>=◌}

begin_loop_lines :
    (p q : ℕ) (ls : List Bytes)
    → ((begin_loop p ls).0 ≡ (begin_loop q ls).0)
      × ((begin_loop p ls).1.lines ≡ (begin_loop q ls).1.lines)
unfolding begin_loop
begin_loop_lines p q [] = (refl, refl)
begin_loop_lines p q (l ∷ ls) = ground (arith, begin_loop_lines (p + length l) (q + length l) ls)

body_loop_lines :
    (s : Text) (p q : ℕ) (ls : List Bytes)
    → ((body_loop s p ls).0 ≡ (body_loop s q ls).0)
      × ((body_loop s p ls).1.lines ≡ (body_loop s q ls).1.lines)
unfolding body_loop
body_loop_lines s p q [] = (refl, refl)
body_loop_lines s p q (l ∷ ls) = elim (Result-cases (line_text l)) [
  | inl (e, h) ↦ rw (h, body_loop) (refl, refl)
  | inr (line, h) ↦
      ground (arith, body_loop_lines (s ++ trim_end line) (p + length l) (q + length l) ls)
]

module _ (base64_decode : Text → Option Bytes) where
  abbrev body_value : Result PemError Text → Text → ℕ → Result PemError (Pem × ℕ)
  body_value b label n = b >>= λ s. map_ok (λ pem. (pem, n)) (decoded base64_decode label s)

  item_of-body_value :
      (b : Result PemError Text) (label : Text) (m n : ℕ)
      → item_of base64_decode (body_value b label m) ≡ item_of base64_decode (body_value b label n)
  unfolding decoded item_of
  item_of-body_value (err e) label m n = refl
  item_of-body_value (ok s) label m n = elim (Option-cases (base64_decode s)) [
    | inl h ↦ rw (h) refl
    | inr (c, h) ↦ rw (h) refl
  ]

  abbrev SameNext : Read Text → Read Text → Type 0
  SameNext x y =
      (item_of base64_decode (read_body base64_decode x).0
        ≡ item_of base64_decode (read_body base64_decode y).0)
      × ((read_body base64_decode x).1.lines ≡ (read_body base64_decode y).1.lines)

  abbrev reader : ℕ → List Bytes → Reader
  reader p ls = record { position = p; lines = ls }

  read_body_lines :
      (v : Result PemError Text) (p q : ℕ) (ls : List Bytes)
      → SameNext (v, reader p ls) (v, reader q ls)
  unfolding read_body
  read_body_lines (err e) p q ls = (refl, refl)
  read_body_lines (ok label) p q ls =
      let (same, lines) = body_loop_lines [] p q ls in
      let m = (body_loop [] p ls).1.position in
      let n = (body_loop [] q ls).1.position in
      (
        item_of-body_value (body_loop [] p ls).0 label m n
            ∙ ap (λ b. item_of base64_decode (body_value b label n)) same,
        lines,
      )

  same_next : (x y : Read Text) → x.0 ≡ y.0 → x.1.lines ≡ y.1.lines → SameNext x y
  same_next x y h k =
      let both : (x.0, x.1.lines) ≡ (y.0, y.1.lines) = ap₂ (λ a b. (a, b)) h k in
      subst (λ (z : Result PemError Text × List Bytes). SameNext x (z.0, reader y.1.position z.1))
        both (read_body_lines x.0 x.1.position y.1.position x.1.lines)

  -- The next item, and the lines left after it, do not depend on the position of the reader.
  pub iterator_next_lines :
      (p q : ℕ) (ls : List Bytes)
      → ((iterator_next base64_decode (reader p ls)).0
          ≡ (iterator_next base64_decode (reader q ls)).0)
        × ((iterator_next base64_decode (reader p ls)).1.lines
            ≡ (iterator_next base64_decode (reader q ls)).1.lines)
  unfolding iterator_next pem_read
  iterator_next_lines p q [] = (refl, refl)
  iterator_next_lines p q (l ∷ ls) =
      let (a, b) = begin_loop_lines p q (l ∷ ls) in
      same_next (begin_loop p (l ∷ ls)) (begin_loop q (l ∷ ls)) a b

  -- Calls of `parse_x509_pem`, each on what the one before it left, until one fails.
  abbrev pub parse_all : ℕ → Slice → List Pem
  parse_all zero i = []
  parse_all (suc n) i = elim (parse_x509_pem base64_decode i) [
    | ok (rem, pem) ↦ pem ∷ parse_all n rem
    | err e ↦ []
  ]

  abbrev pub before_error : Option (Result PemError Pem) → List Pem → List Pem
  before_error (some (ok pem)) rest = pem ∷ rest
  before_error (some (err e)) rest = []
  before_error none rest = []

  -- The items of the iterator until one is an error.
  abbrev pub until_error : ℕ → Reader → List Pem
  until_error zero r = []
  until_error (suc n) r =
      before_error (iterator_next base64_decode r).0
        (until_error n (iterator_next base64_decode r).1)

  until_error_lines :
      (n p q : ℕ) (ls : List Bytes) → until_error n (reader p ls) ≡ until_error n (reader q ls)
  until_error_lines zero p q ls = refl
  until_error_lines (suc n) p q ls =
      let (a, b) = iterator_next_lines p q ls in
      let r = (iterator_next base64_decode (reader p ls)).1 in
      let r' = (iterator_next base64_decode (reader q ls)).1 in
      ap₂ before_error a (
        until_error_lines n r.position r'.position r.lines
        ∙ ap (λ ms. until_error n (reader r'.position ms)) b)

  before_error-item_of :
      (e : PemError) (rest : List Pem) → before_error (item_of base64_decode (err e)) rest ≡ []
  unfolding item_of
  before_error-item_of base64_decode_error rest = refl
  before_error-item_of incomplete_pem rest = refl
  before_error-item_of invalid_header rest = refl
  before_error-item_of missing_header rest = refl
  before_error-item_of io_error rest = refl

  next_error :
      (r : Reader) (e : PemError) (rest : List Pem)
      → (pem_read base64_decode r).0 ≡ err e
      → before_error (iterator_next base64_decode r).0 rest ≡ []
  unfolding iterator_next
  next_error r e rest h = elim (Bool-cases (is_empty r.lines)) [
    | inl k ↦ rw (k) refl
    | inr k ↦ rw (k, h) (before_error-item_of e rest)
  ]

  cursor_lines :
      (n : ℕ) (i : Bytes) → until_error n (cursor i) ≡ until_error n (reader 0 (split_lines i))
  unfolding cursor
  cursor_lines n i = refl

  has_line :
      (i : Bytes) (pem : Pem) (n : ℕ)
      → (pem_read base64_decode (cursor i)).0 ≡ ok (pem, n)
      → is_empty (cursor i).lines ≡ false
  unfolding cursor
  has_line i pem n h = elim (List-cases (split_lines i)) [
    | inl k ↦ ground (arith, fewer_lines base64_decode i pem n h)
    | inr (l, ls, k) ↦ rw (k) refl
  ]

  next_block :
      (i : Bytes) (pem : Pem) (n : ℕ)
      → (pem_read base64_decode (cursor i)).0 ≡ ok (pem, n)
      → iterator_next base64_decode (cursor i) ≡ (some (ok pem), reader_after base64_decode i)
  unfolding iterator_next item_of
  next_block i pem n h = rw (has_line i pem n h, h, iterator_next) refl

  parse_x509_pem-err :
      (i : Slice) (e : PemError)
      → (pem_read base64_decode (cursor i.bytes)).0 ≡ err e
      → parse_x509_pem base64_decode i ≡ err (error e)
  unfolding parse_x509_pem
  parse_x509_pem-err i e h = rw (h, parse_x509_pem) refl

  -- The blocks that repeated calls of `parse_x509_pem` return, until one fails, are the items of
  -- the iterator over the buffer, until one is an error.
  pub parse_all-until_error :
      (n : ℕ) (i : Slice) → parse_all n i ≡ until_error n (iter_from_buffer i.bytes)
  unfolding iter_from_buffer
  parse_all-until_error zero i = refl
  parse_all-until_error (suc n) i =
      elim (Result-cases (pem_read base64_decode (cursor i.bytes)).0) [
        | inl (e, h) ↦
            let r = (iterator_next base64_decode (cursor i.bytes)).1 in
            let first : parse_all (suc n) i ≡ [] = rw (parse_x509_pem-err i e h, parse_all) refl in
            first ∙ sym (next_error (cursor i.bytes) e (until_error n r) h)
        | inr ((pem, k), h) ↦
            let lines = (parsed_rest base64_decode i.bytes pem k h).3 in
            let r = reader_after base64_decode i.bytes in
            let first : parse_all (suc n) i ≡ pem ∷ parse_all n (later i k) =
              rw (parse_x509_pem-ok base64_decode i pem k h, parse_all) refl in
            first
            ∙ ap (λ xs. pem ∷ xs)
                (parse_all-until_error n (later i k)
                  ∙ cursor_lines n (drop k i.bytes)
                  ∙ ap (λ ms. until_error n (reader 0 ms)) lines
                  ∙ until_error_lines n 0 r.position r.lines)
            ∙ ap
                (λ (x : Option (Result PemError Pem) × Reader).
                  before_error x.0 (until_error n x.1))
                (sym (next_block i.bytes pem k h))
      ]

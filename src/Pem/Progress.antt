-- ===== src/Pem/Progress.antt =====
-- The iterator's progress: each item takes lines off the reader, so that it comes to an end.
use x509_parser.Error.{PemError}
use x509_parser.Pem.{
  Pem, Read, Reader, begin_loop, body_loop, iterator_next, line_text, pem_read, read_body,
}
use x509_parser.Prelude.{
  Bool-cases, Bytes, List, Option, Option-cases, Text, [], arith, false, inl, inr, is_empty, length,
  none, refl, some, suc, trim_end, zero, ℕ, ◌++◌, ◌+◌, ◌<◌, ◌∷◌, ◌≡◌, ◌≤◌,
}
use x509_parser.Result.{Result, Result-cases, err, ok}

abbrev pub unread : Reader → ℕ
unread r = length r.lines

begin_loop_shrinks : (p : ℕ) (ls : List Bytes) → unread (begin_loop p ls).1 ≤ length ls
unfolding begin_loop
begin_loop_shrinks p [] = omega arith
begin_loop_shrinks p (l ∷ ls) = ground (arith, begin_loop_shrinks (p + length l) ls)

body_loop_shrinks : (s : Text) (p : ℕ) (ls : List Bytes) → unread (body_loop s p ls).1 ≤ length ls
unfolding body_loop
body_loop_shrinks s p [] = omega arith
body_loop_shrinks s p (l ∷ ls) = elim (Result-cases (line_text l)) [
  | inl (e, h) ↦ rw (h, body_loop) omega arith
  | inr (line, h) ↦ ground (arith, body_loop_shrinks (s ++ trim_end line) (p + length l) ls)
]

begin_loop_takes :
    (p : ℕ) (ls : List Bytes) → is_empty ls ≡ false → unread (begin_loop p ls).1 < length ls
unfolding begin_loop
begin_loop_takes p [] h = cc
begin_loop_takes p (l ∷ ls) h = ground (arith, begin_loop_shrinks (p + length l) ls)

module _ (base64_decode : Text → Option Bytes) where
  read_body_shrinks : (x : Read Text) → unread (read_body base64_decode x).1 ≤ unread x.1
  unfolding read_body
  read_body_shrinks (err e, r) = omega arith
  read_body_shrinks (ok label, r) = body_loop_shrinks [] r.position r.lines

  -- A read of a reader that has lines takes at least one of them.
  pub pem_read_takes :
      (r : Reader) → is_empty r.lines ≡ false → unread (pem_read base64_decode r).1 < unread r
  unfolding pem_read
  pem_read_takes r h = omega (
    arith,
    read_body_shrinks (begin_loop r.position r.lines),
    begin_loop_takes r.position r.lines h,
  )

  pub iterator_next_takes :
      (r : Reader) (item : Result PemError Pem)
      → (iterator_next base64_decode r).0 ≡ some item
      → unread (iterator_next base64_decode r).1 < unread r
  unfolding iterator_next
  iterator_next_takes r item h = elim (Bool-cases (is_empty r.lines)) [
    | inl k ↦ cc
    | inr k ↦ rw (k) (pem_read_takes r k)
  ]

  -- The items of the iterator, where it ends within the given number of calls.
  abbrev pub drain : ℕ → Reader → Option (List (Result PemError Pem))
  drain zero r = none
  drain (suc n) r = elim (iterator_next base64_decode r).0 [
    | none ↦ some []
    | some item ↦ elim (drain n (iterator_next base64_decode r).1) [
      | none ↦ none
      | some items ↦ some (item ∷ items)
    ]
  ]

  -- The iterator over a reader returns `None` after at most as many items as there are lines.
  pub drain_ends :
      (n : ℕ) (r : Reader)
      → unread r < n
      → (items : List (Result PemError Pem)) × (drain n r ≡ some items) × (length items ≤ unread r)
  drain_ends zero r h = ground arith
  drain_ends (suc n) r h = elim (Option-cases (iterator_next base64_decode r).0) [
    | inl k ↦ ([], rw (k, drain) refl, omega arith)
    | inr (item, k) ↦
        let less = iterator_next_takes r item k in
        let (items, e, bound) = drain_ends n (iterator_next base64_decode r).1 (omega arith) in
        (item ∷ items, rw (k, e, drain) refl, omega arith)
  ]

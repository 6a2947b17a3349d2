-- ===== src/Pem/RoundTrip.antt =====
-- PEM blocks printed and read back by the iterator.
use x509_parser.Error.{PemError}
use x509_parser.Pem.{
  Pem, Reader, decoded, item_of, iter_from_buffer, iterator_next, pem_read, read_body,
}
use x509_parser.Pem.Blocks.{
  Block, Printable, Skipped, Skipped-Ignored, begin_loop-Skipped, block_lines, body_loop-body,
  end_line, file-Plain, file_lines, header_line, print, reader,
}
use x509_parser.Pem.Ends.{iterator_next-none}
use x509_parser.Pem.Printed.{print_line, split_lines-print}
use x509_parser.Pem.Progress.{drain}
use x509_parser.Prelude.{
  All, Bytes, List, Option, Option-cases, Text, [], ap, append_assoc, append_nonempty, arith,
  concat, false, inl, inr, is_empty, length, map, map-append, none, refl, some, suc, zero, ℕ, ◌++◌,
  ◌<◌, ◌∙◌, ◌∷◌, ◌≡◌,
}
use x509_parser.Result.{Result, map_ok}

module _ (base64_decode : Text → Option Bytes) where
  -- The item of the iterator for a block.
  abbrev pub block_item : Block → Result PemError Pem
  block_item b = decoded base64_decode b.label (concat b.body)

  item_of-decoded :
      (b : Block) (n : ℕ)
      → item_of base64_decode (map_ok (λ pem. (pem, n)) (block_item b)) ≡ some (block_item b)
  unfolding decoded item_of
  item_of-decoded b n = elim (Option-cases (base64_decode (concat b.body))) [
    | inl h ↦ rw (h) refl
    | inr (c, h) ↦ rw (h) refl
  ]

  abbrev Yields : Reader → Result PemError Pem → List Bytes → Type 0
  Yields r v ls = (q : ℕ) × (iterator_next base64_decode r ≡ (some v, reader q ls))

  -- The lines of a block in front of others, as the two loops read them.
  abbrev block_bytes : Block → List Bytes → List Bytes
  block_bytes b ls =
      map print_line b.before
      ++ print_line (header_line b) ∷ (map print_line b.body ++ print_line (end_line b) ∷ ls)

  block_bytes_lem :
      (b : Block) (ls : List Bytes) → map print_line (block_lines b) ++ ls ≡ block_bytes b ls
  block_bytes_lem b ls =
      let body = map print_line b.body in
      let last = print_line (end_line b) ∷ [] in
      ap (λ x. x ++ ls)
        (map-append print_line b.before (header_line b ∷ (b.body ++ end_line b ∷ [])))
      ∙ append_assoc (map print_line b.before)
          (map print_line (header_line b ∷ (b.body ++ end_line b ∷ []))) ls
      ∙ ap (λ x. map print_line b.before ++ print_line (header_line b) ∷ x)
          (ap (λ x. x ++ ls) (map-append print_line b.body (end_line b ∷ []))
            ∙ append_assoc body last ls)

  pem_read-block :
      (b : Block) (p : ℕ) (ls : List Bytes)
      → Printable b
      → (q : ℕ) × (pem_read base64_decode (reader p (block_bytes b ls))
          ≡ (map_ok (λ pem. (pem, q)) (block_item b), reader q ls))
  unfolding pem_read read_body
  pem_read-block b p ls w =
      let text = map print_line b.body ++ print_line (end_line b) ∷ ls in
      let (m, e) = begin_loop-Skipped b.before b p text w.before_skipped w in
      let (q, f) = body_loop-body b.body b [] m ls w.body_coded w in
      (q, rw (e, f, pem_read, read_body) refl)

  block_bytes_nonempty : (b : Block) (ls : List Bytes) → is_empty (block_bytes b ls) ≡ false
  block_bytes_nonempty b ls = append_nonempty (map print_line b.before) _ _

  iterator_next-block :
      (b : Block) (p : ℕ) (ts : List Text)
      → Printable b
      → Yields (reader p (map print_line (block_lines b ++ ts))) (block_item b) (map print_line ts)
  unfolding iterator_next
  iterator_next-block b p ts w =
      let ls = map print_line ts in
      let (q, e) = pem_read-block b p ls w in
      let lines = map-append print_line (block_lines b) ts ∙ block_bytes_lem b ls in
      (
        q,
        rw (lines, block_bytes_nonempty b ls, e, iterator_next)
            (ap (λ i. (i, reader q ls)) (item_of-decoded b q)),
      )

  drain_step :
      (n : ℕ) (r r' : Reader) (v : Result PemError Pem) (items : List (Result PemError Pem))
      → iterator_next base64_decode r ≡ (some v, r')
      → drain base64_decode n r' ≡ some items
      → drain base64_decode (suc n) r ≡ some (v ∷ items)
  drain_step n r r' v items h k =
      let more : drain base64_decode n (iterator_next base64_decode r).1 ≡ some items = rw (h) k in
      rw (ap (λ x. x.0) h, more, drain) refl

  iterator_next-trailer :
      (p : ℕ) (ts : List Text)
      → All Skipped ts
      → (iterator_next base64_decode (reader p (map print_line ts))).0 ≡ none
  iterator_next-trailer p ts s =
      (iterator_next-none base64_decode (reader p (map print_line ts))).1 (Skipped-Ignored ts s)

  drain-lines :
      (n p : ℕ) (bs : List Block) (trailer : List Text)
      → All Printable bs
      → All Skipped trailer
      → length bs < n
      → drain base64_decode n (reader p (map print_line (file_lines bs trailer)))
        ≡ some (map block_item bs)
  drain-lines zero p bs trailer w s h = ground arith
  drain-lines (suc n) p [] trailer w s h = rw (iterator_next-trailer p trailer s, drain) refl
  drain-lines (suc n) p (b ∷ bs) trailer (w, ws) s h =
      let (q, e) = iterator_next-block b p (file_lines bs trailer) w in
      drain_step n _ _ _ _ e (drain-lines n q bs trailer ws s (omega arith))

  -- The iterator over the bytes of printed blocks returns for each block in order its label with
  -- its decoded body, or the error where the body is not base64, and then ends, within any number
  -- of calls above that of the blocks. There may be lines before, between and after the blocks that
  -- do not start one. All lines are ASCII without an end of line inside; a label has no dash, and
  -- the lines of a body have no dash and no white space. The last line of a block is any line that
  -- starts with `-----END `: the block is returned too where that line has another label than the
  -- first one, or none, or does not end with dashes.
  pub iter_from_buffer-print :
      (n : ℕ) (bs : List Block) (trailer : List Text)
      → All Printable bs
      → All Skipped trailer
      → length bs < n
      → drain base64_decode n (iter_from_buffer (print bs trailer)) ≡ some (map block_item bs)
  unfolding iter_from_buffer
  iter_from_buffer-print n bs trailer w s h =
      ap (λ ls. drain base64_decode n (reader 0 ls))
        (split_lines-print (file_lines bs trailer) (file-Plain bs trailer w s))
      ∙ drain-lines n 0 bs trailer w s h

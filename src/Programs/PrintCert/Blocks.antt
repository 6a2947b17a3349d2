-- ===== src/Programs/PrintCert/Blocks.antt =====
-- examples/print-cert.rs on a file of PEM blocks.
use x509_parser.Console.{Script, each_from, println, returned, to_stderr, ◌>>◌}
use x509_parser.Error.{PemError}
use x509_parser.Error.Display.{pem_error_display}
use x509_parser.Format.{decimal}
use x509_parser.Pem.{Pem, Reader, decoded, iter_from_buffer, iterator_next}
use x509_parser.Pem.Blocks.{
  Block, Printable, Skipped, block_lines, end_line, file-Plain, file_lines, header_line, print,
}
use x509_parser.Pem.Printed.{Plain, print_line, print_line_ascii, split_lines-print}
use x509_parser.Pem.Progress.{drain}
use x509_parser.Pem.RoundTrip.{block_item, iter_from_buffer-print}
use x509_parser.Prelude.{
  All, All-append, Bytes, List, Option-cases, Text, [], ap, arith, codes, concat, false, inl, inr,
  leb, length, length-append, map, none, refl, some, suc, zero, ℕ, ◌&&◌, ◌++◌, ◌<◌, ◌==◌, ◌∙◌, ◌∷◌,
  ◌≡◌, ◌≤◌,
}
use x509_parser.Programs.{Host}
use x509_parser.Programs.PrintCert.{
  handle_certificate, handle_data, handle_item, item_loop, probably_der,
}
use x509_parser.Result.{Result}

length-map_print : (ts : List Text) → length (map print_line ts) ≡ length ts
length-map_print [] = refl
length-map_print (t ∷ ts) = omega (arith, length-map_print ts)

file_lines_more :
    (bs : List Block) (trailer : List Text) → length bs ≤ length (file_lines bs trailer)
file_lines_more [] trailer = omega arith
file_lines_more (b ∷ bs) trailer = omega (
  arith,
  length-append b.before (header_line b ∷ (b.body ++ end_line b ∷ [])),
  length-append (block_lines b) (file_lines bs trailer),
  file_lines_more bs trailer,
)

printed_ascii :
    (ts : List Text) → All (All Plain) ts → All (λ c. c < 0x80) (concat (map print_line ts))
printed_ascii [] w = tt
printed_ascii (t ∷ ts) (w, ws) =
    All-append (λ c. c < 0x80) (print_line t) (concat (map print_line ts)) (print_line_ascii t w)
      (printed_ascii ts ws)

-- There is a line for every block.
lines_enough :
    (bs : List Block) (trailer : List Text)
    → All Printable bs
    → All Skipped trailer
    → length bs < suc (length (iter_from_buffer (print bs trailer)).lines)
unfolding iter_from_buffer
lines_enough bs trailer w s =
    rw (split_lines-print (file_lines bs trailer) (file-Plain bs trailer w s))
      (omega (arith, length-map_print (file_lines bs trailer), file_lines_more bs trailer))

module _ (h : Host) where
  -- The loop over the iterator, where it ends within the rounds, is a loop over its items.
  pub item_loop-each_from :
      (rounds : ℕ) (file_name : Text) (n : ℕ) (r : Reader) (items : List (Result PemError Pem))
      → drain h.base64_decode rounds r ≡ some items
      → item_loop h rounds file_name n r ≡ each_from (handle_item h file_name) n items
  unfolding item_loop each_from
  item_loop-each_from zero file_name n r items e = cc
  item_loop-each_from (suc rounds) file_name n r items e =
      let r' = (iterator_next h.base64_decode r).1 in
      elim (Option-cases (iterator_next h.base64_decode r).0) [
        | inl k ↦
            let none_left : some [] ≡ some items = rw (k, drain) at e in
            let same : [] ≡ items = cc in
            rw (k, item_loop) (ap (each_from (handle_item h file_name) n) same)
        | inr (v, k) ↦ elim (Option-cases (drain h.base64_decode rounds r')) [
          | inl m ↦ cc (rw (k, m, drain) at e)
          | inr (more, m) ↦
              let joined : some (v ∷ more) ≡ some items = rw (k, m, drain) at e in
              let same : v ∷ more ≡ items = cc in
              rw (k, item_loop)
                (ap (λ q. handle_item h file_name n v >> q)
                    (item_loop-each_from rounds file_name (suc n) r' more m)
                  ∙ ap (each_from (handle_item h file_name) n) same)
        ]
      ]

  -- Bytes of text are not taken for DER.
  handle_data-ascii :
      (file_name : Text) (bytes : Bytes)
      → All (λ c. c < 0x80) bytes
      → 2 ≤ length bytes
      → handle_data h file_name bytes
        ≡ item_loop h
            (suc (length (iter_from_buffer bytes).lines))
            file_name
            0
            (iter_from_buffer bytes)
  unfolding handle_data probably_der
  handle_data-ascii file_name [] a two = absurd (omega arith)
  handle_data-ascii file_name (b0 ∷ []) a two = absurd (omega arith)
  handle_data-ascii file_name (b0 ∷ b1 ∷ bs) (a0, (a1, a)) two =
      let not_der : (b0 == 0x30 && leb 0x81 b1 && leb b1 0x83) ≡ false = ground arith in
      rw (not_der) refl

  -- What is written for blocks from a number on: a line with the number and what is written for the
  -- body as a certificate, and then the rest unless that ends the program; or, where the body is not
  -- base64, a line to stderr and then the rest.
  abbrev pub reports : Text → ℕ → List Block → Script
  reports file_name n [] = ([], returned tt)
  reports file_name n (b ∷ bs) = elim (h.base64_decode (concat b.body)) [
    | some bytes ↦
        println (codes "Certificate [" ++ decimal n ++ codes "]")
        >> handle_certificate h file_name bytes
        >> reports file_name (suc n) bs
    | none ↦
        let problem =
          codes "Error while decoding PEM entry "
          ++ decimal n
          ++ codes ": "
          ++ codes "base64 decode error" in
        let rest = reports file_name (suc n) bs in
        (to_stderr (problem ++ b'\n' ∷ []) ∷ rest.0, rest.1)
  ]

  each_from-reports :
      (file_name : Text) (n : ℕ) (bs : List Block)
      → each_from (handle_item h file_name) n (map (block_item h.base64_decode) bs)
        ≡ reports file_name n bs
  unfolding each_from handle_item decoded pem_error_display
  each_from-reports file_name n [] = refl
  each_from-reports file_name n (b ∷ bs) = elim (Option-cases (h.base64_decode (concat b.body))) [
    | inl k ↦ rw (k, each_from-reports file_name (suc n) bs, reports) refl
    | inr (bytes, k) ↦ rw (k, each_from-reports file_name (suc n) bs, reports) refl
  ]

  -- On a file of printed PEM blocks the program takes every block in order, numbered from 0. Where
  -- the body is not base64 it writes one line to stderr, with the number and the error, and goes
  -- on. Otherwise it writes a line with the number and handles the decoded body as a certificate,
  -- and goes on unless that ends the program. There may be lines before, between and after the
  -- blocks that do not start one; lines are ASCII, labels have no dash, and the lines of a body no
  -- dash and no white space. The file has at least two bytes.
  pub handle_data-print :
      (file_name : Text) (bs : List Block) (trailer : List Text)
      → All Printable bs
      → All Skipped trailer
      → 2 ≤ length (print bs trailer)
      → handle_data h file_name (print bs trailer) ≡ reports file_name 0 bs
  handle_data-print file_name bs trailer w s two =
      let all_plain = file-Plain bs trailer w s in
      let r = iter_from_buffer (print bs trailer) in
      let enough = lines_enough bs trailer w s in
      handle_data-ascii file_name (print bs trailer)
        (printed_ascii (file_lines bs trailer) all_plain) two
      ∙ item_loop-each_from (suc (length r.lines)) file_name 0 r
          (map (block_item h.base64_decode) bs)
          (iter_from_buffer-print h.base64_decode (suc (length r.lines)) bs trailer w s enough)
      ∙ each_from-reports file_name 0 bs

-- ===== src/Programs/Panics.antt =====
-- Files on which examples/print-crl.rs panics.
use x509_parser.Console.{Write, abort, aborted, to_stdout}
use x509_parser.Console.Laws.{Returns, each-aborted}
use x509_parser.Error.{io_error}
use x509_parser.Pem.{begin_loop, cursor, line_text, parse_x509_pem, pem_read, read_body}
use x509_parser.Pem.Rest.{later}
use x509_parser.Prelude.{
  All, Bytes, List, List-cases, Text, [], arith, codes, concat, false, inl, inr, map, onto_first,
  refl, some, split_lines, ℕ, ◌++◌, ◌<◌, ◌==◌, ◌∷◌, ◌≡◌, ◌≢◌, ◌≤◌,
}
use x509_parser.Programs.{Host}
use x509_parser.Programs.PrintCrl.{
  is_der_list, pem_contents, print_crl_main, print_list_data, print_list_file,
}
use x509_parser.Result.{err, error, whole}
use x509_parser.Utf8.{from_utf8_continuation}

-- What the program writes before it opens a file.
abbrev pub file_line : Text → Write
file_line name = to_stdout (codes "File: " ++ name ++ b'\n' ∷ [])

first_line :
    (a b : ℕ) (bs : Bytes)
    → a ≢ b'\n'
    → b ≢ b'\n'
    → (l : Bytes) × (ls : List Bytes) × (split_lines (a ∷ b ∷ bs) ≡ (a ∷ b ∷ l) ∷ ls)
unfolding split_lines onto_first
first_line a b bs ha hb =
    let ea : (a == b'\n') ≡ false = ground arith in
    let eb : (b == b'\n') ≡ false = ground arith in
    elim (List-cases (split_lines bs)) [
      | inl e ↦ ([], [], rw (ea, eb, e, split_lines, onto_first) refl)
      | inr (l, ls, e) ↦ (l, ls, rw (ea, eb, e, split_lines, onto_first) refl)
    ]

module _ (h : Host) where
  -- A buffer that starts with a continuation byte in second place holds no PEM block.
  no_pem :
      (a b : ℕ) (bs : Bytes)
      → a < 0x80
      → a ≢ b'\n'
      → 0x80 ≤ b
      → b < 0xc2
      → parse_x509_pem h.base64_decode (whole (a ∷ b ∷ bs)) ≡ err (error io_error)
  unfolding parse_x509_pem pem_read cursor begin_loop read_body line_text
  no_pem a b bs ha ka low high =
      let (l, ls, e) = first_line a b bs ka (λ k. omega arith) in
      rw
        (
          e,
          from_utf8_continuation a b l ha low high,
          parse_x509_pem,
          pem_read,
          begin_loop,
          line_text,
        )
        refl

  other_length-aborted :
      (name : Text) (b1 : ℕ) (bs : Bytes)
      → h.read name ≡ some (0x30 ∷ b1 ∷ bs)
      → 0x80 ≤ b1
      → b1 < 0xc0
      → b1 ≢ 0x82
      → print_list_file h name ≡ (file_line name ∷ [], aborted)
  unfolding print_list_file print_list_data is_der_list
  other_length-aborted name b1 bs r low high other =
      let not_der : (b1 == 0x82) ≡ false = ground arith in
      let stuck : pem_contents h (0x30 ∷ b1 ∷ bs) ≡ abort =
        rw (no_pem 0x30 b1 bs (omega arith) (λ k. omega arith) low (omega arith), pem_contents)
          refl in
      rw (r, not_der, stuck) refl

  -- If a file starts with the byte of a sequence and a byte from 0x80 to 0xbf other than 0x82, then
  -- whatever its other bytes are, examples/print-crl.rs takes it for PEM and panics on it: it writes
  -- what it writes for the files before, if it gets through them, and the name of the file, and
  -- handles no file after it. These bytes start every DER sequence whose length is in long form
  -- but not in two bytes.
  pub print_crl_main-other_length :
      (before : List Text) (name : Text) (later : List Text) (b1 : ℕ) (bs : Bytes)
      → All (λ x. Returns (print_list_file h x)) before
      → h.read name ≡ some (0x30 ∷ b1 ∷ bs)
      → 0x80 ≤ b1
      → b1 < 0xc0
      → b1 ≢ 0x82
      → print_crl_main h (before ++ name ∷ later)
        ≡ (concat (map (λ x. (print_list_file h x).0) before) ++ file_line name ∷ [], aborted)
  unfolding print_crl_main
  print_crl_main-other_length before name later b1 bs w r low high other =
      each-aborted (print_list_file h) (file_line name ∷ []) before name later w
        (other_length-aborted name b1 bs r low high other)

-- ===== src/Pem.antt =====
-- src/pem.rs: reading the PEM blocks of a text. A reader is what `BufRead` and `Seek` show of it:
-- its position, and the lines that `read_line` still returns, each with its end of line. The
-- decoder of the crate data-encoding is a parameter, on the text whose bytes the code hands to it.
pub mod Lines
pub mod Position
pub mod Progress
pub mod Ends
pub mod Rest
pub mod Printed
pub mod Blocks
pub mod RoundTrip
pub mod Repeated
use x509_parser.Asn1.{Oids}
use x509_parser.Certificate.{X509Certificate}
use x509_parser.Der.{Der}
use x509_parser.Error.{
  PemError, X509Error, base64_decode_error, incomplete_pem, invalid_header, io_error,
  missing_header,
}
use x509_parser.Prelude.{
  Bytes, List, Option, Text, [], codes, drop, false, get_elem?, if◌then◌else◌, is_empty, length,
  none, not, some, split, split_lines, str_starts_with, strip_prefix, trim_end, true, ℕ, ◌++◌, ◌+◌,
  ◌∷◌,
}
use x509_parser.Result.{NomErr, Parser, Result, err, error, map_ok, ok, ok_or, whole, ◌>>=◌}
use x509_parser.Root.{parse_x509_certificate}
use x509_parser.Utf8.{from_utf8}

pub record Pem : Type 0 where
  pub label : Text
  pub contents : Bytes

-- `impl BufRead + Seek`.
pub record Reader : Type 0 where
  pub position : ℕ
  pub lines : List Bytes

-- `Cursor::new` on a buffer.
unfoldable pub cursor : Bytes → Reader
cursor i = record { position = 0; lines = split_lines i }

-- A value read, and the reader after it.
abbrev pub Read {ℓ} : Type ℓ → Type ℓ
Read A = Result PemError A × Reader

-- The text of a line: an I/O error where it is not UTF-8.
unfoldable pub line_text : Bytes → Result PemError Text
line_text line = ok_or io_error (from_utf8 line)

abbrev pub begin_mark : Text
begin_mark = codes "-----BEGIN "

abbrev pub end_mark : Text
end_mark = codes "-----END "

abbrev pub dashes : Text
dashes = codes "-----"

-- The label of the line that starts a block: the pieces of the line, and then the text up to the
-- first dash.
unfoldable pub label_of : List Text → Result PemError Text
label_of (first ∷ piece ∷ third ∷ more) =
    if not (is_empty first)
    then err invalid_header
    else (ok_or invalid_header (strip_prefix (codes "BEGIN ") piece) >>= λ label.
        ok_or invalid_header (get_elem? (split label (b'-' ∷ [])) 0))
label_of _ = err invalid_header

unfoldable pub header_label : Text → Result PemError Text
unfolding label_of
header_label line = label_of (split line dashes)

-- The first loop of `Pem::read`, over the lines at a position, with the label in the end.
unfoldable pub begin_loop : ℕ → List Bytes → Read Text
unfolding header_label line_text
begin_loop position [] = (err missing_header, record { position = position; lines = [] })
begin_loop position (l ∷ ls) =
    let past = position + length l in
    elim (line_text l) [
      | err e ↦ (err e, record { position = past; lines = ls })
      | ok line ↦ elim (str_starts_with begin_mark line) [
        | false ↦ begin_loop past ls
        | true ↦ (header_label line, record { position = past; lines = ls })
      ]
    ]

-- The second loop, with the text `s` read so far.
unfoldable pub body_loop : Text → ℕ → List Bytes → Read Text
unfolding line_text
body_loop s position [] = (err incomplete_pem, record { position = position; lines = [] })
body_loop s position (l ∷ ls) =
    let past = position + length l in
    elim (line_text l) [
      | err e ↦ (err e, record { position = past; lines = ls })
      | ok line ↦ elim (str_starts_with end_mark line) [
        | true ↦ (ok s, record { position = past; lines = ls })
        | false ↦ body_loop (s ++ trim_end line) past ls
      ]
    ]

module _ (base64_decode : Text → Option Bytes) where
  -- The value of `Pem::read` from the label and the text of the body.
  unfoldable pub decoded : Text → Text → Result PemError Pem
  decoded label s = ok_or base64_decode_error (base64_decode s) >>= λ contents.
      ok (record { label = label; contents = contents })

  -- `Pem::read` after the first loop, on what that loop returned.
  unfoldable pub read_body : Read Text → Read (Pem × ℕ)
  unfolding body_loop decoded
  read_body (err e, r) = (err e, r)
  read_body (ok label, r) =
      let (body, r') = body_loop [] r.position r.lines in
      ((body >>= λ s. map_ok (λ pem. (pem, r'.position)) (decoded label s)), r')

  unfoldable pub pem_read : Reader → Read (Pem × ℕ)
  unfolding begin_loop read_body
  pem_read r = read_body (begin_loop r.position r.lines)

  unfoldable pub parse_x509_pem : Parser PemError Pem
  unfolding pem_read cursor
  parse_x509_pem i = elim (pem_read (cursor i.bytes)).0 [
    | ok (pem, bytes_read) ↦
        ok (record { start = i.start + bytes_read; bytes = drop bytes_read i.bytes }, pem)
    | err e ↦ err (error e)
  ]

  -- `pem_to_der`, which is deprecated.
  unfoldable pub pem_to_der : Parser PemError Pem
  pem_to_der i = parse_x509_pem i

  -- The item of the iterator from what was read: none where no block was left.
  unfoldable pub item_of : Result PemError (Pem × ℕ) → Option (Result PemError Pem)
  item_of (err missing_header) = none
  item_of (err e) = some (err e)
  item_of (ok (pem, _)) = some (ok pem)

  -- `PemIterator::next`, with the reader as the state. At the end `fill_buf` returns no bytes.
  unfoldable pub iterator_next : Reader → Option (Result PemError Pem) × Reader
  unfolding pem_read item_of
  iterator_next r = if is_empty r.lines then (none, r) else (item_of (pem_read r).0, (pem_read r).1)

-- `Pem::iter_from_buffer` and `Pem::iter_from_reader`: the iterator holds the reader.
unfoldable pub iter_from_reader : Reader → Reader
iter_from_reader r = r

unfoldable pub iter_from_buffer : Bytes → Reader
unfolding cursor
iter_from_buffer i = cursor i

module _ (d : Der) (oids : Oids) where
  -- `Pem::parse_x509`.
  unfoldable pub parse_x509 : Pem → Result (NomErr X509Error) X509Certificate
  parse_x509 pem = map_ok (λ p. p.1) (parse_x509_certificate d oids (whole pem.contents))

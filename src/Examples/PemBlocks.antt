-- ===== src/Examples/PemBlocks.antt =====
-- Tests of the reader of PEM blocks, and its theorems at concrete inputs. The decoder of base64
-- that they take returns the text itself, but refuses a text that starts with an exclamation mark.
use x509_parser.Error.{PemError, base64_decode_error, io_error}
use x509_parser.Pem.{
  Pem, Reader, cursor, decoded, header_label, iter_from_buffer, iterator_next, line_text,
  parse_x509_pem,
}
use x509_parser.Pem.Blocks.{Block, Printable, print}
use x509_parser.Pem.Ends.{Ignored, iterator_next-invalid, iterator_next-none}
use x509_parser.Pem.Position.{At, cursor-At, iterator_next-At}
use x509_parser.Pem.Progress.{drain, drain_ends, unread}
use x509_parser.Pem.Repeated.{parse_all, parse_all-until_error, until_error}
use x509_parser.Pem.Rest.{Rest, parse_x509_pem-Rest}
use x509_parser.Pem.RoundTrip.{iter_from_buffer-print}
use x509_parser.Prelude.{
  All, Bytes, List, Option, Text, [], arith, codes, if◌then◌else◌, is_whitespace, length, none,
  refl, some, split, split_lines, str_starts_with, strip_prefix, trim_end, ℕ, ◌==◌, ◌↔◌, ◌∷◌, ◌≡◌,
  ◌≤◌,
}
use x509_parser.Result.{Result, Slice, err, ok, whole}
use x509_parser.Utf8.{from_utf8}

abbrev pub decoder : Text → Option Bytes
decoder [] = some []
decoder (c ∷ s) = if c == b'!' then none else some (c ∷ s)

header_label_test :
    header_label (codes "-----BEGIN MULTI WORD LABEL-----\n") ≡ ok (codes "MULTI WORD LABEL")
unfolding header_label split strip_prefix
header_label_test = refl

trim_end_test : trim_end (codes "a b \r\n") ≡ codes "a b"
unfolding trim_end
trim_end_test = refl

abbrev pem_text : Bytes
pem_text = codes "text\n-----BEGIN A-----\nQUJD\n\nREVG \n-----END A-----\nmore\n-----BEGIN B"

abbrev pem_found : Pem
pem_found = record { label = codes "A"; contents = codes "QUJDREVG" }

abbrev pem_rest : Slice
pem_rest = record { start = 51; bytes = codes "more\n-----BEGIN B" }

parse_x509_pem_test : parse_x509_pem decoder (whole pem_text) ≡ ok (pem_rest, pem_found)
unfolding parse_x509_pem split_lines from_utf8 str_starts_with split strip_prefix trim_end
parse_x509_pem_test = refl

abbrev pub block : Block
block = record {
  before = codes "some text" ∷ [];
  label = codes "A";
  body = codes "QUJD" ∷ codes "REVG" ∷ [];
  ending = codes "A-----";
}

abbrev pub bad_block : Block
bad_block = record {
  before = [];
  label = codes "B";
  body = codes "!" ∷ [];
  ending = codes "A-----";
}

pub block-Printable : Printable block
unfolding is_whitespace str_starts_with
block-Printable = record {
  before_skipped = ((ground arith, refl), tt);
  label_plain = ground arith;
  label_dashless = ground arith;
  body_coded = ground arith;
  ending_plain = ground arith;
}

pub bad_block-Printable : Printable bad_block
unfolding is_whitespace str_starts_with
bad_block-Printable = record {
  before_skipped = tt;
  label_plain = ground arith;
  label_dashless = ground arith;
  body_coded = ground arith;
  ending_plain = ground arith;
}

iter_from_buffer-print_example :
    drain decoder 3 (iter_from_buffer (print (block ∷ bad_block ∷ []) (codes "end" ∷ [])))
    ≡ some (
        ok (record { label = codes "A"; contents = codes "QUJDREVG" })
        ∷ err base64_decode_error
        ∷ [])
unfolding decoded str_starts_with
iter_from_buffer-print_example =
    iter_from_buffer-print decoder 3 (block ∷ bad_block ∷ []) (codes "end" ∷ [])
      (block-Printable, (bad_block-Printable, tt)) ((ground arith, refl), tt) (omega arith)

abbrev text_reader : Reader
text_reader = record { position = 0; lines = pem_text ∷ [] }

drain_ends_example :
    (items : List (Result PemError Pem)) × (drain decoder 2 text_reader ≡ some items)
    × (length items ≤ unread text_reader)
drain_ends_example = drain_ends decoder 2 text_reader (omega arith)

iterator_next-none_example :
    ((iterator_next decoder text_reader).0 ≡ none) ↔ All Ignored text_reader.lines
iterator_next-none_example = iterator_next-none decoder text_reader

iterator_next-At_example : At pem_text (iterator_next decoder (cursor pem_text)).1
iterator_next-At_example = iterator_next-At decoder pem_text (cursor pem_text) (cursor-At pem_text)

parse_x509_pem-Rest_example : Rest (whole pem_text) pem_rest
parse_x509_pem-Rest_example =
    parse_x509_pem-Rest decoder (whole pem_text) pem_rest pem_found parse_x509_pem_test

parse_all-until_error_example :
    parse_all decoder 5 (whole pem_text) ≡ until_error decoder 5 (iter_from_buffer pem_text)
parse_all-until_error_example = parse_all-until_error decoder 5 (whole pem_text)

iterator_next-invalid_example :
    (q : ℕ) × (iterator_next decoder
        (record { position = 0; lines = codes "text\n" ∷ (0xff ∷ []) ∷ [] })
      ≡ (some (err io_error), record { position = q; lines = [] }))
unfolding line_text from_utf8 str_starts_with
iterator_next-invalid_example =
    iterator_next-invalid decoder 0 (codes "text\n" ∷ []) (0xff ∷ []) []
      ((codes "text\n", refl, refl), tt) refl

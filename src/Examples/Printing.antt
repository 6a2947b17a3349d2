-- ===== src/Examples/Printing.antt =====
-- The theorems on the programs of examples/ at concrete files.
use x509_parser.Certificate.{X509Certificate}
use x509_parser.Certificate.Builder.{certificate_from_der, certificate_parser}
use x509_parser.Certificate.Parse.{
  certificate_parse, parse_choice_of_time, tbs_content, tbs_parse, time_from_der, unique_id_parse,
  validity_from_der,
}
use x509_parser.Console.{aborted, returned}
use x509_parser.Error.{X509Error}
use x509_parser.Examples.{echo, no_text, standard_oids}
use x509_parser.Examples.Envelopes.{lenient}
use x509_parser.Examples.PemBlocks.{bad_block, bad_block-Printable, block, block-Printable, decoder}
use x509_parser.Extensions.Dispatch.{
  der_read_critical, extension_content, extension_parse, extension_parser_entries,
  extension_parsers, parse_extension, parse_extension_sequence, parse_extensions,
}
use x509_parser.Extensions.Usage.{parse_extendedkeyusage}
use x509_parser.Objects.{Naming}
use x509_parser.OidMap.{inserted_from, map_get, map_insert}
use x509_parser.Pem.{
  begin_loop, body_loop, decoded, header_label, item_of, iter_from_buffer, iterator_next, line_text,
  pem_read, read_body,
}
use x509_parser.Pem.Blocks.{print}
use x509_parser.Prelude.{
  Bytes, List, Option, Text, [], arith, codes, concat, if◌then◌else◌, list_eq, none, refl, some,
  split, split_lines, str_starts_with, strip_prefix, subst, trim_end, ◌++◌, ◌∷◌, ◌≡◌,
}
use x509_parser.Programs.{Host}
use x509_parser.Programs.Panics.{file_line, print_crl_main-other_length}
use x509_parser.Programs.PrintCert.{handle_data, handle_file, print_cert_main}
use x509_parser.Programs.PrintCert.Blocks.{handle_data-print, reports}
use x509_parser.Programs.PrintCert.Files.{IsPrintable, bodies_in, print_cert_main-Returns}
use x509_parser.Programs.PrintCrl.{print_crl_main}
use x509_parser.Programs.Rows.{format_number_to_hex_with_colon}
use x509_parser.Programs.Rows.Layout.{IsLaidOut, format_number_to_hex_with_colon-IsLaidOut}
use x509_parser.PublicKey.{parsed}
use x509_parser.Result.{IResult, Slice, ok}
use x509_parser.Root.{parse_x509_certificate}
use x509_parser.Utf8.{from_utf8}
use x509_parser.Utils.{pop}
use x509_parser.Utils.Serial.{read_serial}
use x509_parser.X509.Parse.{
  name_from_der, parse_serial, parse_signature_value, rdn_from_der, spki_from_der,
  version_from_der_tagged_0,
}

abbrev no_names : Naming
no_names = record { entry = λ _. none; debug = λ _. []; hexupper = λ _. [] }

abbrev files : Text → Option Bytes
files name =
    if list_eq name (codes "list.der")
    then some (0x30 ∷ 0x81 ∷ 0x80 ∷ [])
    else if list_eq name (codes "short")
    then some (0x30 ∷ [])
    else if list_eq name (codes "blocks")
    then some (print (block ∷ bad_block ∷ []) [])
    else some (0x30 ∷ 0x82 ∷ [])

abbrev host : Host
host = record {
  der = lenient;
  oids = standard_oids;
  naming = no_names;
  ring = echo;
  shows = no_text;
  any_eq = λ a b. list_eq a.content b.content;
  any_debug = λ _. [];
  general_name_debug = λ _. [];
  point_name_debug = λ _. [];
  parsed_debug = λ _. [];
  tag_text = λ _. [];
  tag_debug = λ _. [];
  time_text = λ _. [];
  version_text = λ _. [];
  reason_text = λ _. [];
  to_hex = λ b. b;
  ipv6_text = λ _. [];
  ber_error_text = λ _. [];
  kind_debug = λ _. [];
  io_error_text = [];
  nom_error_text = λ _. [];
  parse_der = λ _. none;
  base64_decode = decoder;
  now = record { instant = 13 };
  read = files;
}

-- A certificate whose algorithms have no parameters, and whose key is of no known kind.
same_certificate-IsPrintable :
    (rem0 rem : Slice) (x0 x509 : X509Certificate)
    → ◌≡◌ {A = IResult X509Error X509Certificate} (ok (rem0, x0)) (ok (rem, x509))
    → IsPrintable host x0
    → IsPrintable host x509
same_certificate-IsPrintable rem0 rem x0 x509 e w =
    let same : x0 ≡ x509 = cc in subst (IsPrintable host) same w

blocks_bodies : bodies_in host (print (block ∷ bad_block ∷ []) []) ≡ codes "QUJDREVG" ∷ []
unfolding iter_from_buffer iterator_next pem_read begin_loop body_loop read_body item_of decoded
    header_label split_lines from_utf8 str_starts_with split strip_prefix trim_end line_text
blocks_bodies = refl

print_cert_main-Returns_example : print_cert_main host (codes "a" ∷ codes "blocks" ∷ []) ≡ (
  (handle_file host (codes "a")).0 ++ ((handle_file host (codes "blocks")).0 ++ []),
  returned tt,
)
unfolding list_eq str_starts_with parse_x509_certificate certificate_from_der certificate_parser
    certificate_parse tbs_parse tbs_content version_from_der_tagged_0 parse_serial name_from_der
    validity_from_der time_from_der parse_choice_of_time spki_from_der unique_id_parse
    parse_signature_value rdn_from_der parse_extensions parse_extension_sequence extension_parse
    extension_content parse_extension extension_parsers extension_parser_entries inserted_from
    map_insert map_get der_read_critical parse_extendedkeyusage parsed
print_cert_main-Returns_example = print_cert_main-Returns host (codes "a" ∷ codes "blocks" ∷ []) (
  (
    0x30 ∷ 0x82 ∷ [],
    refl,
    omega arith,
    (
      λ rem x509 e. same_certificate-IsPrintable _ rem _ x509 e (record {
        key_indexable = tt;
        key_algorithm = λ p k t. cc;
        signature_algorithm = λ p k t. cc;
      }),
      tt,
    ),
  ),
  (
    (
      print (block ∷ bad_block ∷ []) [],
      refl,
      omega arith,
      rw (blocks_bodies) (
        λ rem x509 e. same_certificate-IsPrintable _ rem _ x509 e (record {
          key_indexable = tt;
          key_algorithm = λ p k t. cc;
          signature_algorithm = λ p k t. cc;
        }),
        tt,
      ),
    ),
    tt,
  ),
)

handle_data-print_example :
    handle_data host (codes "a") (print (block ∷ bad_block ∷ []) (codes "end" ∷ []))
    ≡ reports host (codes "a") 0 (block ∷ bad_block ∷ [])
unfolding str_starts_with
handle_data-print_example =
    handle_data-print host (codes "a") (block ∷ bad_block ∷ []) (codes "end" ∷ [])
      (block-Printable, (bad_block-Printable, tt)) ((ground arith, refl), tt) (omega arith)

print_crl_main-other_length_example :
    print_crl_main host (codes "list.der" ∷ codes "b" ∷ [])
    ≡ (file_line (codes "list.der") ∷ [], aborted)
unfolding list_eq
print_crl_main-other_length_example =
    print_crl_main-other_length host [] (codes "list.der") (codes "b" ∷ []) 0x81 (0x80 ∷ []) tt refl
      (omega arith) (omega arith) (λ e. omega arith)

format_number_to_hex_with_colon-IsLaidOut_example :
    (rows : List Text) × (format_number_to_hex_with_colon (1 ∷ 2 ∷ 255 ∷ []) 2 ≡ some rows)
    × IsLaidOut 2 rows
    × (read_serial (pop (concat rows)) ≡ 1 ∷ 2 ∷ 255 ∷ [])
format_number_to_hex_with_colon-IsLaidOut_example =
    format_number_to_hex_with_colon-IsLaidOut (1 ∷ 2 ∷ 255 ∷ []) 2 (omega arith) (omega arith)

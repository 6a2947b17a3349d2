-- ===== src/Examples/Envelopes.antt =====
-- The theorem on deep parsing at a certificate that is parsed, and a reading of the combinators
-- in which it is.
use x509_parser.Asn1.{Any, Header, tag_integer, universal}
use x509_parser.Certificate.{find_extension}
use x509_parser.Certificate.Envelope.{Pointwise, certificate_envelope, certificate_parse-SameView}
use x509_parser.Certificate.Parse.{
  certificate_parse, parse_choice_of_time, tbs_content, tbs_parse, time_from_der, unique_id_parse,
  validity_from_der,
}
use x509_parser.Der.{Der}
use x509_parser.Examples.{id_ce, plain, standard_oids}
use x509_parser.Examples.Samples.{algorithm_of}
use x509_parser.Extensions.{extended_key_usage, reason_code}
use x509_parser.Extensions.Dispatch.{
  der_read_critical, extension_content, extension_parse, extension_parser_entries,
  extension_parsers, parse_extension, parse_extension_sequence, parse_extensions, parse_reason_code,
}
use x509_parser.Extensions.Usage.{no_usage, parse_extendedkeyusage}
use x509_parser.OidMap.{inserted_from, map_get, map_insert}
use x509_parser.Prelude.{
  List, [], ap, arith, false, find, length, list_eq, map, refl, some, sym, true, ◌∙◌, ◌∷◌, ◌≡◌, ◌≤◌,
}
use x509_parser.Result.{IResult, Slice, err, is_ok, map_ok, ok, whole}
use x509_parser.Result.Views.{SameValue, SameView, map_ok-map_ok, on_value}
use x509_parser.RevocationList.{RevokedCertificate, get_reason_code}
use x509_parser.RevocationList.Reason.{get_reason_code-InRange}
use x509_parser.X509.Parse.{
  name_from_der, parse_serial, parse_signature_value, rdn_from_der, spki_from_der,
  version_from_der_tagged_0,
}

abbrev one_item : {E A : Type 0} → Slice → IResult E A → IResult E (List A)
one_item i (ok (rem, a)) = ok (rem, a ∷ [])
one_item i (err e) = ok (i, [])

abbrev same_rest : {E A : Type 0} → Slice → IResult E A → IResult E A
same_rest i r = map_ok (λ (rem, a). (i, a)) r

abbrev serial_number : Any
serial_number = record {
  class = universal;
  constructed = false;
  tag = tag_integer;
  content = 7 ∷ [];
}

abbrev context_header : Header
context_header = record { class = universal; constructed = false; tag = 3; definite = some 0 }

-- A sequence stands where its content does, and a list has one item at most.
abbrev pub lenient : Der
lenient = record plain {
  sequence_g = λ E A f i. same_rest i (f i context_header);
  many0 = λ E A p i. one_item i (p i);
  any_from_ber = λ i. ok (i, serial_number);
  algorithm_from_der = λ i. ok (i, algorithm_of (id_ce 37));
  utc_time_from_der = λ i. ok (i, tt);
  utc_adjusted_datetime = λ _. ok (record { instant = 5 });
  bitstring_from_der = λ i. ok (i, record { unused_bits = 0; content = i.bytes });
  header_from_der = λ i. ok (i, context_header);
}

same_rest-SameView :
    {E A B : Type 0} (h : A → B) (i : Slice) (r s : IResult E A)
    → SameValue h r s
    → SameView h (same_rest i r) (same_rest i s)
same_rest-SameView h i r s k =
    map_ok-map_ok (on_value h) _ r
    ∙ sym (map_ok-map_ok (λ b. (i, b)) (λ x. h x.1) r)
    ∙ ap (map_ok (λ b. (i, b))) k
    ∙ map_ok-map_ok (λ b. (i, b)) (λ x. h x.1) s
    ∙ sym (map_ok-map_ok (on_value h) _ s)

one_item-view :
    {E A B : Type 0} (h : A → B) (i : Slice) (r : IResult E A)
    → map_ok (on_value (map h)) (one_item i r) ≡ one_item i (map_ok (on_value h) r)
one_item-view h i (ok x) = refl
one_item-view h i (err e) = refl

one_item-SameView :
    {E A B : Type 0} (h : A → B) (i : Slice) (r s : IResult E A)
    → SameView h r s
    → SameView (map h) (one_item i r) (one_item i s)
one_item-SameView h i r s k = one_item-view h i r ∙ ap (one_item i) k ∙ sym (one_item-view h i s)

lenient-Pointwise : Pointwise lenient
lenient-Pointwise = record {
  sequence = λ E A B h f g k i.
      same_rest-SameView h i (f i context_header) (g i context_header) (k i context_header);
  complete = λ E A B h p q k i. k i;
  all_consuming = λ E A B h p q k i. k i;
  many0 = λ E A B h p q k i. one_item-SameView h i (p i) (q i) (k i);
}

-- Deep parsing finds an extended key usage where parsing without it leaves the content.
parse_extensions_test :
    parse_extensions lenient standard_oids true 3 (whole (1 ∷ []))
    ≡ ok (
      whole (1 ∷ []),
      record {
        oid = id_ce 37;
        critical = false;
        value = 1 ∷ [];
        parsed_extension =
            extended_key_usage
              (record no_usage { server_auth = true; ocsp_signing = true; others = [] });
      }
          ∷ [],
    )
unfolding parse_extensions parse_extension_sequence extension_parse extension_content
    parse_extension extension_parsers extension_parser_entries inserted_from map_insert map_get
    der_read_critical parse_extendedkeyusage list_eq
parse_extensions_test = refl

certificate_parse_test :
    is_ok (certificate_parse lenient standard_oids true (whole (1 ∷ []))) ≡ true
unfolding certificate_parse tbs_parse tbs_content version_from_der_tagged_0 parse_serial
    name_from_der validity_from_der time_from_der parse_choice_of_time spki_from_der unique_id_parse
    parse_signature_value rdn_from_der parse_extensions parse_extension_sequence extension_parse
    extension_content parse_extension extension_parsers extension_parser_entries inserted_from
    map_insert map_get der_read_critical parse_extendedkeyusage list_eq
certificate_parse_test = refl

certificate_parse-SameView_example :
    SameView certificate_envelope
      (certificate_parse lenient standard_oids true (whole (1 ∷ [])))
      (certificate_parse lenient standard_oids false (whole (1 ∷ [])))
certificate_parse-SameView_example =
    certificate_parse-SameView lenient standard_oids lenient-Pointwise (whole (1 ∷ []))

-- Enumerated values whose number is the length of their content.
abbrev counting : Der
counting = record plain { parse_der_enum = λ i. ok (i, i); obj_u32 = λ o. ok (length o.bytes) }

abbrev held_certificate : RevokedCertificate
held_certificate = record {
  user_certificate = 7;
  revocation_date = record { instant = 5 };
  raw_serial = 7 ∷ [];
  extensions =
      record {
        oid = standard_oids.reason_code;
        critical = false;
        value = [];
        parsed_extension = reason_code (record { value = 6 });
      }
      ∷ [];
}

get_reason_code-InRange_example : 6 ≤ 10
unfolding parse_extension extension_parsers extension_parser_entries inserted_from map_insert
    map_get parse_reason_code list_eq get_reason_code find_extension find
get_reason_code-InRange_example =
    get_reason_code-InRange counting standard_oids held_certificate false (record { value = 6 })
      (ground arith) ((whole [], whole (1 ∷ 1 ∷ 1 ∷ 1 ∷ 1 ∷ 1 ∷ []), refl), tt) refl

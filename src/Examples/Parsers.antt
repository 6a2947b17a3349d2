-- ===== src/Examples/Parsers.antt =====
-- The theorems on keys, flags, usages, maps and signatures at concrete inputs.
use x509_parser.Asn1.{Oid, starts_with, tag_utf8_string, universal}
use x509_parser.Bits.{bit, msb_set, string_bit, u16_flags}
use x509_parser.Bits.Laws.{bit-u16_flags}
use x509_parser.Error.{BerError, X509Error, der}
use x509_parser.Examples.{child, echo, id_at, id_ce, plain, standard_oids}
use x509_parser.Examples.Samples.{algorithm_of, sample, sample_list, sample_tbs}
use x509_parser.Extensions.{
  AuthorityInfoAccess, ExtendedKeyUsage, PolicyMappings, dns_name, extended_key_usage,
}
use x509_parser.Extensions.Dispatch.{
  extension_parser_entries, extension_parsers, parse_crl_number, parse_extension,
}
use x509_parser.Extensions.Flags.{
  key_usage_display, key_usage_flags, ns_cert_type_display, ns_cert_type_flags, reason_flags,
  reason_flags_display,
}
use x509_parser.Extensions.Flags.Printing.{comma_separated, flags_display, set_names}
use x509_parser.Extensions.Grouped.{access_hashmap, access_hashmap-values_of}
use x509_parser.Extensions.Separate.{extended_key_usage_from_der}
use x509_parser.Extensions.Separate.Alternative.{Alike, ErrorBlind}
use x509_parser.Extensions.Separate.Deep.{DeepAs, parse_extension-from_der}
use x509_parser.Extensions.Usage.{key_purpose, parse_extendedkeyusage}
use x509_parser.Extensions.Usage.Flagged.{Flagged, parse_extendedkeyusage-Flagged}
use x509_parser.Objects.{
  Naming, abbrev_map, attribute_text, attribute_value_to_string, oid2abbrev, oid2sn,
  x509name_to_string,
}
use x509_parser.Objects.Joined.{x509name_to_string-sep_between}
use x509_parser.OidMap.{inserted_from, map_get, map_insert}
use x509_parser.Prelude.{
  Bytes, [], any, arith, codes, false, filter, list_eq, none, refl, some, true, ℕ, ◌<◌, ◌^◌, ◌↔◌,
  ◌∷◌, ◌≡◌, ◌≢◌, ◌≤◌, ◌⊎◌,
}
use x509_parser.PublicKey.{rsa_key_size, try_exponent}
use x509_parser.PublicKey.Exponent.{IsSmall, big_endian, rsa_key_size_fits, try_exponent_iff}
use x509_parser.Result.{NomErr, error, failure, incomplete, ok, whole}
use x509_parser.RevocationList.{get_crl_number}
use x509_parser.RevocationList.Number.{get_crl_number-none}
use x509_parser.SignatureAlgorithm.{rsa_pkcs1, signature_algorithm_of}
use x509_parser.SignatureAlgorithm.Family.{FamilyOf, signature_algorithm_of-FamilyOf}
use x509_parser.Utf8.{from_utf8}
use x509_parser.Utils.{format_serial}
use x509_parser.Utils.Serial.{read_serial, read_serial-format_serial}
use x509_parser.Verify.{verify_signature}
use x509_parser.Verify.Choice.{Selects, verify_signature-ok}
use x509_parser.X509.{AttributeTypeAndValue, RelativeDistinguishedName}

bit-u16_flags_example : bit (u16_flags (1 ∷ 128 ∷ [])) 8 ≡ string_bit (1 ∷ 128 ∷ []) 8
bit-u16_flags_example =
    bit-u16_flags (1 ∷ 128 ∷ []) 8 (omega arith, (omega arith, tt)) (omega arith)

flags_display_example :
    (key_usage_display (record { flags = 97 }) ≡ comma_separated (set_names 97 0 key_usage_flags))
    × (ns_cert_type_display (record { flags = 3 })
        ≡ comma_separated (set_names 3 0 ns_cert_type_flags))
    × (reason_flags_display (record { flags = 6 }) ≡ comma_separated (set_names 6 0 reason_flags))
flags_display_example =
    flags_display (record { flags = 97 }) (record { flags = 3 }) (record { flags = 6 })

try_exponent_iff_example :
    (try_exponent (record { modulus = []; exponent = 1 ∷ 0 ∷ 1 ∷ [] }) ≡ ok 65537)
    ↔ (IsSmall (1 ∷ 0 ∷ 1 ∷ []) × (65537 ≡ big_endian (1 ∷ 0 ∷ 1 ∷ [])))
try_exponent_iff_example =
    try_exponent_iff (record { modulus = []; exponent = 1 ∷ 0 ∷ 1 ∷ [] }) 65537

rsa_key_size_fits_example :
    (◌≡◌ {A = ℕ} 100 0 × (big_endian (100 ∷ 7 ∷ []) < 2 ^ rsa_key_size (100 ∷ 7 ∷ [])))
    ⊎ (◌≢◌ {A = ℕ} 100 0 × (2 ^ rsa_key_size (100 ∷ 7 ∷ []) ≤ big_endian (100 ∷ 7 ∷ [])))
unfolding msb_set
rsa_key_size_fits_example = rsa_key_size_fits 100 (7 ∷ []) (omega arith, (omega arith, tt)) refl

parse_extendedkeyusage-Flagged_example :
    (eku : ExtendedKeyUsage) × (parse_extendedkeyusage plain (whole []) ≡ ok (whole [], eku))
    × Flagged eku (key_purpose 1 ∷ key_purpose 9 ∷ key_purpose 1 ∷ [])
parse_extendedkeyusage-Flagged_example =
    parse_extendedkeyusage-Flagged plain (whole []) (whole [])
      (key_purpose 1 ∷ key_purpose 9 ∷ key_purpose 1 ∷ []) refl

signature_algorithm_of-FamilyOf_example : FamilyOf standard_oids (child 11) rsa_pkcs1
unfolding signature_algorithm_of starts_with list_eq
signature_algorithm_of-FamilyOf_example =
    signature_algorithm_of-FamilyOf plain standard_oids (algorithm_of (child 11)) rsa_pkcs1 refl

verify_signature-ok_example :
    (a : ℕ) × Selects plain standard_oids echo (algorithm_of (child 1)) (child 11) a
    × (list_eq [] [] ≡ true)
unfolding verify_signature list_eq
verify_signature-ok_example =
    verify_signature-ok plain standard_oids echo sample_tbs.subject_pki (algorithm_of (child 11))
      sample.signature_value [] refl

-- Two locations of one method, and one of another.
abbrev access : AuthorityInfoAccess
access = record {
  accessdescs =
      record { access_method = id_ce 1; access_location = dns_name (codes "a") }
      ∷ record { access_method = id_ce 2; access_location = dns_name (codes "b") }
      ∷ record { access_method = id_ce 1; access_location = dns_name (codes "c") }
      ∷ [];
}

access_hashmap-values_of_example :
    map_get (id_ce 1) (access_hashmap access)
    ≡ some (dns_name (codes "a") ∷ dns_name (codes "c") ∷ [])
unfolding filter list_eq
access_hashmap-values_of_example = access_hashmap-values_of access (id_ce 1)

abbrev mapped_policies : PolicyMappings
mapped_policies = record {
  mappings = record { issuer_domain_policy = id_ce 1; subject_domain_policy = id_ce 2 } ∷ [];
}

get_crl_number-none_example : get_crl_number standard_oids sample_list ≡ none
unfolding parse_extension extension_parsers extension_parser_entries inserted_from map_insert
    map_get parse_crl_number list_eq
get_crl_number-none_example =
    get_crl_number-none plain standard_oids sample_list (λ A p f i. refl) refl
      ((whole [], whole (9 ∷ []), refl), tt)

read_serial-format_serial_example : read_serial (format_serial (0 ∷ 255 ∷ [])) ≡ 0 ∷ 255 ∷ []
read_serial-format_serial_example =
    read_serial-format_serial (0 ∷ 255 ∷ []) (omega arith, (omega arith, tt))

abbrev plain_naming : Naming
plain_naming = record { entry = λ _. none; debug = λ _. codes "?"; hexupper = λ _. [] }

abbrev named : Oid → Bytes → AttributeTypeAndValue
named oid content = record {
  attr_type = oid;
  attr_value = record {
    class = universal;
    constructed = false;
    tag = tag_utf8_string;
    content = content;
  };
}

abbrev two_attributes : RelativeDistinguishedName
two_attributes = record { set = named (id_at 3) (65 ∷ []) ∷ named (id_at 10) (66 ∷ []) ∷ [] }

abbrev one_attribute : RelativeDistinguishedName
one_attribute = record { set = named (id_at 6) (67 ∷ []) ∷ [] }

x509name_to_string-sep_between_example :
    x509name_to_string standard_oids plain_naming (two_attributes ∷ one_attribute ∷ [])
    ≡ ok (codes "CN=A + O=B, C=C")
unfolding attribute_text attribute_value_to_string oid2abbrev oid2sn abbrev_map map_get
    inserted_from map_insert list_eq any from_utf8
x509name_to_string-sep_between_example =
    x509name_to_string-sep_between standard_oids plain_naming (two_attributes ∷ one_attribute ∷ [])
      ((λ e. cc), ((λ e. cc), tt))

convert-Alike : (e : NomErr BerError) → Alike (plain.err_convert BerError X509Error der e) e
convert-Alike (incomplete n) = refl
convert-Alike (error e) = tt
convert-Alike (failure e) = tt

plain-ErrorBlind : ErrorBlind plain
plain-ErrorBlind = record {
  sequence_alike = λ A B wrap f g h i. h i _;
  complete_alike = λ A p q h i. h i;
  cut_alike = λ A p q h i. h i;
  many0_alike = λ A p q h i. refl;
  all_consuming_alike = λ A p q h i. h i;
  convert_alike = convert-Alike;
}

parse_extension-from_der_example :
    DeepAs plain extended_key_usage
      (whole [])
      (extended_key_usage_from_der plain (whole (1 ∷ [])))
      (parse_extension plain standard_oids (whole []) (whole (1 ∷ [])) (id_ce 37))
unfolding extension_parser_entries list_eq
parse_extension-from_der_example =
    (parse_extension-from_der plain standard_oids (λ A B p f i. refl) plain-ErrorBlind
      (ground arith) (whole []) (whole (1 ∷ []))).6

-- ===== src/Request.antt =====
-- src/certification_request.rs and src/cri_attributes.rs: certification requests and their
-- attributes.
pub mod Attributes
pub mod Requested
use x509_parser.Asn1.{BitString, Oid, Oids, is_context_specific, oid_eq, tag_set}
use x509_parser.Der.{Der}
use x509_parser.Error.{
  BerError, X509Error, ber_type_error, ber_value_error, duplicate_attributes, invalid_attributes,
}
use x509_parser.Extensions.{ParsedExtension, X509Extension}
use x509_parser.Extensions.Dispatch.{parse_extension_sequence}
use x509_parser.OidMap.{distinct_from, inserted_from, map_get}
use x509_parser.Prelude.{
  Bytes, List, Option, Text, [], find, if◌then◌else◌, length, map, none, not, some, take, true,
  ◌&&◌, ◌-◌, ◌==◌, ◌∷◌,
}
use x509_parser.PublicKey.{parsed}
use x509_parser.Result.{IResult, Parser, Result, Slice, err, error, map_err, map_ok, ok, ◌>>=◌}
use x509_parser.X509.{AlgorithmIdentifier, SubjectPublicKeyInfo, X509Name, X509Version}
use x509_parser.X509.Parse.{
  consumed, name_from_der, parse_signature_value, spki_from_der, version_from_der,
}

pub record ChallengePassword : Type 0 where
  pub password : Text

pub record ExtensionRequest : Type 0 where
  pub extensions : List X509Extension

pub data ParsedCriAttribute : Type 0 where
  challenge : ChallengePassword → ParsedCriAttribute
  requested : ExtensionRequest → ParsedCriAttribute
  unsupported_attribute : ParsedCriAttribute

pub record X509CriAttribute : Type 0 where
  pub oid : Oid
  pub value : Bytes
  pub parsed_attribute : ParsedCriAttribute

pub record X509CertificationRequestInfo : Type 0 where
  pub version : X509Version
  pub subject : X509Name
  pub subject_pki : SubjectPublicKeyInfo
  pub attributes : List X509CriAttribute
  pub raw : Bytes

pub record X509CertificationRequest : Type 0 where
  pub certification_request_info : X509CertificationRequestInfo
  pub signature_algorithm : AlgorithmIdentifier
  pub signature_value : BitString

-- `find_attribute`.
unfoldable pub find_attribute : List X509CriAttribute → Oid → Option X509CriAttribute
unfolding find
find_attribute attributes oid = find (λ attr. oid_eq attr.oid oid) attributes

-- `attributes_map`.
unfoldable pub attributes_map :
    List X509CriAttribute → Result X509Error (List (Oid × X509CriAttribute))
unfolding distinct_from
attributes_map = distinct_from (λ attr. attr.oid) duplicate_attributes []

-- `attributes` and `iter_attributes`, and `parsed_attribute`.
unfoldable pub request_attributes : X509CertificationRequestInfo → List X509CriAttribute
request_attributes info = info.attributes

unfoldable pub request_iter_attributes : X509CertificationRequestInfo → List X509CriAttribute
request_iter_attributes info = info.attributes

unfoldable pub attribute_parsed : X509CriAttribute → ParsedCriAttribute
attribute_parsed attr = attr.parsed_attribute

-- The `find_map` of `requested_extensions`.
unfoldable pub first_request : List X509CriAttribute → Option (List ParsedExtension)
first_request [] = none
first_request (attr ∷ attrs) = elim attr.parsed_attribute [
  | requested request ↦ some (map (λ ext. ext.parsed_extension) request.extensions)
  | challenge _ ↦ first_request attrs
  | unsupported_attribute ↦ first_request attrs
]

unfoldable pub requested_extensions : X509CertificationRequest → Option (List ParsedExtension)
unfolding first_request
requested_extensions csr = first_request csr.certification_request_info.attributes

module _ (d : Der) (oids : Oids) where
  -- `parse_extension_request`.
  unfoldable pub parse_extension_request : Parser X509Error ExtensionRequest
  parse_extension_request i =
      map_ok (λ (i1, extensions). (i1, record { extensions = extensions }))
        (parse_extension_sequence d oids true i)

  -- `ExtensionRequest::from_der`.
  unfoldable pub extension_request_from_der : Parser X509Error ExtensionRequest
  unfolding parse_extension_request
  extension_request_from_der i =
      map_err (d.err_convert X509Error X509Error (λ e. e)) (parse_extension_request i)

  unfoldable pub parse_challenge_password : Parser X509Error ChallengePassword
  parse_challenge_password i = do
    (rem, obj) ←
        map_err (λ _. error invalid_attributes)
          (d.alt d.Obj
            (d.parse_der_utf8string ∷ d.parse_der_printablestring ∷ d.parse_der_universalstring
              ∷ d.parse_der_bmpstring ∷ d.parse_der_t61string ∷ [])
            i)
    s ← map_err (λ _. error invalid_attributes) (d.obj_str obj)
    ok (rem, record { password = s })

  abbrev pub parse_extension_request_attr : Parser X509Error ParsedCriAttribute
  parse_extension_request_attr =
      d.nom_map X509Error ExtensionRequest ParsedCriAttribute parse_extension_request requested

  abbrev pub parse_challenge_password_attr : Parser X509Error ParsedCriAttribute
  parse_challenge_password_attr =
      d.nom_map X509Error ChallengePassword ParsedCriAttribute parse_challenge_password challenge

  -- `ATTRIBUTE_PARSERS`.
  unfoldable pub attribute_parsers : List (Oid × Parser X509Error ParsedCriAttribute)
  attribute_parsers = inserted_from [] (
      (oids.extension_request, parse_extension_request_attr)
      ∷ (oids.challenge_password, parse_challenge_password_attr)
      ∷ [])

  unfoldable pub parse_attribute : Slice → Oid → IResult X509Error ParsedCriAttribute
  parse_attribute i oid = elim (map_get oid attribute_parsers) [
    | some parser ↦ parser i
    | none ↦ ok (i, unsupported_attribute)
  ]

  -- The body of the sequence that `X509CriAttribute::from_der` reads.
  unfoldable pub attribute_content : Parser BerError X509CriAttribute
  attribute_content i = do
    (value_start, oid) ← d.oid_from_der i
    (i1, hdr) ← d.header_from_der value_start
    if not (hdr.tag == tag_set) then err (error ber_type_error) else (do
      (i2, parsed) ← map_err (λ _. error ber_value_error) (parse_attribute i1 oid)
      ok (
        i2,
        record {
          oid = oid;
          value = take (length value_start.bytes - length i2.bytes) value_start.bytes;
          parsed_attribute = parsed;
        },
      ))

  -- `X509CriAttribute::from_der`.
  unfoldable pub cri_attribute_from_der : Parser X509Error X509CriAttribute
  cri_attribute_from_der i =
      map_err (λ _. error invalid_attributes)
        (d.sequence_and_then X509CriAttribute attribute_content i)

  unfoldable pub parse_cri_attributes : Parser X509Error (List X509CriAttribute)
  parse_cri_attributes i = do
    (i1, hdr) ← map_err (λ _. error invalid_attributes) (d.header_from_der i)
    if is_context_specific hdr.class && hdr.tag == 0
        then d.all_consuming X509Error (List X509CriAttribute)
            (d.many0 X509Error X509CriAttribute
              (d.complete X509Error X509CriAttribute cri_attribute_from_der))
            i1
        else err (error invalid_attributes)

  -- `X509CertificationRequestInfo::from_der`.
  unfoldable pub request_info_from_der : Parser X509Error X509CertificationRequestInfo
  request_info_from_der start_i =
      d.sequence_g X509Error X509CertificationRequestInfo
        (λ i _. do
          (i1, version) ← version_from_der d i
          (i2, subject) ← name_from_der d i1
          (i3, subject_pki) ← spki_from_der d i2
          (i4, attributes) ← parse_cri_attributes i3
          ok (
            i4,
            record {
              version = version;
              subject = subject;
              subject_pki = subject_pki;
              attributes = attributes;
              raw = consumed start_i i4;
            },
          ))
        start_i

  -- `X509CertificationRequest::from_der`.
  unfoldable pub request_from_der : Parser X509Error X509CertificationRequest
  request_from_der = d.sequence_g X509Error X509CertificationRequest λ i _. do
    (i1, info) ← request_info_from_der i
    (i2, signature_algorithm) ← d.algorithm_from_der i1
    (i3, signature_value) ← parse_signature_value d i2
    ok (
      i3,
      record {
        certification_request_info = info;
        signature_algorithm = signature_algorithm;
        signature_value = signature_value;
      },
    )

-- ===== src/Certificate/Parse.antt =====
-- src/certificate.rs and src/time.rs: the parsers of a certificate.
use x509_parser.Asn1.{Oids, tag_utc_time}
use x509_parser.Certificate.{TbsCertificate, UniqueIdentifier, Validity, X509Certificate}
use x509_parser.Der.{Der}
use x509_parser.Error.{
  BerError, X509Error, ber_value_error, invalid_date, invalid_issuer_uid, invalid_length,
  invalid_subject_uid, invalid_tag, unexpected_tag,
}
use x509_parser.Extensions.Dispatch.{parse_extensions}
use x509_parser.Prelude.{Bool, Option, if◌then◌else◌, is_empty, ltb, none, some, ℕ, ◌==◌}
use x509_parser.Result.{IResult, NomErr, Parser, Slice, err, error, map_err, ok, ok_or, ◌>>=◌}
use x509_parser.Time.{Asn1Time}
use x509_parser.X509.Parse.{
  consumed, name_from_der, parse_serial, parse_signature_value, spki_from_der,
  version_from_der_tagged_0,
}

module _ (d : Der) where
  unfoldable pub parse_malformed_date : Slice → IResult BerError Asn1Time
  parse_malformed_date i = do
    (_, hdr) ← d.header_from_der i
    len ← ok_or (error invalid_length) hdr.definite
    if ltb d.max_object_size len
        then err (error invalid_length)
        else if hdr.tag == tag_utc_time
        then err (error ber_value_error)
        else err (error (unexpected_tag none hdr.tag))

  unfoldable pub parse_choice_of_time : Parser BerError Asn1Time
  parse_choice_of_time i = elim (d.utc_time_from_der i) [
    | ok (rem, t) ↦ map_err error (d.utc_adjusted_datetime t) >>= λ dt. ok (rem, dt)
    | err _ ↦ elim (d.generalized_time_from_der i) [
      | ok (rem, t) ↦ map_err error (d.utc_datetime t) >>= λ dt. ok (rem, dt)
      | err _ ↦ parse_malformed_date i
    ]
  ]

  -- `ASN1Time::from_der`.
  unfoldable pub time_from_der : Parser X509Error Asn1Time
  time_from_der i = map_err (λ _. error invalid_date) (parse_choice_of_time i)

  -- The `match` of `from_der_opt` on the error: a wrong tag means no time.
  unfoldable pub absent_time : Slice → NomErr BerError → IResult X509Error (Option Asn1Time)
  absent_time i (error invalid_tag) = ok (i, none)
  absent_time i (error (unexpected_tag _ _)) = ok (i, none)
  absent_time i _ = err (error invalid_date)

  -- `ASN1Time::from_der_opt`.
  unfoldable pub time_from_der_opt : Parser X509Error (Option Asn1Time)
  time_from_der_opt i = if is_empty i.bytes then ok (i, none) else elim (parse_choice_of_time i) [
    | ok (rem, dt) ↦ ok (rem, some dt)
    | err e ↦ absent_time i e
  ]

  -- `Validity::from_der`.
  unfoldable pub validity_from_der : Parser X509Error Validity
  validity_from_der = d.sequence_g X509Error Validity λ i _. do
    (i1, not_before) ← time_from_der i
    (i2, not_after) ← time_from_der i1
    ok (i2, record { not_before = not_before; not_after = not_after })

  -- `UniqueIdentifier::parse`.
  unfoldable pub unique_id_parse : ℕ → Parser BerError (Option UniqueIdentifier)
  unique_id_parse tag i = do
    (rem, unique_id) ← d.opt_explicit_bitstring tag i
    ok (rem, elim unique_id [ none ↦ none | some u ↦ some (record { bits = u }) ])

  module _ (oids : Oids) where
    -- The body of the sequence of a `TbsCertificate`: `TbsCertificateParser::parse` with its flag
    -- `deep_parse_extensions`, and `TbsCertificate::from_der` where the flag is set.
    unfoldable pub tbs_content : Bool → Slice → Slice → IResult X509Error TbsCertificate
    tbs_content deep start_i i = do
      (i1, version) ← version_from_der_tagged_0 d i
      (i2, serial) ← parse_serial d i1
      (i3, signature) ← d.algorithm_from_der i2
      (i4, issuer) ← name_from_der d i3
      (i5, validity) ← validity_from_der i4
      (i6, subject) ← name_from_der d i5
      (i7, subject_pki) ← spki_from_der d i6
      (i8, issuer_uid) ← map_err (λ _. error invalid_issuer_uid) (unique_id_parse 1 i7)
      (i9, subject_uid) ← map_err (λ _. error invalid_subject_uid) (unique_id_parse 2 i8)
      (i10, extensions) ← parse_extensions d oids deep 3 i9
      ok (
        i10,
        record {
          version = version;
          serial = serial.1;
          signature = signature;
          issuer = issuer;
          validity = validity;
          subject = subject;
          subject_pki = subject_pki;
          issuer_uid = issuer_uid;
          subject_uid = subject_uid;
          extensions = extensions;
          raw = consumed start_i i10;
          raw_serial = serial.0;
        },
      )

    unfoldable pub tbs_parse : Bool → Parser X509Error TbsCertificate
    tbs_parse deep start_i =
        d.sequence_g X509Error TbsCertificate (λ i _. tbs_content deep start_i i) start_i

    -- `X509CertificateParser::parse`, with its flag, and `X509Certificate::from_der` where it is
    -- set.
    unfoldable pub certificate_parse : Bool → Parser X509Error X509Certificate
    certificate_parse deep = d.sequence_g X509Error X509Certificate λ i _. do
      (i1, tbs_certificate) ← tbs_parse deep i
      (i2, signature_algorithm) ← d.algorithm_from_der i1
      (i3, signature_value) ← parse_signature_value d i2
      ok (
        i3,
        record {
          tbs_certificate = tbs_certificate;
          signature_algorithm = signature_algorithm;
          signature_value = signature_value;
        },
      )

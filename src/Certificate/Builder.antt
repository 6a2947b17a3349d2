-- ===== src/Certificate/Builder.antt =====
-- src/certificate.rs: the parser objects with their option, and the `FromDer` implementations.
use x509_parser.Asn1.{Oids}
use x509_parser.Certificate.{TbsCertificate, UniqueIdentifier, X509Certificate}
use x509_parser.Certificate.Parse.{
  certificate_parse, tbs_content, tbs_parse, unique_id_parse, validity_from_der,
}
use x509_parser.Der.{Der}
use x509_parser.Error.{X509Error, invalid_issuer_uid, invalid_subject_uid}
use x509_parser.Extensions.Dispatch.{parse_extensions}
use x509_parser.Prelude.{Bool, Option, refl, true, ◌≡◌}
use x509_parser.Result.{Parser, Slice, error, map_err, ok, ◌>>=◌}
use x509_parser.X509.Parse.{
  consumed, name_from_der, parse_serial, spki_from_der, version_from_der_tagged_0,
}

-- `X509CertificateParser` and `TbsCertificateParser`.
pub record X509CertificateParser : Type 0 where
  pub deep_parse_extensions : Bool

pub record TbsCertificateParser : Type 0 where
  pub deep_parse_extensions : Bool

unfoldable pub certificate_parser : X509CertificateParser
certificate_parser = record { deep_parse_extensions = true }

unfoldable pub certificate_parser_with : X509CertificateParser → Bool → X509CertificateParser
certificate_parser_with self deep = record { deep_parse_extensions = deep }

unfoldable pub tbs_parser : TbsCertificateParser
tbs_parser = record { deep_parse_extensions = true }

unfoldable pub tbs_parser_with : TbsCertificateParser → Bool → TbsCertificateParser
tbs_parser_with self deep = record { deep_parse_extensions = deep }

module _ (d : Der) (oids : Oids) where
  -- `X509Certificate::from_der`.
  unfoldable pub certificate_from_der : Parser X509Error X509Certificate
  unfolding certificate_parser
  certificate_from_der = certificate_parse d oids certificate_parser.deep_parse_extensions

  -- `UniqueIdentifier::from_der_issuer` and `from_der_subject`.
  unfoldable pub unique_id_from_der_issuer : Parser X509Error (Option UniqueIdentifier)
  unique_id_from_der_issuer i = map_err (λ _. error invalid_issuer_uid) (unique_id_parse d 1 i)

  unfoldable pub unique_id_from_der_subject : Parser X509Error (Option UniqueIdentifier)
  unique_id_from_der_subject i = map_err (λ _. error invalid_subject_uid) (unique_id_parse d 2 i)

  -- `TbsCertificate::from_der`.
  unfoldable pub tbs_from_der : Parser X509Error TbsCertificate
  unfolding unique_id_from_der_issuer unique_id_from_der_subject
  tbs_from_der start_i =
      d.sequence_g X509Error TbsCertificate
        (λ i _. do
          (i1, version) ← version_from_der_tagged_0 d i
          (i2, serial) ← parse_serial d i1
          (i3, signature) ← d.algorithm_from_der i2
          (i4, issuer) ← name_from_der d i3
          (i5, validity) ← validity_from_der d i4
          (i6, subject) ← name_from_der d i5
          (i7, subject_pki) ← spki_from_der d i6
          (i8, issuer_uid) ← unique_id_from_der_issuer i7
          (i9, subject_uid) ← unique_id_from_der_subject i8
          (i10, extensions) ← parse_extensions d oids true 3 i9
          ok (
            i10,
            record {
              version = version;
              serial = serial.1;
              signature = signature;
              issuer = issuer;
              validity = validity;
              subject = subject;
              subject_pki = subject_pki;
              issuer_uid = issuer_uid;
              subject_uid = subject_uid;
              extensions = extensions;
              raw = consumed start_i i10;
              raw_serial = serial.0;
            },
          ))
        start_i

  -- The signed part of a certificate is parsed alike by its `FromDer` and by its parser object.
  tbs_from_der-tbs_parse :
      (i : Slice) → tbs_from_der i ≡ tbs_parse d oids tbs_parser.deep_parse_extensions i
  unfolding tbs_from_der tbs_parse tbs_content tbs_parser
  tbs_from_der-tbs_parse i = refl

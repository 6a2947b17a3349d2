-- ===== src/RevocationList.antt =====
-- src/revocation_list.rs: certificate revocation lists.
pub mod Number
pub mod Entries
pub mod Reason
pub mod Fields
use x509_parser.Asn1.{BitString, Oids}
use x509_parser.Certificate.{find_extension}
use x509_parser.Certificate.Parse.{time_from_der, time_from_der_opt}
use x509_parser.Der.{Der}
use x509_parser.Error.{BerError, X509Error, invalid_version}
use x509_parser.Extensions.{
  ParsedExtension, X509Extension, crl_number, invalidity_date, reason_code,
}
use x509_parser.Extensions.Dispatch.{parse_extension_sequence, parse_extensions}
use x509_parser.Prelude.{Bool, Bytes, List, Option, [], none, some, true, ℕ}
use x509_parser.Result.{Parser, error, map_err, ok, ◌>>=◌}
use x509_parser.Time.{Asn1Time}
use x509_parser.X509.{AlgorithmIdentifier, ReasonCode, X509Name, X509Version}
use x509_parser.X509.Parse.{consumed, name_from_der, parse_serial, parse_signature_value}

pub record RevokedCertificate : Type 0 where
  pub user_certificate : ℕ
  pub revocation_date : Asn1Time
  pub extensions : List X509Extension
  pub raw_serial : Bytes

pub record TbsCertList : Type 0 where
  pub version : Option X509Version
  pub signature : AlgorithmIdentifier
  pub issuer : X509Name
  pub this_update : Asn1Time
  pub next_update : Option Asn1Time
  pub revoked_certificates : List RevokedCertificate
  pub extensions : List X509Extension
  pub raw : Bytes

pub record CertificateRevocationList : Type 0 where
  pub tbs_cert_list : TbsCertList
  pub signature_algorithm : AlgorithmIdentifier
  pub signature_value : BitString

abbrev pub number_of : ParsedExtension → Option ℕ
number_of (crl_number num) = some num
number_of _ = none

abbrev pub reason_of : ParsedExtension → Option ReasonCode
reason_of (reason_code code) = some code
reason_of _ = none

abbrev pub date_of : ParsedExtension → Option Asn1Time
date_of (invalidity_date date) = some date
date_of _ = none

-- The value of an extension that is found, with its critical flag, where it is of the kind.
abbrev pub flagged :
    {T : Type 0} → (ParsedExtension → Option T) → Option X509Extension → Option (Bool × T)
flagged kind none = none
flagged kind (some ext) = elim (kind ext.parsed_extension) [
  | some v ↦ some (ext.critical, v)
  | none ↦ none
]

module _ (oids : Oids) where
  -- `crl_number`, which looks for the identifier of the basic constraints.
  unfoldable pub get_crl_number : CertificateRevocationList → Option ℕ
  unfolding find_extension
  get_crl_number crl = elim (find_extension crl.tbs_cert_list.extensions oids.basic_constraints) [
    | some ext ↦ number_of ext.parsed_extension
    | none ↦ none
  ]

  unfoldable pub get_reason_code : RevokedCertificate → Option (Bool × ReasonCode)
  unfolding find_extension
  get_reason_code revoked = flagged reason_of (find_extension revoked.extensions oids.reason_code)

  unfoldable pub get_invalidity_date : RevokedCertificate → Option (Bool × Asn1Time)
  unfolding find_extension
  get_invalidity_date revoked =
      flagged date_of (find_extension revoked.extensions oids.invalidity_date)

module _ (d : Der) (oids : Oids) where
  -- `RevokedCertificate::from_der`.
  unfoldable pub revoked_from_der : Parser X509Error RevokedCertificate
  revoked_from_der = d.sequence_g X509Error RevokedCertificate λ i _. do
    (i1, (raw_serial, user_certificate)) ← parse_serial d i
    (i2, revocation_date) ← time_from_der d i1
    (i3, extensions) ←
        d.opt X509Error (List X509Extension)
          (d.complete X509Error (List X509Extension) (parse_extension_sequence d oids true)) i2
    ok (
      i3,
      record {
        user_certificate = user_certificate;
        revocation_date = revocation_date;
        extensions = elim extensions [ none ↦ [] | some exts ↦ exts ];
        raw_serial = raw_serial;
      },
    )

  unfoldable pub parse_revoked_certificates : Parser X509Error (List RevokedCertificate)
  parse_revoked_certificates = d.sequence_g X509Error (List RevokedCertificate) λ a _.
      d.all_consuming X509Error (List RevokedCertificate)
        (d.many0 X509Error RevokedCertificate
          (d.complete X509Error RevokedCertificate revoked_from_der))
        a

  -- `TbsCertList::from_der`.
  unfoldable pub tbs_list_from_der : Parser X509Error TbsCertList
  tbs_list_from_der start_i =
      d.sequence_g X509Error TbsCertList
        (λ i _. do
          (i1, version) ←
              map_err (λ _. error invalid_version)
                (d.opt BerError X509Version
                  (d.nom_map BerError ℕ X509Version d.u32_from_der (λ v. record { value = v })) i)
          (i2, signature) ← d.algorithm_from_der i1
          (i3, issuer) ← name_from_der d i2
          (i4, this_update) ← time_from_der d i3
          (i5, next_update) ← time_from_der_opt d i4
          (i6, revoked) ←
              d.opt X509Error (List RevokedCertificate)
                (d.complete X509Error (List RevokedCertificate) parse_revoked_certificates) i5
          (i7, extensions) ← parse_extensions d oids true 0 i6
          ok (
            i7,
            record {
              version = version;
              signature = signature;
              issuer = issuer;
              this_update = this_update;
              next_update = next_update;
              revoked_certificates = elim revoked [ none ↦ [] | some r ↦ r ];
              extensions = extensions;
              raw = consumed start_i i7;
            },
          ))
        start_i

  -- `CertificateRevocationList::from_der`.
  unfoldable pub list_from_der : Parser X509Error CertificateRevocationList
  list_from_der = d.sequence_g X509Error CertificateRevocationList λ i _. do
    (i1, tbs_cert_list) ← tbs_list_from_der i
    (i2, signature_algorithm) ← d.algorithm_from_der i1
    (i3, signature_value) ← parse_signature_value d i2
    ok (
      i3,
      record {
        tbs_cert_list = tbs_cert_list;
        signature_algorithm = signature_algorithm;
        signature_value = signature_value;
      },
    )

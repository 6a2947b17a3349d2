-- ===== src/Certificate/Fields.antt =====
-- src/certificate.rs: the fields of a certificate as its methods return them. The methods of a
-- `TbsCertificate` are those of a certificate too, by its `Deref`.
use x509_parser.Asn1.{Oid}
use x509_parser.Certificate.{
  BasicExtension, TbsCertificate, Validity, X509Certificate, get_extension_unique,
}
use x509_parser.Error.{X509Error}
use x509_parser.Extensions.{X509Extension}
use x509_parser.Prelude.{Bool, Bytes, List, Option}
use x509_parser.Result.{Result}
use x509_parser.X509.{SubjectPublicKeyInfo, X509Name, X509Version}

unfoldable pub tbs_of : X509Certificate → TbsCertificate
tbs_of cert = cert.tbs_certificate

-- `BasicExtension::new`.
unfoldable pub basic_extension_new : {T : Type 0} → Bool → T → BasicExtension T
basic_extension_new critical value = record { critical = critical; value = value }

module _ (tbs : TbsCertificate) where
  unfoldable pub get_version : X509Version
  get_version = tbs.version

  unfoldable pub get_subject : X509Name
  get_subject = tbs.subject

  unfoldable pub get_issuer : X509Name
  get_issuer = tbs.issuer

  unfoldable pub get_validity : Validity
  get_validity = tbs.validity

  unfoldable pub get_public_key : SubjectPublicKeyInfo
  get_public_key = tbs.subject_pki

  unfoldable pub get_extensions : List X509Extension
  get_extensions = tbs.extensions

  unfoldable pub get_iter_extensions : List X509Extension
  get_iter_extensions = tbs.extensions

  -- The method `get_extension_unique`, over the free function.
  unfoldable pub tbs_extension_unique : Oid → Result X509Error (Option X509Extension)
  unfolding get_extension_unique
  tbs_extension_unique oid = get_extension_unique tbs.extensions oid

  unfoldable pub get_raw_serial : Bytes
  get_raw_serial = tbs.raw_serial

  -- `as_ref`.
  unfoldable pub tbs_as_ref : Bytes
  tbs_as_ref = tbs.raw

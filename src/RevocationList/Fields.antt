-- ===== src/RevocationList/Fields.antt =====
-- src/revocation_list.rs: the fields of a list and of a revoked certificate as their methods return
-- them.
use x509_parser.Extensions.{X509Extension}
use x509_parser.Prelude.{Bytes, List, Option, ℕ}
use x509_parser.RevocationList.{CertificateRevocationList, RevokedCertificate, TbsCertList}
use x509_parser.X509.{X509Name, X509Version}

module _ (crl : CertificateRevocationList) where
  unfoldable pub list_version : Option X509Version
  list_version = crl.tbs_cert_list.version

  unfoldable pub list_issuer : X509Name
  list_issuer = crl.tbs_cert_list.issuer

  unfoldable pub list_extensions : List X509Extension
  list_extensions = crl.tbs_cert_list.extensions

module _ (tbs : TbsCertList) where
  unfoldable pub tbs_list_extensions : List X509Extension
  tbs_list_extensions = tbs.extensions

  unfoldable pub tbs_list_iter_extensions : List X509Extension
  tbs_list_iter_extensions = tbs.extensions

  -- `as_ref`.
  unfoldable pub tbs_list_as_ref : Bytes
  tbs_list_as_ref = tbs.raw

module _ (revoked : RevokedCertificate) where
  unfoldable pub revoked_serial : ℕ
  revoked_serial = revoked.user_certificate

  unfoldable pub revoked_extensions : List X509Extension
  revoked_extensions = revoked.extensions

  unfoldable pub revoked_iter_extensions : List X509Extension
  revoked_iter_extensions = revoked.extensions

  unfoldable pub revoked_raw_serial : Bytes
  revoked_raw_serial = revoked.raw_serial

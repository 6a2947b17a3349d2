-- ===== src/Root.antt =====
-- src/lib.rs: the entry points of the crate.
use x509_parser.Asn1.{Oids}
use x509_parser.Certificate.{X509Certificate}
use x509_parser.Certificate.Builder.{certificate_from_der}
use x509_parser.Der.{Der}
use x509_parser.Error.{X509Error}
use x509_parser.Result.{Parser}
use x509_parser.RevocationList.{CertificateRevocationList, list_from_der}

module _ (d : Der) (oids : Oids) where
  unfoldable pub parse_x509_certificate : Parser X509Error X509Certificate
  parse_x509_certificate = certificate_from_der d oids

  unfoldable pub parse_x509_crl : Parser X509Error CertificateRevocationList
  parse_x509_crl = list_from_der d oids

  -- The two that are deprecated.
  unfoldable pub parse_x509_der : Parser X509Error X509Certificate
  parse_x509_der = certificate_from_der d oids

  unfoldable pub parse_crl_der : Parser X509Error CertificateRevocationList
  parse_crl_der = list_from_der d oids

-- ===== src/RevocationList/Entries.antt =====
-- src/revocation_list.rs: the lookups in the extensions of a list and of a revoked certificate.
use x509_parser.Asn1.{Oid}
use x509_parser.Certificate.{extensions_map, find_extension}
use x509_parser.Error.{X509Error}
use x509_parser.Extensions.{X509Extension}
use x509_parser.Prelude.{List, Option, Text}
use x509_parser.Result.{Result}
use x509_parser.RevocationList.{CertificateRevocationList, RevokedCertificate, TbsCertList}
use x509_parser.Time.{Asn1Time}
use x509_parser.Utils.{format_serial}

-- `TbsCertList::find_extension`.
unfoldable pub list_find_extension : TbsCertList → Oid → Option X509Extension
unfolding find_extension
list_find_extension tbs oid = find_extension tbs.extensions oid

-- `TbsCertList::extensions_map`.
unfoldable pub list_extensions_map : TbsCertList → Result X509Error (List (Oid × X509Extension))
unfolding extensions_map
list_extensions_map tbs = extensions_map tbs.extensions

-- `RevokedCertificate::find_extension`.
unfoldable pub revoked_find_extension : RevokedCertificate → Oid → Option X509Extension
unfolding find_extension
revoked_find_extension revoked oid = find_extension revoked.extensions oid

-- `RevokedCertificate::extensions_map`.
unfoldable pub revoked_extensions_map :
    RevokedCertificate → Result X509Error (List (Oid × X509Extension))
unfolding extensions_map
revoked_extensions_map revoked = extensions_map revoked.extensions

-- `RevokedCertificate::raw_serial_as_string`.
unfoldable pub revoked_serial_as_string : RevokedCertificate → Text
revoked_serial_as_string revoked = format_serial revoked.raw_serial

-- `CertificateRevocationList::iter_revoked_certificates`.
unfoldable pub iter_revoked_certificates : CertificateRevocationList → List RevokedCertificate
iter_revoked_certificates crl = crl.tbs_cert_list.revoked_certificates

-- The fields of a list.
unfoldable pub last_update : CertificateRevocationList → Asn1Time
last_update crl = crl.tbs_cert_list.this_update

unfoldable pub next_update_of : CertificateRevocationList → Option Asn1Time
next_update_of crl = crl.tbs_cert_list.next_update

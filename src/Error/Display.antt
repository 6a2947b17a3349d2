-- ===== src/Error/Display.antt =====
-- src/error.rs: the texts of the errors, which the attributes of the types give. The text of a
-- `BerError`, `{:?}` of an `ErrorKind` and the text of an I/O error are parameters.
use x509_parser.Error.{
  BerError, PemError, X509Error, base64_decode_error, der, duplicate_attributes,
  duplicate_extensions, generic, incomplete_pem, invalid_algorithm_identifier, invalid_attributes,
  invalid_certificate, invalid_date, invalid_extensions, invalid_header, invalid_issuer_uid,
  invalid_number, invalid_serial, invalid_signature_value, invalid_spki, invalid_subject_uid,
  invalid_tbs_certificate, invalid_user_certificate, invalid_version, invalid_x509_name, io_error,
  missing_header, nom_error, signature_unsupported_algorithm, signature_verification_error,
}
use x509_parser.Prelude.{Text, codes, ℕ, ◌++◌}

unfoldable pub x509_error_display : (BerError → Text) → (ℕ → Text) → X509Error → Text
x509_error_display ber kind generic = codes "generic error"
x509_error_display ber kind invalid_version = codes "invalid version"
x509_error_display ber kind invalid_serial = codes "invalid serial"
x509_error_display ber kind invalid_algorithm_identifier = codes "invalid algorithm identifier"
x509_error_display ber kind invalid_x509_name = codes "invalid X.509 name"
x509_error_display ber kind invalid_date = codes "invalid date"
x509_error_display ber kind invalid_spki = codes "invalid X.509 Subject Public Key Info"
x509_error_display ber kind invalid_subject_uid = codes "invalid X.509 Subject Unique ID"
x509_error_display ber kind invalid_issuer_uid = codes "invalid X.509 Issuer Unique ID"
x509_error_display ber kind invalid_extensions = codes "invalid extensions"
x509_error_display ber kind invalid_attributes = codes "invalid attributes"
x509_error_display ber kind duplicate_extensions = codes "duplicate extensions"
x509_error_display ber kind duplicate_attributes = codes "duplicate attributes"
x509_error_display ber kind invalid_signature_value = codes "invalid Signature DER Value"
x509_error_display ber kind invalid_tbs_certificate = codes "invalid TBS certificate"
x509_error_display ber kind invalid_user_certificate = codes "invalid User certificate"
x509_error_display ber kind invalid_certificate = codes "invalid certificate"
x509_error_display ber kind signature_verification_error = codes "signature verification error"
x509_error_display ber kind signature_unsupported_algorithm =
    codes "signature unsupported algorithm"
x509_error_display ber kind invalid_number = codes "invalid number"
x509_error_display ber kind (der e) = codes "BER error: " ++ ber e
x509_error_display ber kind (nom_error k) = codes "nom error: " ++ kind k

unfoldable pub pem_error_display : Text → PemError → Text
pem_error_display io base64_decode_error = codes "base64 decode error"
pem_error_display io incomplete_pem = codes "incomplete PEM"
pem_error_display io invalid_header = codes "invalid header"
pem_error_display io missing_header = codes "missing header"
pem_error_display io io_error = codes "IO error: " ++ io

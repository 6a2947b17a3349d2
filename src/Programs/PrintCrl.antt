-- ===== src/Programs/PrintCrl.antt =====
-- examples/print-crl.rs: the printing of revocation lists, and the program. `print_hex_dump` and
-- `format_oid` are those of examples/print-cert.rs.
use x509_parser.Asn1.{Oid}
use x509_parser.Console.{Program, Script, abort, each, println, pure, put, when_some, ◌>>=◌, ◌>>◌}
use x509_parser.Extensions.{
  AuthorityKeyIdentifier, ParsedExtension, X509Extension, authority_key_identifier, crl_number,
  invalidity_date, reason_code,
}
use x509_parser.Extensions.Separate.{key_identifier_lower_hex}
use x509_parser.Format.{bool_text, decimal, spaces}
use x509_parser.Objects.{name_display}
use x509_parser.Pem.{parse_x509_pem}
use x509_parser.Prelude.{
  Bool, Bytes, List, Option, Text, [], codes, if◌then◌else◌, length, none, some, ℕ, ◌&&◌, ◌++◌, ◌+◌,
  ◌==◌, ◌∷◌,
}
use x509_parser.Programs.{Host, format_oid, print_hex_dump}
use x509_parser.Programs.Algorithms.{indented}
use x509_parser.Result.{err, ok, whole}
use x509_parser.RevocationList.{CertificateRevocationList, RevokedCertificate}
use x509_parser.RevocationList.Entries.{
  iter_revoked_certificates, last_update, next_update_of, revoked_serial_as_string,
}
use x509_parser.Root.{parse_x509_crl}
use x509_parser.Time.{Asn1Time}
use x509_parser.Utils.{format_serial}
use x509_parser.X509.{AlgorithmIdentifier, v1}

module _ (h : Host) where
  -- `unimplemented!()` where there is an issuer.
  unfoldable pub print_authority_key_identifier : AuthorityKeyIdentifier → ℕ → Script
  print_authority_key_identifier aki level = do
    when_some aki.key_identifier
        λ id. indented level (codes "keyid: " ++ key_identifier_lower_hex id)
    when_some aki.authority_cert_issuer λ _. abort
    when_some aki.authority_cert_serial
        λ serial. indented level (codes "serial: " ++ format_serial serial)

  -- The last arm of the `match`: any other parsed extension.
  unfoldable pub print_other_extension : Oid → X509Extension → ℕ → Script
  print_other_extension oid ext level = do
    put (spaces level ++ format_oid h oid ++ codes ":")
    put (codes " Critical=" ++ bool_text ext.critical)
    put (codes " len=" ++ decimal (length ext.value))
    println []
    println (codes " " ++ spaces level ++ h.parsed_debug ext.parsed_extension)

  -- The `match`, with the last arm as an argument.
  unfoldable pub print_crl_parsed : ParsedExtension → Script → ℕ → Script
  unfolding print_authority_key_identifier
  print_crl_parsed (crl_number num) otherwise level =
      indented level (codes "X509v3 CRL Number: " ++ decimal num)
  print_crl_parsed (reason_code code) otherwise level =
      indented level (codes "X509v3 CRL Reason Code: " ++ h.reason_text code)
  print_crl_parsed (invalidity_date date) otherwise level =
      indented level (codes "Invalidity Date: " ++ h.time_text date)
  print_crl_parsed (authority_key_identifier aki) otherwise level = do
    indented level (codes "X509v3 Authority Key Identifier:")
    print_authority_key_identifier aki (level + 2)
  print_crl_parsed _ otherwise level = otherwise

  unfoldable pub print_crl_extension : Oid → X509Extension → ℕ → Script
  unfolding print_other_extension print_crl_parsed
  print_crl_extension oid ext level =
      print_crl_parsed ext.parsed_extension (print_other_extension oid ext level) level

  unfoldable pub print_crl_algorithm : AlgorithmIdentifier → ℕ → Script
  print_crl_algorithm alg level = do
    indented level (codes "Oid: " ++ format_oid h alg.algorithm)
    elim alg.parameters [
      | none ↦ indented level (codes "Parameter: <ABSENT>")
      | some parameter ↦ do
        indented level (codes "Parameter: <PRESENT> " ++ h.tag_debug parameter.tag)
        print_hex_dump h parameter.content 32
    ]

  unfoldable pub print_revoked_certificate : RevokedCertificate → ℕ → Script
  print_revoked_certificate revoked level = do
    indented level (codes "Serial number: " ++ revoked_serial_as_string revoked)
    indented (level + 2) (codes "Revocation Date: " ++ h.time_text revoked.revocation_date)
    indented (level + 2) (codes "CRL Extensions:")
    each (λ ext. print_crl_extension ext.oid ext (level + 4)) revoked.extensions

  -- `map_or_else(|| "NONE".to_string(), |d| d.to_string())`.
  unfoldable pub next_update_text : Option Asn1Time → Text
  next_update_text none = codes "NONE"
  next_update_text (some d) = h.time_text d

  unfoldable pub print_crl_info : CertificateRevocationList → Script
  unfolding next_update_text
  print_crl_info crl = do
    let tbs = crl.tbs_cert_list
    println (codes "  Version: " ++ h.version_text (elim tbs.version [ some v ↦ v | none ↦ v1 ]))
    println (codes "  Signature Algorithm:")
    print_crl_algorithm crl.signature_algorithm 4
    println (codes "  Issuer: " ++ name_display h.oids h.naming tbs.issuer)
    println (codes "  Last Update: " ++ h.time_text (last_update crl))
    println (codes "  Next Update: " ++ next_update_text (next_update_of crl))
    indented 2 (codes "CRL Extensions:")
    each (λ ext. print_crl_extension ext.oid ext 4) tbs.extensions
    println (codes "  Revoked certificates:")
    each (λ revoked. print_revoked_certificate revoked 4) (iter_revoked_certificates crl)
    println []

  -- `(data[0], data[1]) == (0x30, 0x82)`, which indexes two bytes.
  unfoldable pub is_der_list : Bytes → Program Bool
  is_der_list (b0 ∷ b1 ∷ bs) = pure (b0 == 0x30 && b1 == 0x82)
  is_der_list _ = abort

  -- `parse_x509_pem(&data).expect(..)`.
  unfoldable pub pem_contents : Bytes → Program Bytes
  pem_contents content = elim (parse_x509_pem h.base64_decode (whole content)) [
    | ok (_, pem) ↦ pure pem.contents
    | err _ ↦ abort
  ]

  -- `parse_x509_crl(der_data).expect(..)` and the printing.
  unfoldable pub print_der_list : Bytes → Script
  print_der_list der_data = elim (parse_x509_crl h.der h.oids (whole der_data)) [
    | ok (_, crl) ↦ print_crl_info crl
    | err _ ↦ abort
  ]

  unfoldable pub print_list_data : Bytes → Script
  unfolding is_der_list pem_contents print_der_list
  print_list_data content = do
    is_der ← is_der_list content
    der_data ← (if is_der then pure content else pem_contents content)
    print_der_list der_data

  -- The body of the loop over the names of the files.
  unfoldable pub print_list_file : Text → Script
  unfolding print_list_data
  print_list_file file_name = do
    println (codes "File: " ++ file_name)
    elim (h.read file_name) [ some content ↦ print_list_data content | none ↦ abort ]

  unfoldable pub print_crl_main : List Text → Script
  print_crl_main = each print_list_file

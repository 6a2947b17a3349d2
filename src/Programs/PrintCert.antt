-- ===== src/Programs/PrintCert.antt =====
-- examples/print-cert.rs: the printing of certificates, and the program. `PARSE_ERRORS_FATAL` and
-- `VALIDATE_ERRORS_FATAL` are constants of the program, and the features `validate` and `verify`
-- are enabled.
pub mod Endings
pub mod Outcome
pub mod Files
pub mod Blocks
use x509_parser.Certificate.{X509Certificate, is_valid, raw_serial_as_string}
use x509_parser.Console.{
  Program, Script, abort, each, eprintln, failed, nothing, println, pure, put, ◌>>=◌, ◌>>◌,
}
use x509_parser.Error.{PemError}
use x509_parser.Error.Display.{pem_error_display}
use x509_parser.Format.{bool_text, decimal}
use x509_parser.Objects.{name_display}
use x509_parser.Pem.{Pem, Reader, iter_from_buffer, iterator_next}
use x509_parser.Prelude.{
  Bool, Bytes, List, Text, [], codes, false, if◌then◌else◌, is_empty, leb, length, ltb, none, not,
  some, suc, zero, ℕ, ◌&&◌, ◌++◌, ◌==◌, ◌∷◌,
}
use x509_parser.Programs.{Host}
use x509_parser.Programs.Algorithms.{print_x509_signature_algorithm}
use x509_parser.Programs.Extensions.{print_x509_extension}
use x509_parser.Programs.Keys.{print_rows, print_x509_ski}
use x509_parser.Result.{Result, err, is_ok, ok, whole}
use x509_parser.Root.{parse_x509_certificate}
use x509_parser.Validate.Chain.{chain}
use x509_parser.Validate.Logger.{VecLogger, empty_logger, vec_logger}
use x509_parser.Validate.Pedantic.{certificate_validator}
use x509_parser.Validate.Steps.{Run, panicked, running}
use x509_parser.Validate.Structure.{structure_validator}
use x509_parser.Verify.{certificate_verify}
use x509_parser.X509.Equality.{name_eq}

abbrev pub parse_errors_fatal : Bool
parse_errors_fatal = false

abbrev pub validate_errors_fatal : Bool
validate_errors_fatal = false

module _ (h : Host) where
  -- The fields, up to the extensions.
  unfoldable pub print_fields : X509Certificate → Script
  print_fields x509 = do
    let tbs = x509.tbs_certificate
    if ltb tbs.version.value 3
        then println (codes "  Version: " ++ h.version_text tbs.version)
        else println (codes "  Version: INVALID(" ++ decimal tbs.version.value ++ codes ")")
    println (codes "  Serial: " ++ raw_serial_as_string tbs)
    println (codes "  Subject: " ++ name_display h.oids h.naming tbs.subject)
    println (codes "  Issuer: " ++ name_display h.oids h.naming tbs.issuer)
    println (codes "  Validity:")
    println (codes "    NotBefore: " ++ h.time_text tbs.validity.not_before)
    println (codes "    NotAfter:  " ++ h.time_text tbs.validity.not_after)
    println (codes "    is_valid:  " ++ bool_text (is_valid tbs.validity h.now))
    println (codes "  Subject Public Key Info:")
    print_x509_ski h tbs.subject_pki
    print_x509_signature_algorithm h x509.signature_algorithm 4
    println (codes "  Signature Value:")
    print_rows h (codes "      ") x509.signature_value.content
    println (codes "  Extensions:")
    each (λ ext. print_x509_extension h ext.oid ext) tbs.extensions
    println []

  -- What the validators leave: the status, the warnings and the errors.
  unfoldable pub print_validation : Run VecLogger → Script
  print_validation panicked = abort
  print_validation (running valid logger) = do
    println (if valid then codes "Ok" else codes "FAIL")
    each (λ warning. println (codes "  [W] " ++ warning)) logger.warnings
    each (λ problem. println (codes "  [E] " ++ problem)) logger.errors
    println []
    if validate_errors_fatal && not (is_empty logger.errors)
        then ([], failed (codes "validation failed"))
        else nothing

  -- `X509StructureValidator.chain(X509CertificateValidator)` on a `VecLogger`.
  unfoldable pub validated : X509Certificate → Run VecLogger
  validated x509 =
      chain (structure_validator h.der h.oids h.shows) (certificate_validator h.shows.oid) VecLogger
        vec_logger x509 empty_logger

  unfoldable pub print_verification : X509Certificate → Script
  print_verification x509 = do
    let tbs = x509.tbs_certificate
    put (codes "Signature verification: ")
    if name_eq h.any_eq tbs.subject tbs.issuer
        then (if is_ok (certificate_verify h.der h.oids h.ring x509 none)
            then (do println (codes "OK"); println (codes "  [I] certificate is self-signed"))
            else if name_eq h.any_eq tbs.subject tbs.issuer
            then (do
              println (codes "FAIL")
              println
                  (codes "  [W] certificate looks self-signed, but signature verification failed"))
            else nothing)
        else println (codes "N/A")

  unfoldable pub print_x509_info : X509Certificate → Script
  print_x509_info x509 = do
    print_fields x509
    put (codes "Structure validation status: ")
    print_validation (validated x509)
    print_verification x509

  unfoldable pub handle_certificate : Text → Bytes → Script
  handle_certificate file_name bytes = elim (parse_x509_certificate h.der h.oids (whole bytes)) [
    | ok (_, x509) ↦ print_x509_info x509
    | err e ↦
        let s = codes "Error while parsing " ++ file_name ++ codes ": " ++ h.nom_error_text e in
        if parse_errors_fatal then ([], failed s) else eprintln s
  ]

  -- The body of the loop over the items of the iterator.
  unfoldable pub handle_item : Text → ℕ → Result PemError Pem → Script
  handle_item file_name n (ok pem) = do
    println (codes "Certificate [" ++ decimal n ++ codes "]")
    handle_certificate file_name pem.contents
  handle_item file_name n (err e) = eprintln (
      codes "Error while decoding PEM entry "
      ++ decimal n
      ++ codes ": "
      ++ pem_error_display h.io_error_text e)

  -- The loop over the iterator, for a number of rounds.
  unfoldable pub item_loop : ℕ → Text → ℕ → Reader → Script
  item_loop zero file_name n r = nothing
  item_loop (suc rounds) file_name n r =
      let (item, r') = iterator_next h.base64_decode r in
      elim item [
        | none ↦ nothing
        | some v ↦ handle_item file_name n v >> item_loop rounds file_name (suc n) r'
      ]

  -- `matches!((data[0], data[1]), (0x30, 0x81..=0x83))`, which indexes two bytes.
  unfoldable pub probably_der : Bytes → Program Bool
  probably_der (b0 ∷ b1 ∷ bs) = pure (b0 == 0x30 && leb 0x81 b1 && leb b1 0x83)
  probably_der _ = abort

  -- The iterator returns at most one item for each line.
  unfoldable pub handle_data : Text → Bytes → Script
  handle_data file_name content = do
    is_der ← probably_der content
    let r = iter_from_buffer content
    if is_der
        then handle_certificate file_name content
        else item_loop (suc (length r.lines)) file_name 0 r

  -- The body of the loop over the names of the files.
  unfoldable pub handle_file : Text → Script
  handle_file file_name = do
    println (codes "File: " ++ file_name)
    elim (h.read file_name) [ some content ↦ handle_data file_name content | none ↦ abort ]

  unfoldable pub print_cert_main : List Text → Script
  print_cert_main = each handle_file

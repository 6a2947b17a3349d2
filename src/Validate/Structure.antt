-- ===== src/Validate/Structure.antt =====
-- src/validate/structure.rs: `TbsCertificateStructureValidator` and `X509StructureValidator`.
pub mod Verdict
pub mod Panic
use x509_parser.Asn1.{Oid, Oids}
use x509_parser.Bits.{msb_set}
use x509_parser.Certificate.{TbsCertificate, X509Certificate}
use x509_parser.Der.{Der}
use x509_parser.Error.{BerError}
use x509_parser.Extensions.{
  GeneralName, ParsedExtension, dns_name, parse_error, rfc822_name, subject_alternative_name,
  unsupported_extension,
}
use x509_parser.Prelude.{
  Bool, Bytes, Text, [], codes, false, is_empty, leb, not, true, ◌&&◌, ◌++◌, ◌==◌, ◌∷◌,
}
use x509_parser.Result.{NomErr}
use x509_parser.Validate.Key.{key_validator}
use x509_parser.Validate.Name.{all_ascii, name_validator}
use x509_parser.Validate.Steps.{
  Step, Validator, check, fail_if, for_each, skip, validate, warn_if, ◌⨾◌,
}
use x509_parser.X509.{v3}

-- How the crates print an identifier, and an error of the parser.
pub record Shows : Type 0 where
  pub oid : Oid → Text
  pub ber_error : NomErr BerError → Text

-- `b.len() > 1 && b[0] == 0 && b[1] & 0x80 == 0`.
unfoldable pub leading_zeroes : Bytes → Bool
leading_zeroes (b0 ∷ b1 ∷ bs) = b0 == 0 && not (msb_set b1)
leading_zeroes _ = false

unfoldable pub serial_step : Bytes → Step
serial_step [] = fail_if true (codes "Serial is empty")
serial_step (b ∷ bs) =
    warn_if (msb_set b) (codes "Serial number is negative")
    ⨾ warn_if (leading_zeroes (b ∷ bs)) (codes "Leading zeroes in serial number")

-- The body of the loop over the names of a `SubjectAlternativeName`, here and in
-- src/validate/extensions.rs. `s.as_bytes()` is ASCII exactly if its characters are.
unfoldable pub san_name_step : GeneralName → Step
san_name_step (dns_name s) =
    warn_if (not (all_ascii s)) (codes "Invalid charset in 'SAN' entry '" ++ s ++ codes "'")
san_name_step (rfc822_name s) =
    warn_if (not (all_ascii s)) (codes "Invalid charset in 'SAN' entry '" ++ s ++ codes "'")
san_name_step _ = skip

unfoldable pub san_step : ParsedExtension → Step
san_step (subject_alternative_name san) = for_each san_name_step san.general_names
san_step _ = skip

unfoldable pub parse_status_step : Shows → Oid → ParsedExtension → Step
parse_status_step s oid (unsupported_extension o) =
    warn_if true (codes "Unsupported extension " ++ s.oid oid)
parse_status_step s oid (parse_error e) =
    fail_if true (codes "Parse error in extension " ++ s.oid oid ++ codes ": " ++ s.ber_error e)
parse_status_step s oid _ = skip

module _ (d : Der) (oids : Oids) (s : Shows) where
  unfoldable pub tbs_step : TbsCertificate → Step
  tbs_step item =
      fail_if (leb 3 item.version.value) (codes "Invalid version")
      ⨾ fail_if (not (is_empty item.extensions) && not (item.version.value == v3.value))
          (codes "Extensions present but version is not 3")
      ⨾ serial_step item.raw_serial
      ⨾ check (name_validator s.oid) item.subject
      ⨾ check (name_validator s.oid) item.issuer
      ⨾ check (key_validator d oids) item.subject_pki
      ⨾ for_each (λ ext. parse_status_step s ext.oid ext.parsed_extension) item.extensions
      ⨾ for_each (λ ext. san_step ext.parsed_extension) item.extensions

  unfoldable pub tbs_structure_validator : Validator TbsCertificate
  tbs_structure_validator = validate tbs_step

  unfoldable pub structure_validator : Validator X509Certificate
  structure_validator = validate λ item. check tbs_structure_validator item.tbs_certificate

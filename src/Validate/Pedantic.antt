-- ===== src/Validate/Pedantic.antt =====
-- src/validate/extensions.rs and src/validate/certificate.rs.
pub mod Outcome
use x509_parser.Asn1.{Oid}
use x509_parser.Certificate.{X509Certificate}
use x509_parser.Extensions.{
  ParsedExtension, X509Extension, authority_key_identifier, certificate_policies, key_usage,
  subject_alternative_name,
}
use x509_parser.OidMap.{set_contains, set_insert}
use x509_parser.Prelude.{
  Bool, List, Option, Text, [], codes, false, none, not, some, true, xor, ◌&&◌, ◌++◌, ◌==◌, ◌∷◌,
}
use x509_parser.Validate.Steps.{
  Step, Validator, check, err_if, fail_if, for_each, skip, validate, warn_if, ◌⨾◌,
}
use x509_parser.Validate.Structure.{san_name_step}

-- `WARN_SHOULD_BE_CRITICAL`.
abbrev pub warn_should_be_critical : Bool
warn_should_be_critical = false

-- The four arms of `test_critical!`.
unfoldable pub must_critical : Bool → Text → Step
must_critical critical name =
    err_if (not critical) (codes "Extension " ++ name ++ codes " MUST be critical, but is not")

unfoldable pub must_not_critical : Bool → Text → Step
must_not_critical critical name =
    err_if critical (codes "Extension " ++ name ++ codes " MUST NOT be critical, but is")

unfoldable pub should_critical : Bool → Text → Step
should_critical critical name =
    warn_if (warn_should_be_critical && not critical)
      (codes "Extension " ++ name ++ codes " SHOULD be critical, but is not")

unfoldable pub should_not_critical : Bool → Text → Step
should_not_critical critical name =
    warn_if (warn_should_be_critical && critical)
      (codes "Extension " ++ name ++ codes " SHOULD NOT be critical, but is")

-- The loop over a `HashSet` of the identifiers seen: `if m.contains(..) { l.err(..); res = false }
-- else { m.insert(..) }`.
unfoldable pub distinct_step : {A : Type 0} → (A → Oid) → (Oid → Text) → List Oid → List A → Step
distinct_step key message m [] = skip
distinct_step key message m (x ∷ xs) =
    fail_if (set_contains (key x) m) (message (key x))
    ⨾ distinct_step key message (set_insert (key x) m).1 xs

abbrev is_some {ℓ} : {A : Type ℓ} → Option A → Bool
is_some none = false
is_some (some a) = true

module _ (show_oid : Oid → Text) where
  -- The `match` on one extension.
  unfoldable pub extension_step : Bool → ParsedExtension → Step
  extension_step critical (authority_key_identifier aki) =
      must_not_critical critical (codes "AKI")
      ⨾ warn_if (xor (is_some aki.authority_cert_issuer) (is_some aki.authority_cert_serial))
          (codes "AKI: only one of Issuer and Serial is present")
  extension_step critical (certificate_policies policies) =
      distinct_step (λ p. p.policy_id)
        (λ oid. codes "Certificate Policies: duplicate policy " ++ show_oid oid) [] policies
  extension_step critical (key_usage ku) =
      should_critical critical (codes "KeyUsage")
      ⨾ err_if (ku.flags == 0) (codes "KeyUsage: all flags are set to 0")
  extension_step critical (subject_alternative_name san) =
      should_not_critical critical (codes "SubjectAltName")
      ⨾ for_each san_name_step san.general_names
  extension_step critical _ = skip

  -- `X509ExtensionsValidator`.
  unfoldable pub extensions_validator : Validator (List X509Extension)
  extensions_validator = validate λ item.
      distinct_step (λ ext. ext.oid) (λ oid. codes "Duplicate extension " ++ show_oid oid) [] item
      ⨾ for_each (λ ext. extension_step ext.critical ext.parsed_extension) item

  -- `X509CertificateValidator`.
  unfoldable pub certificate_validator : Validator X509Certificate
  certificate_validator =
      validate λ item. check extensions_validator item.tbs_certificate.extensions

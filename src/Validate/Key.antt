-- ===== src/Validate/Key.antt =====
-- src/validate/structure.rs: `X509PublicKeyValidator`.
use x509_parser.Asn1.{Oids}
use x509_parser.Bits.{msb_set}
use x509_parser.Der.{Der}
use x509_parser.Error.{X509Error}
use x509_parser.Prelude.{Bytes, Text, [], codes, true, ◌∷◌}
use x509_parser.PublicKey.{PublicKey, parsed, rsa, unknown}
use x509_parser.Result.{Result, err, ok}
use x509_parser.Validate.Steps.{Step, Validator, fail_if, panic, skip, validate, warn_if, ◌⨾◌}
use x509_parser.X509.{SubjectPublicKeyInfo}

-- `if bytes[0] & 0x80 != 0 { l.warn(message); }`, which panics on no bytes.
unfoldable pub warn_negative : Bytes → Text → Step
warn_negative [] message = panic
warn_negative (b ∷ bs) message = warn_if (msb_set b) message

unfoldable pub key_step : Result X509Error PublicKey → Step
key_step (ok (rsa key)) =
    warn_negative key.modulus (codes "Public key: (RSA) modulus is negative")
    ⨾ warn_negative key.exponent (codes "Public key: (RSA) exponent is negative")
key_step (ok (unknown b)) = warn_if true (codes "Unknown public key type")
key_step (err e) = fail_if true (codes "Invalid public key")
key_step (ok _) = skip

unfoldable pub key_validator : Der → Oids → Validator SubjectPublicKeyInfo
key_validator d oids = validate λ spki. key_step (parsed d oids spki)

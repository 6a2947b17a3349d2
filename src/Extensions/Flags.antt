-- ===== src/Extensions/Flags.antt =====
-- src/extensions/keyusage.rs and src/extensions/mod.rs: flags by name and their printed form.
pub mod Printing
use x509_parser.Bits.{bit}
use x509_parser.Extensions.{KeyUsage, NsCertType, ReasonFlags}
use x509_parser.Prelude.{
  Bool, List, Text, [], codes, if◌then◌else◌, not, suc, ℕ, ◌%◌, ◌++◌, ◌/◌, ◌==◌, ◌∷◌,
}
use x509_parser.Utils.{pop}

module _ (ku : KeyUsage) where
  unfoldable pub digital_signature : Bool
  digital_signature = bit ku.flags 0 == 1

  unfoldable pub non_repudiation : Bool
  non_repudiation = bit ku.flags 1 == 1

  unfoldable pub key_encipherment : Bool
  key_encipherment = bit ku.flags 2 == 1

  unfoldable pub data_encipherment : Bool
  data_encipherment = bit ku.flags 3 == 1

  unfoldable pub key_agreement : Bool
  key_agreement = bit ku.flags 4 == 1

  unfoldable pub key_cert_sign : Bool
  key_cert_sign = bit ku.flags 5 == 1

  unfoldable pub crl_sign : Bool
  crl_sign = bit ku.flags 6 == 1

  unfoldable pub encipher_only : Bool
  encipher_only = bit ku.flags 7 == 1

  unfoldable pub decipher_only : Bool
  decipher_only = bit ku.flags 8 == 1

module _ (ns : NsCertType) where
  unfoldable pub ssl_client : Bool
  ssl_client = bit ns.flags 0 == 1

  unfoldable pub ssl_server : Bool
  ssl_server = bit ns.flags 1 == 1

  unfoldable pub smime : Bool
  smime = bit ns.flags 2 == 1

  unfoldable pub object_signing : Bool
  object_signing = bit ns.flags 3 == 1

  unfoldable pub ssl_ca : Bool
  ssl_ca = bit ns.flags 5 == 1

  unfoldable pub smime_ca : Bool
  smime_ca = bit ns.flags 6 == 1

  unfoldable pub object_signing_ca : Bool
  object_signing_ca = bit ns.flags 7 == 1

module _ (r : ReasonFlags) where
  unfoldable pub key_compromise : Bool
  key_compromise = bit r.flags 1 == 1

  unfoldable pub ca_compromise : Bool
  ca_compromise = bit r.flags 2 == 1

  unfoldable pub affilation_changed : Bool
  affilation_changed = bit r.flags 3 == 1

  unfoldable pub superseded : Bool
  superseded = bit r.flags 4 == 1

  unfoldable pub cessation_of_operation : Bool
  cessation_of_operation = bit r.flags 5 == 1

  unfoldable pub certificate_hold : Bool
  certificate_hold = bit r.flags 6 == 1

  unfoldable pub privelege_withdrawn : Bool
  privelege_withdrawn = bit r.flags 7 == 1

  unfoldable pub aa_compromise : Bool
  aa_compromise = bit r.flags 8 == 1

abbrev pub key_usage_flags : List Text
key_usage_flags =
    codes "Digital Signature"
    ∷ codes "Non Repudiation"
    ∷ codes "Key Encipherment"
    ∷ codes "Data Encipherment"
    ∷ codes "Key Agreement"
    ∷ codes "Key Cert Sign"
    ∷ codes "CRL Sign"
    ∷ codes "Encipher Only"
    ∷ codes "Decipher Only"
    ∷ []

abbrev pub ns_cert_type_flags : List Text
ns_cert_type_flags =
    codes "SSL CLient"
    ∷ codes "SSL Server"
    ∷ codes "S/MIME"
    ∷ codes "Object Signing"
    ∷ codes "Reserved"
    ∷ codes "SSL CA"
    ∷ codes "S/MIME CA"
    ∷ codes "Object Signing CA"
    ∷ []

abbrev pub reason_flags : List Text
reason_flags =
    codes "Unused"
    ∷ codes "Key Compromise"
    ∷ codes "CA Compromise"
    ∷ codes "Affiliation Changed"
    ∷ codes "Superseded"
    ∷ codes "Cessation Of Operation"
    ∷ codes "Certificate Hold"
    ∷ codes "Privilege Withdrawn"
    ∷ codes "AA Compromise"
    ∷ []

-- `acc + s + ", "`.
abbrev pub with_comma : Text → Text
with_comma t = t ++ b',' ∷ b' ' ∷ []

-- The `fold` over the enumerated names, of `Display for KeyUsage`.
unfoldable pub indexed_text : ℕ → ℕ → List Text → Text → Text
indexed_text flags idx [] acc = acc
indexed_text flags idx (s ∷ names) acc =
    indexed_text flags (suc idx) names
      (if not (bit flags idx == 0) then acc ++ with_comma s else acc)

-- The loop that shifts `acc`, of `Display for NsCertType` and `Display for ReasonFlags`.
unfoldable pub shifted_text : ℕ → List Text → Text → Text
shifted_text acc [] s = s
shifted_text acc (flag_text ∷ names) s =
    shifted_text (acc / 2) names (if not (acc % 2 == 0) then s ++ with_comma flag_text else s)

unfoldable pub key_usage_display : KeyUsage → Text
key_usage_display ku = pop (pop (indexed_text ku.flags 0 key_usage_flags []))

unfoldable pub ns_cert_type_display : NsCertType → Text
ns_cert_type_display ns = pop (pop (shifted_text ns.flags ns_cert_type_flags []))

unfoldable pub reason_flags_display : ReasonFlags → Text
reason_flags_display r = pop (pop (shifted_text r.flags reason_flags []))

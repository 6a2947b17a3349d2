-- ===== src/Certificate.antt =====
-- src/certificate.rs: the certificate and the operations on its fields and extensions.
pub mod Unique
pub mod Accessors
pub mod Required
pub mod Period
pub mod Parse
pub mod OptionalTime
pub mod Envelope
pub mod Builder
pub mod Fields
use x509_parser.Asn1.{BitString, Oid, Oids, oid_eq}
use x509_parser.Error.{X509Error, duplicate_extensions, invalid_extensions}
use x509_parser.Extensions.{
  BasicConstraints, ExtendedKeyUsage, InhibitAnyPolicy, KeyUsage, NameConstraints, ParsedExtension,
  PolicyConstraints, PolicyMappings, SubjectAlternativeName, X509Extension, basic_constraints,
  extended_key_usage, inhibit_any_policy, key_usage, name_constraints, policy_constraints,
  policy_mappings, subject_alternative_name,
}
use x509_parser.OidMap.{distinct_from}
use x509_parser.Prelude.{
  Bool, Bytes, List, Option, Text, [], false, find, if◌then◌else◌, none, not, some, true, ℕ, ◌&&◌,
  ◌∷◌,
}
use x509_parser.Result.{Result, err, ok, ◌>>=◌}
use x509_parser.Time.{Asn1Time, time_le, time_sub}
use x509_parser.Utils.{format_serial}
use x509_parser.X509.{AlgorithmIdentifier, SubjectPublicKeyInfo, X509Name, X509Version}

pub record Validity : Type 0 where
  pub not_before : Asn1Time
  pub not_after : Asn1Time

-- `UniqueIdentifier(pub BitString)`.
pub record UniqueIdentifier : Type 0 where
  pub bits : BitString

pub record TbsCertificate : Type 0 where
  pub version : X509Version
  pub serial : ℕ
  pub signature : AlgorithmIdentifier
  pub issuer : X509Name
  pub validity : Validity
  pub subject : X509Name
  pub subject_pki : SubjectPublicKeyInfo
  pub issuer_uid : Option UniqueIdentifier
  pub subject_uid : Option UniqueIdentifier
  pub extensions : List X509Extension
  pub raw : Bytes
  pub raw_serial : Bytes

pub record X509Certificate : Type 0 where
  pub tbs_certificate : TbsCertificate
  pub signature_algorithm : AlgorithmIdentifier
  pub signature_value : BitString

pub record BasicExtension (T : Type 0) : Type 0 where
  pub critical : Bool
  pub value : T

-- The loop of the free function `get_extension_unique`, over `res`.
unique_loop :
    Oid → Option X509Extension → List X509Extension → Result X509Error (Option X509Extension)
unique_loop oid res [] = ok res
unique_loop oid res (ext ∷ exts) = elim (oid_eq ext.oid oid) [
  | true ↦ elim res [ some _ ↦ err duplicate_extensions | none ↦ unique_loop oid (some ext) exts ]
  | false ↦ unique_loop oid res exts
]

unfoldable pub get_extension_unique :
    List X509Extension → Oid → Result X509Error (Option X509Extension)
unfolding unique_loop
get_extension_unique extensions oid = unique_loop oid none extensions

-- `find_extension` of a certificate, a revocation list and a revoked certificate.
unfoldable pub find_extension : List X509Extension → Oid → Option X509Extension
unfolding find
find_extension extensions oid = find (λ ext. oid_eq ext.oid oid) extensions

-- `extensions_map` of a certificate, a revocation list and a revoked certificate.
unfoldable pub extensions_map : List X509Extension → Result X509Error (List (Oid × X509Extension))
unfolding distinct_from
extensions_map = distinct_from (λ ext. ext.oid) duplicate_extensions []

-- A parsed extension as one kind of value: the pattern of the accessors' `match`.
abbrev pub Kind : Type 0 → Type 0
Kind T = ParsedExtension → Option T

abbrev pub as_basic_constraints : Kind BasicConstraints
as_basic_constraints (basic_constraints bc) = some bc
as_basic_constraints _ = none

abbrev pub as_key_usage : Kind KeyUsage
as_key_usage (key_usage value) = some value
as_key_usage _ = none

abbrev pub as_extended_key_usage : Kind ExtendedKeyUsage
as_extended_key_usage (extended_key_usage value) = some value
as_extended_key_usage _ = none

abbrev pub as_policy_constraints : Kind PolicyConstraints
as_policy_constraints (policy_constraints value) = some value
as_policy_constraints _ = none

abbrev pub as_inhibit_any_policy : Kind InhibitAnyPolicy
as_inhibit_any_policy (inhibit_any_policy value) = some value
as_inhibit_any_policy _ = none

abbrev pub as_policy_mappings : Kind PolicyMappings
as_policy_mappings (policy_mappings value) = some value
as_policy_mappings _ = none

abbrev pub as_subject_alternative_name : Kind SubjectAlternativeName
as_subject_alternative_name (subject_alternative_name value) = some value
as_subject_alternative_name _ = none

abbrev pub as_name_constraints : Kind NameConstraints
as_name_constraints (name_constraints value) = some value
as_name_constraints _ = none

-- `and_then` on the extension found: another kind of value is as good as no extension.
unfoldable pub optional_value :
    {T : Type 0} → Kind T → Option X509Extension → Option (BasicExtension T)
optional_value as_kind none = none
optional_value as_kind (some ext) = elim (as_kind ext.parsed_extension) [
  | some value ↦ some (record { critical = ext.critical; value = value })
  | none ↦ none
]

-- `map_or(Ok(None), ..)` on the extension found: another kind of value is an error.
unfoldable pub required_value :
    {T : Type 0} → Kind T → Option X509Extension → Result X509Error (Option (BasicExtension T))
required_value as_kind none = ok none
required_value as_kind (some ext) = elim (as_kind ext.parsed_extension) [
  | some value ↦ ok (some (record { critical = ext.critical; value = value }))
  | none ↦ err invalid_extensions
]

ca_of : Result X509Error (Option (BasicExtension BasicConstraints)) → Bool
ca_of (ok (some ext)) = ext.value.ca
ca_of _ = false

module _ (oids : Oids) (tbs : TbsCertificate) where
  unfoldable pub get_basic_constraints : Result X509Error (Option (BasicExtension BasicConstraints))
  unfolding optional_value
  get_basic_constraints = get_extension_unique tbs.extensions oids.basic_constraints >>= λ found.
      ok (optional_value as_basic_constraints found)

  unfoldable pub get_key_usage : Result X509Error (Option (BasicExtension KeyUsage))
  unfolding required_value
  get_key_usage = get_extension_unique tbs.extensions oids.key_usage >>= required_value as_key_usage

  unfoldable pub get_extended_key_usage :
      Result X509Error (Option (BasicExtension ExtendedKeyUsage))
  unfolding required_value
  get_extended_key_usage =
      get_extension_unique tbs.extensions oids.extended_key_usage
      >>= required_value as_extended_key_usage

  unfoldable pub get_policy_constraints :
      Result X509Error (Option (BasicExtension PolicyConstraints))
  unfolding required_value
  get_policy_constraints =
      get_extension_unique tbs.extensions oids.policy_constraints
      >>= required_value as_policy_constraints

  unfoldable pub get_inhibit_anypolicy : Result X509Error (Option (BasicExtension InhibitAnyPolicy))
  unfolding required_value
  get_inhibit_anypolicy =
      get_extension_unique tbs.extensions oids.inhibit_any_policy
      >>= required_value as_inhibit_any_policy

  unfoldable pub get_policy_mappings : Result X509Error (Option (BasicExtension PolicyMappings))
  unfolding required_value
  get_policy_mappings =
      get_extension_unique tbs.extensions oids.policy_mappings >>= required_value as_policy_mappings

  unfoldable pub get_subject_alternative_name :
      Result X509Error (Option (BasicExtension SubjectAlternativeName))
  unfolding required_value
  get_subject_alternative_name =
      get_extension_unique tbs.extensions oids.subject_alt_name
      >>= required_value as_subject_alternative_name

  unfoldable pub get_name_constraints : Result X509Error (Option (BasicExtension NameConstraints))
  unfolding required_value
  get_name_constraints =
      get_extension_unique tbs.extensions oids.name_constraints
      >>= required_value as_name_constraints

  -- `.unwrap_or(None).map(|ext| ext.value.ca).unwrap_or(false)`.
  unfoldable pub is_ca : Bool
  unfolding ca_of
  is_ca = ca_of get_basic_constraints

-- `raw_serial_as_string`.
unfoldable pub raw_serial_as_string : TbsCertificate → Text
raw_serial_as_string tbs = format_serial tbs.raw_serial

unfoldable pub is_valid_at : Validity → Asn1Time → Bool
is_valid_at v time = time_le v.not_before time && time_le time v.not_after

-- `time_to_expiration`, at the instant that `ASN1Time::now` returns.
unfoldable pub time_to_expiration : Validity → Asn1Time → Option ℕ
unfolding is_valid_at
time_to_expiration v now = if not (is_valid_at v now) then none else time_sub v.not_after now

-- `is_valid`, at the instant that `ASN1Time::now` returns.
unfoldable pub is_valid : Validity → Asn1Time → Bool
unfolding is_valid_at
is_valid v now = is_valid_at v now

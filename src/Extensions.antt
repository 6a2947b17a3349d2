-- ===== src/Extensions.antt =====
-- The data of src/extensions/: an extension and the parsed form of each kind.
pub mod Flags
pub mod Names
pub mod Sct
pub mod Contents
pub mod Policies
pub mod Grouped
pub mod Usage
pub mod Dispatch
pub mod Separate
pub mod Display
pub mod Builder
use x509_parser.Asn1.{Any, Oid}
use x509_parser.Error.{BerError}
use x509_parser.Prelude.{Bool, Bytes, List, Option, Text, false, none, some, true, ℕ}
use x509_parser.Result.{NomErr}
use x509_parser.Time.{Asn1Time}
use x509_parser.X509.{ReasonCode, RelativeDistinguishedName, X509Name}

-- src/extensions/generalname.rs
pub data GeneralName : Type 0 where
  other_name : Oid → Bytes → GeneralName
  rfc822_name : Text → GeneralName
  dns_name : Text → GeneralName
  x400_address : Any → GeneralName
  directory_name : X509Name → GeneralName
  edi_party_name : Any → GeneralName
  uri : Text → GeneralName
  ip_address : Bytes → GeneralName
  registered_id : Oid → GeneralName

-- `KeyIdentifier(pub &[u8])`.
pub record KeyIdentifier : Type 0 where
  pub id : Bytes

pub record AuthorityKeyIdentifier : Type 0 where
  pub key_identifier : Option KeyIdentifier
  pub authority_cert_issuer : Option (List GeneralName)
  pub authority_cert_serial : Option Bytes

pub record PolicyQualifierInfo : Type 0 where
  pub policy_qualifier_id : Oid
  pub qualifier : Bytes

pub record PolicyInformation : Type 0 where
  pub policy_id : Oid
  pub policy_qualifiers : Option (List PolicyQualifierInfo)

pub record BasicConstraints : Type 0 where
  pub ca : Bool
  pub path_len_constraint : Option ℕ

-- `flags` is a `u16`.
pub record KeyUsage : Type 0 where
  pub flags : ℕ

pub record ExtendedKeyUsage : Type 0 where
  pub any_usage : Bool
  pub server_auth : Bool
  pub client_auth : Bool
  pub code_signing : Bool
  pub email_protection : Bool
  pub time_stamping : Bool
  pub ocsp_signing : Bool
  pub others : List Oid

-- `NSCertType(u8)`.
pub record NsCertType : Type 0 where
  pub flags : ℕ

pub record AccessDescription : Type 0 where
  pub access_method : Oid
  pub access_location : GeneralName

pub record AuthorityInfoAccess : Type 0 where
  pub accessdescs : List AccessDescription

pub record InhibitAnyPolicy : Type 0 where
  pub skip_certs : ℕ

pub record PolicyConstraints : Type 0 where
  pub require_explicit_policy : Option ℕ
  pub inhibit_policy_mapping : Option ℕ

pub record PolicyMapping : Type 0 where
  pub issuer_domain_policy : Oid
  pub subject_domain_policy : Oid

pub record PolicyMappings : Type 0 where
  pub mappings : List PolicyMapping

pub record SubjectAlternativeName : Type 0 where
  pub general_names : List GeneralName

pub record IssuerAlternativeName : Type 0 where
  pub general_names : List GeneralName

pub record GeneralSubtree : Type 0 where
  pub base : GeneralName

pub record NameConstraints : Type 0 where
  pub permitted_subtrees : Option (List GeneralSubtree)
  pub excluded_subtrees : Option (List GeneralSubtree)

-- `flags` is a `u16`.
pub record ReasonFlags : Type 0 where
  pub flags : ℕ

pub data DistributionPointName : Type 0 where
  full_name : List GeneralName → DistributionPointName
  name_relative_to_crl_issuer : RelativeDistinguishedName → DistributionPointName

pub record CrlDistributionPoint : Type 0 where
  pub distribution_point : Option DistributionPointName
  pub reasons : Option ReasonFlags
  pub crl_issuer : Option (List GeneralName)

pub record CrlDistributionPoints : Type 0 where
  pub points : List CrlDistributionPoint

-- src/extensions/sct.rs
pub record DigitallySigned : Type 0 where
  pub hash_alg_id : ℕ
  pub sign_alg_id : ℕ
  pub content : Bytes

pub record SignedCertificateTimestamp : Type 0 where
  pub version : ℕ
  pub id : Bytes
  pub timestamp : ℕ
  pub extensions : Bytes
  pub signature : DigitallySigned

pub data ParsedExtension : Type 0 where
  unsupported_extension : Oid → ParsedExtension
  parse_error : NomErr BerError → ParsedExtension
  authority_key_identifier : AuthorityKeyIdentifier → ParsedExtension
  subject_key_identifier : KeyIdentifier → ParsedExtension
  key_usage : KeyUsage → ParsedExtension
  certificate_policies : List PolicyInformation → ParsedExtension
  policy_mappings : PolicyMappings → ParsedExtension
  subject_alternative_name : SubjectAlternativeName → ParsedExtension
  issuer_alternative_name : IssuerAlternativeName → ParsedExtension
  basic_constraints : BasicConstraints → ParsedExtension
  name_constraints : NameConstraints → ParsedExtension
  policy_constraints : PolicyConstraints → ParsedExtension
  extended_key_usage : ExtendedKeyUsage → ParsedExtension
  crl_distribution_points : CrlDistributionPoints → ParsedExtension
  inhibit_any_policy : InhibitAnyPolicy → ParsedExtension
  authority_info_access : AuthorityInfoAccess → ParsedExtension
  ns_cert_type : NsCertType → ParsedExtension
  ns_cert_comment : Text → ParsedExtension
  crl_number : ℕ → ParsedExtension
  reason_code : ReasonCode → ParsedExtension
  invalidity_date : Asn1Time → ParsedExtension
  sct : List SignedCertificateTimestamp → ParsedExtension
  unparsed : ParsedExtension

pub record X509Extension : Type 0 where
  pub oid : Oid
  pub critical : Bool
  pub value : Bytes
  pub parsed_extension : ParsedExtension

-- `ParsedExtension::unsupported`.
unfoldable pub is_unsupported : ParsedExtension → Bool
is_unsupported (unsupported_extension o) = true
is_unsupported _ = false

-- `ParsedExtension::error`.
unfoldable pub parsed_error : ParsedExtension → Option (NomErr BerError)
parsed_error (parse_error e) = some e
parsed_error _ = none

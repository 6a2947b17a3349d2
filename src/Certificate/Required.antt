-- ===== src/Certificate/Required.antt =====
-- src/certificate.rs: the accessors for which another kind of value is an error.
use x509_parser.Asn1.{Oid, Oids}
use x509_parser.Certificate.{
  BasicExtension, Kind, TbsCertificate, as_extended_key_usage, as_inhibit_any_policy, as_key_usage,
  as_name_constraints, as_policy_constraints, as_policy_mappings, as_subject_alternative_name,
  get_extended_key_usage, get_extension_unique, get_inhibit_anypolicy, get_key_usage,
  get_name_constraints, get_policy_constraints, get_policy_mappings, get_subject_alternative_name,
  required_value,
}
use x509_parser.Certificate.Accessors.{Single, Single-required_value, required_value-Single}
use x509_parser.Certificate.Unique.{get_extension_unique-only_one, with_oid}
use x509_parser.Extensions.{
  ExtendedKeyUsage, InhibitAnyPolicy, KeyUsage, NameConstraints, ParsedExtension, PolicyConstraints,
  PolicyMappings, SubjectAlternativeName, X509Extension, extended_key_usage, inhibit_any_policy,
  key_usage, name_constraints, policy_constraints, policy_mappings, subject_alternative_name,
}
use x509_parser.Prelude.{List, refl, some, ◌↔◌, ◌≡◌}
use x509_parser.Result.{ok, ◌>>=◌}

module _ {T : Type 0} (as_kind : Kind T) (make : T → ParsedExtension)
    (as_kind-some : (p : ParsedExtension) (value : T) → as_kind p ≡ some value → p ≡ make value)
    (as_kind-make : (value : T) → as_kind (make value) ≡ some value) where
  accessor-Single :
      (exts : List X509Extension) (oid : Oid) (found : BasicExtension T)
      → ((get_extension_unique exts oid >>= required_value as_kind) ≡ ok (some found))
        ↔ Single make (with_oid oid exts) found
  accessor-Single exts oid found = rw get_extension_unique-only_one (
    required_value-Single as_kind make as_kind-some as_kind-make _ found,
    Single-required_value as_kind make as_kind-some as_kind-make _ found,
  )

as_key_usage-some :
    (p : ParsedExtension) (value : KeyUsage) → as_key_usage p ≡ some value → p ≡ key_usage value
as_key_usage-some (key_usage v) value h = cc
as_key_usage-some _ value h = cc

as_extended_key_usage-some :
    (p : ParsedExtension) (value : ExtendedKeyUsage)
    → as_extended_key_usage p ≡ some value
    → p ≡ extended_key_usage value
as_extended_key_usage-some (extended_key_usage v) value h = cc
as_extended_key_usage-some _ value h = cc

as_policy_constraints-some :
    (p : ParsedExtension) (value : PolicyConstraints)
    → as_policy_constraints p ≡ some value
    → p ≡ policy_constraints value
as_policy_constraints-some (policy_constraints v) value h = cc
as_policy_constraints-some _ value h = cc

as_inhibit_any_policy-some :
    (p : ParsedExtension) (value : InhibitAnyPolicy)
    → as_inhibit_any_policy p ≡ some value
    → p ≡ inhibit_any_policy value
as_inhibit_any_policy-some (inhibit_any_policy v) value h = cc
as_inhibit_any_policy-some _ value h = cc

as_policy_mappings-some :
    (p : ParsedExtension) (value : PolicyMappings)
    → as_policy_mappings p ≡ some value
    → p ≡ policy_mappings value
as_policy_mappings-some (policy_mappings v) value h = cc
as_policy_mappings-some _ value h = cc

as_subject_alternative_name-some :
    (p : ParsedExtension) (value : SubjectAlternativeName)
    → as_subject_alternative_name p ≡ some value
    → p ≡ subject_alternative_name value
as_subject_alternative_name-some (subject_alternative_name v) value h = cc
as_subject_alternative_name-some _ value h = cc

as_name_constraints-some :
    (p : ParsedExtension) (value : NameConstraints)
    → as_name_constraints p ≡ some value
    → p ≡ name_constraints value
as_name_constraints-some (name_constraints v) value h = cc
as_name_constraints-some _ value h = cc

-- Each of the seven accessors returns a value exactly if one extension of the certificate has its
-- identifier and the parser made a value of its kind of it, and then that value with the critical
-- mark of the extension.
pub required_accessors-Single :
    (oids : Oids) (tbs : TbsCertificate) (ku : BasicExtension KeyUsage)
    (eku : BasicExtension ExtendedKeyUsage) (pc : BasicExtension PolicyConstraints)
    (iap : BasicExtension InhibitAnyPolicy) (pm : BasicExtension PolicyMappings)
    (san : BasicExtension SubjectAlternativeName) (nc : BasicExtension NameConstraints)
    → ((get_key_usage oids tbs ≡ ok (some ku))
        ↔ Single key_usage (with_oid oids.key_usage tbs.extensions) ku)
      × ((get_extended_key_usage oids tbs ≡ ok (some eku))
          ↔ Single extended_key_usage (with_oid oids.extended_key_usage tbs.extensions) eku)
      × ((get_policy_constraints oids tbs ≡ ok (some pc))
          ↔ Single policy_constraints (with_oid oids.policy_constraints tbs.extensions) pc)
      × ((get_inhibit_anypolicy oids tbs ≡ ok (some iap))
          ↔ Single inhibit_any_policy (with_oid oids.inhibit_any_policy tbs.extensions) iap)
      × ((get_policy_mappings oids tbs ≡ ok (some pm))
          ↔ Single policy_mappings (with_oid oids.policy_mappings tbs.extensions) pm)
      × ((get_subject_alternative_name oids tbs ≡ ok (some san))
          ↔ Single subject_alternative_name (with_oid oids.subject_alt_name tbs.extensions) san)
      × ((get_name_constraints oids tbs ≡ ok (some nc))
          ↔ Single name_constraints (with_oid oids.name_constraints tbs.extensions) nc)
unfolding get_key_usage get_extended_key_usage get_policy_constraints get_inhibit_anypolicy
    get_policy_mappings get_subject_alternative_name get_name_constraints
required_accessors-Single oids tbs ku eku pc iap pm san nc = (
  accessor-Single as_key_usage key_usage as_key_usage-some (λ v. refl) tbs.extensions oids.key_usage
      ku,
  accessor-Single as_extended_key_usage extended_key_usage as_extended_key_usage-some (λ v. refl)
      tbs.extensions oids.extended_key_usage eku,
  accessor-Single as_policy_constraints policy_constraints as_policy_constraints-some (λ v. refl)
      tbs.extensions oids.policy_constraints pc,
  accessor-Single as_inhibit_any_policy inhibit_any_policy as_inhibit_any_policy-some (λ v. refl)
      tbs.extensions oids.inhibit_any_policy iap,
  accessor-Single as_policy_mappings policy_mappings as_policy_mappings-some (λ v. refl)
      tbs.extensions oids.policy_mappings pm,
  accessor-Single as_subject_alternative_name subject_alternative_name
      as_subject_alternative_name-some (λ v. refl) tbs.extensions oids.subject_alt_name san,
  accessor-Single as_name_constraints name_constraints as_name_constraints-some (λ v. refl)
      tbs.extensions oids.name_constraints nc,
)

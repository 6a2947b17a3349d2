-- ===== src/Extensions/Separate.antt =====
-- The `FromDer` implementations of the types of src/extensions/, by which the content of one
-- extension is parsed on its own.
pub mod Alternative
pub mod Deep
use x509_parser.Der.{Der}
use x509_parser.Error.{BerError, X509Error, der}
use x509_parser.Extensions.{
  AuthorityInfoAccess, AuthorityKeyIdentifier, BasicConstraints, CrlDistributionPoints,
  ExtendedKeyUsage, GeneralName, InhibitAnyPolicy, IssuerAlternativeName, KeyIdentifier, KeyUsage,
  NameConstraints, NsCertType, PolicyConstraints, PolicyMappings, SubjectAlternativeName,
}
use x509_parser.Extensions.Contents.{
  parse_authorityinfoaccess, parse_authoritykeyidentifier, parse_basicconstraints,
  parse_crldistributionpoints, parse_keyidentifier, parse_keyusage, parse_nscerttype,
  parse_policyconstraints,
}
use x509_parser.Extensions.Names.{parse_generalname, parse_nameconstraints}
use x509_parser.Extensions.Policies.{parse_policymappings}
use x509_parser.Extensions.Usage.{parse_extendedkeyusage}
use x509_parser.Prelude.{List, Text, ℕ}
use x509_parser.Result.{Parser, map_err, ok, ◌>>=◌}
use x509_parser.Utils.{format_serial}

module _ (d : Der) where
  -- `map_err(Err::convert)`, by `From<BerError> for X509Error`.
  abbrev pub converted : {A : Type 0} → Parser BerError A → Parser X509Error A
  converted p i = map_err (d.err_convert BerError X509Error der) (p i)

  unfoldable pub authority_key_identifier_from_der : Parser X509Error AuthorityKeyIdentifier
  authority_key_identifier_from_der = converted (parse_authoritykeyidentifier d)

  unfoldable pub basic_constraints_from_der : Parser X509Error BasicConstraints
  basic_constraints_from_der = converted (parse_basicconstraints d)

  unfoldable pub key_identifier_from_der : Parser X509Error KeyIdentifier
  key_identifier_from_der = converted (parse_keyidentifier d)

  unfoldable pub ns_cert_type_from_der : Parser X509Error NsCertType
  ns_cert_type_from_der = converted (parse_nscerttype d)

  unfoldable pub authority_info_access_from_der : Parser X509Error AuthorityInfoAccess
  authority_info_access_from_der = converted (parse_authorityinfoaccess d)

  unfoldable pub inhibit_any_policy_from_der : Parser X509Error InhibitAnyPolicy
  inhibit_any_policy_from_der =
      converted
        (d.nom_map BerError ℕ InhibitAnyPolicy d.u32_from_der (λ n. record { skip_certs = n }))

  unfoldable pub policy_constraints_from_der : Parser X509Error PolicyConstraints
  policy_constraints_from_der = converted (parse_policyconstraints d)

  unfoldable pub crl_distribution_points_from_der : Parser X509Error CrlDistributionPoints
  crl_distribution_points_from_der = converted (parse_crldistributionpoints d)

  unfoldable pub key_usage_from_der : Parser X509Error KeyUsage
  key_usage_from_der = converted (parse_keyusage d)

  unfoldable pub extended_key_usage_from_der : Parser X509Error ExtendedKeyUsage
  extended_key_usage_from_der = converted (parse_extendedkeyusage d)

  unfoldable pub name_constraints_from_der : Parser X509Error NameConstraints
  name_constraints_from_der = converted (parse_nameconstraints d)

  unfoldable pub policy_mappings_from_der : Parser X509Error PolicyMappings
  policy_mappings_from_der = converted (parse_policymappings d)

  unfoldable pub general_name_from_der : Parser X509Error GeneralName
  general_name_from_der = converted (parse_generalname d)

  -- `all_consuming(many0(complete(cut(GeneralName::from_der))))`.
  unfoldable pub general_names_from_der : Parser X509Error (List GeneralName)
  general_names_from_der = d.all_consuming X509Error (List GeneralName) (
      d.many0 X509Error GeneralName
        (d.complete X509Error GeneralName (d.cut X509Error GeneralName general_name_from_der)))

  unfoldable pub subject_alternative_name_from_der : Parser X509Error SubjectAlternativeName
  subject_alternative_name_from_der = d.sequence_g X509Error SubjectAlternativeName λ input _. do
    (i, names) ← general_names_from_der input
    ok (i, record { general_names = names })

  unfoldable pub issuer_alternative_name_from_der : Parser X509Error IssuerAlternativeName
  issuer_alternative_name_from_der = d.sequence_g X509Error IssuerAlternativeName λ input _. do
    (i, names) ← general_names_from_der input
    ok (i, record { general_names = names })

-- `LowerHex for KeyIdentifier`.
unfoldable pub key_identifier_lower_hex : KeyIdentifier → Text
key_identifier_lower_hex id = format_serial id.id

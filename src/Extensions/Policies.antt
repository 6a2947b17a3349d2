-- ===== src/Extensions/Policies.antt =====
-- src/extensions/mod.rs and src/extensions/policymappings.rs: the parsers of certificate policies
-- and of policy mappings.
use x509_parser.Der.{Der}
use x509_parser.Error.{BerError}
use x509_parser.Extensions.{PolicyInformation, PolicyMappings, PolicyQualifierInfo}
use x509_parser.Prelude.{List, [], map}
use x509_parser.Result.{Parser, ok, whole, ◌>>=◌}

module _ (d : Der) where
  unfoldable pub parse_policy_qualifier_info : Parser BerError PolicyQualifierInfo
  parse_policy_qualifier_info = d.sequence_g BerError PolicyQualifierInfo λ content _. do
    (rem, policy_qualifier_id) ← d.oid_from_der content
    ok (whole [], record { policy_qualifier_id = policy_qualifier_id; qualifier = rem.bytes })

  unfoldable pub parse_policy_information : Parser BerError PolicyInformation
  parse_policy_information = d.sequence_g BerError PolicyInformation λ content _. do
    (rem, policy_id) ← d.oid_from_der content
    (rem1, policy_qualifiers) ←
        d.opt BerError (List PolicyQualifierInfo)
          (d.complete BerError (List PolicyQualifierInfo) (
            d.sequence_g BerError (List PolicyQualifierInfo) λ inner _.
              d.many1 BerError PolicyQualifierInfo
                (d.complete BerError PolicyQualifierInfo parse_policy_qualifier_info) inner))
          rem
    ok (rem1, record { policy_id = policy_id; policy_qualifiers = policy_qualifiers })

  unfoldable pub parse_certificatepolicies : Parser BerError (List PolicyInformation)
  parse_certificatepolicies = d.sequence_of_v BerError PolicyInformation parse_policy_information

  -- `<Vec<PolicyMapping>>::from_der`, by the derived `FromDer for PolicyMapping`.
  unfoldable pub parse_policymappings : Parser BerError PolicyMappings
  parse_policymappings i = do
    (ret, pairs) ← d.policy_mappings_from_der i
    ok (
      ret,
      record {
        mappings =
            map (λ (l, r). record { issuer_domain_policy = l; subject_domain_policy = r }) pairs;
      },
    )

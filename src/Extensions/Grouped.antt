-- ===== src/Extensions/Grouped.antt =====
-- src/extensions/mod.rs and src/extensions/policymappings.rs: the maps of access descriptions and
-- of policy mappings. `as_hashmap` and `into_hashmap` run the same loop, over references and over
-- values.
use x509_parser.Asn1.{Oid}
use x509_parser.Extensions.{AuthorityInfoAccess, GeneralName, PolicyMappings}
use x509_parser.OidMap.{group_from, map_get}
use x509_parser.OidMap.Groups.{entry_of, group_from-values_of, values_of}
use x509_parser.Prelude.{List, [], ◌≡◌}

-- `AuthorityInfoAccess::as_hashmap` and `into_hashmap`.
unfoldable pub access_hashmap : AuthorityInfoAccess → List (Oid × List GeneralName)
unfolding group_from
access_hashmap aia =
    group_from (λ desc. desc.access_method) (λ desc. desc.access_location) [] aia.accessdescs

-- `PolicyMappings::as_hashmap` and `into_hashmap`.
unfoldable pub policy_hashmap : PolicyMappings → List (Oid × List Oid)
unfolding group_from
policy_hashmap pm =
    group_from (λ m. m.issuer_domain_policy) (λ m. m.subject_domain_policy) [] pm.mappings

-- The entry of a method in the map of an authority's information access is the list of the
-- locations with that method, in order, and there is no entry where there is none.
pub access_hashmap-values_of :
    (aia : AuthorityInfoAccess) (oid : Oid)
    → map_get oid (access_hashmap aia)
      ≡ entry_of (
          values_of (λ desc. desc.access_method) (λ desc. desc.access_location) oid aia.accessdescs)
unfolding access_hashmap
access_hashmap-values_of aia =
    group_from-values_of (λ desc. desc.access_method) (λ desc. desc.access_location) aia.accessdescs

-- The entry of an issuer's policy in the map of policy mappings is the list of the subject's
-- policies it is mapped to, in order, and there is no entry where there is none.
pub policy_hashmap-values_of :
    (pm : PolicyMappings) (oid : Oid)
    → map_get oid (policy_hashmap pm)
      ≡ entry_of
          (values_of (λ m. m.issuer_domain_policy) (λ m. m.subject_domain_policy) oid pm.mappings)
unfolding policy_hashmap
policy_hashmap-values_of pm =
    group_from-values_of (λ m. m.issuer_domain_policy) (λ m. m.subject_domain_policy) pm.mappings

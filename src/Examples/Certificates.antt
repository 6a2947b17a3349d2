-- ===== src/Examples/Certificates.antt =====
-- The certificate's theorems at concrete certificates.
use x509_parser.Asn1.{Oid}
use x509_parser.Certificate.{
  BasicExtension, extensions_map, get_extended_key_usage, get_extension_unique,
  get_inhibit_anypolicy, get_key_usage, get_name_constraints, get_policy_constraints,
  get_policy_mappings, get_subject_alternative_name, is_ca, time_to_expiration,
}
use x509_parser.Certificate.Accessors.{Single, is_ca-Single}
use x509_parser.Certificate.Period.{time_to_expiration-some}
use x509_parser.Certificate.Required.{required_accessors-Single}
use x509_parser.Certificate.Unique.{
  extensions_map_err, extensions_map_ok, get_extension_unique-only_one, with_oid,
}
use x509_parser.Error.{duplicate_extensions}
use x509_parser.Examples.{id_ce, standard_oids}
use x509_parser.Examples.Samples.{authority_ext, sample_tbs, usage_ext}
use x509_parser.Extensions.{
  BasicConstraints, NameConstraints, PolicyConstraints, basic_constraints, extended_key_usage,
  inhibit_any_policy, key_usage, name_constraints, policy_constraints, policy_mappings,
  subject_alternative_name,
}
use x509_parser.Extensions.Usage.{no_usage}
use x509_parser.OidMap.{map_get, map_insert}
use x509_parser.Prelude.{
  [], false, filter, list_eq, none, refl, some, true, ◌+◌, ◌<◌, ◌↔◌, ◌∷◌, ◌≡◌, ◌≤◌,
}
use x509_parser.Result.{err, ok}

get_extension_unique-only_one_example :
    get_extension_unique (usage_ext ∷ authority_ext ∷ usage_ext ∷ []) (id_ce 15)
    ≡ err duplicate_extensions
unfolding filter list_eq
get_extension_unique-only_one_example =
    get_extension_unique-only_one (usage_ext ∷ authority_ext ∷ usage_ext ∷ []) (id_ce 15)

extensions_map_ok_example :
    get_extension_unique (usage_ext ∷ authority_ext ∷ []) (id_ce 19)
    ≡ ok (map_get (id_ce 19) ((id_ce 15, usage_ext) ∷ (id_ce 19, authority_ext) ∷ []))
unfolding extensions_map map_get map_insert list_eq
extensions_map_ok_example = extensions_map_ok (usage_ext ∷ authority_ext ∷ []) (id_ce 19) refl

extensions_map_err_example :
    (duplicate_extensions ≡ duplicate_extensions)
    × (oid : Oid) × (get_extension_unique (usage_ext ∷ usage_ext ∷ []) oid
        ≡ err duplicate_extensions)
unfolding extensions_map map_get map_insert list_eq
extensions_map_err_example = extensions_map_err (usage_ext ∷ usage_ext ∷ []) refl

-- The values of the other six kinds that the theorem is applied to.
abbrev other : {T : Type 0} → T → BasicExtension T
other v = record { critical = false; value = v }

abbrev no_policy : PolicyConstraints
no_policy = record { require_explicit_policy = none; inhibit_policy_mapping = none }

abbrev no_subtrees : NameConstraints
no_subtrees = record { permitted_subtrees = none; excluded_subtrees = none }

required_accessors-Single_example :
    ((get_key_usage standard_oids sample_tbs
        ≡ ok (some (record { critical = true; value = record { flags = 97 } })))
      ↔ Single key_usage
          (with_oid (id_ce 15) (usage_ext ∷ authority_ext ∷ []))
          (record { critical = true; value = record { flags = 97 } }))
    × ((get_extended_key_usage standard_oids sample_tbs ≡ ok (some (other no_usage)))
        ↔ Single extended_key_usage (with_oid (id_ce 37) sample_tbs.extensions) (other no_usage))
    × ((get_policy_constraints standard_oids sample_tbs ≡ ok (some (other no_policy)))
        ↔ Single policy_constraints (with_oid (id_ce 36) sample_tbs.extensions) (other no_policy))
    × ((get_inhibit_anypolicy standard_oids sample_tbs
          ≡ ok (some (other (record { skip_certs = 0 }))))
        ↔ Single inhibit_any_policy
            (with_oid (id_ce 54) sample_tbs.extensions)
            (other (record { skip_certs = 0 })))
    × ((get_policy_mappings standard_oids sample_tbs ≡ ok (some (other (record { mappings = [] }))))
        ↔ Single policy_mappings
            (with_oid (id_ce 33) sample_tbs.extensions)
            (other (record { mappings = [] })))
    × ((get_subject_alternative_name standard_oids sample_tbs
          ≡ ok (some (other (record { general_names = [] }))))
        ↔ Single subject_alternative_name
            (with_oid (id_ce 17) sample_tbs.extensions)
            (other (record { general_names = [] })))
    × ((get_name_constraints standard_oids sample_tbs ≡ ok (some (other no_subtrees)))
        ↔ Single name_constraints (with_oid (id_ce 30) sample_tbs.extensions) (other no_subtrees))
required_accessors-Single_example =
    required_accessors-Single standard_oids sample_tbs
      (record { critical = true; value = record { flags = 97 } }) (other no_usage) (other no_policy)
      (other (record { skip_certs = 0 })) (other (record { mappings = [] }))
      (other (record { general_names = [] })) (other no_subtrees)

is_ca-Single_example : (is_ca standard_oids sample_tbs ≡ true) ↔ (
    (found : BasicExtension BasicConstraints) × Single basic_constraints
      (with_oid (id_ce 19) (usage_ext ∷ authority_ext ∷ []))
      found
    × (found.value.ca ≡ true))
is_ca-Single_example = is_ca-Single standard_oids sample_tbs

time_to_expiration-some_example :
    (time_to_expiration sample_tbs.validity (record { instant = 13 }) ≡ some 7)
    ↔ ((10 ≤ 13) × (13 + 7 ≡ 20) × (0 < 7))
time_to_expiration-some_example =
    time_to_expiration-some sample_tbs.validity (record { instant = 13 }) 7

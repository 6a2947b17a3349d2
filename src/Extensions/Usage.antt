-- ===== src/Extensions/Usage.antt =====
-- src/extensions/keyusage.rs: the parser of the extended key usages.
pub mod Tracked
pub mod Others
pub mod Flagged
use x509_parser.Asn1.{Oid, oid_eq}
use x509_parser.Der.{Der}
use x509_parser.Error.{BerError}
use x509_parser.Extensions.{ExtendedKeyUsage}
use x509_parser.OidMap.{set_contains}
use x509_parser.Prelude.{List, [], false, if◌then◌else◌, true, ℕ, ◌++◌, ◌∷◌}
use x509_parser.Result.{Parser, ok, ◌>>=◌}

-- The identifiers that `parse_extendedkeyusage` compares with.
abbrev pub any_extended_key_usage : Oid
any_extended_key_usage = 2 ∷ 5 ∷ 29 ∷ 37 ∷ 0 ∷ []

abbrev pub key_purpose : ℕ → Oid
key_purpose n = 1 ∷ 3 ∷ 6 ∷ 1 ∷ 5 ∷ 5 ∷ 7 ∷ 3 ∷ n ∷ []

abbrev pub no_usage : ExtendedKeyUsage
no_usage = record {
  any_usage = false;
  server_auth = false;
  client_auth = false;
  code_signing = false;
  email_protection = false;
  time_stamping = false;
  ocsp_signing = false;
  others = [];
}

-- The chain of tests in the loop's body.
unfoldable pub usage_step : ExtendedKeyUsage → Oid → ExtendedKeyUsage
usage_step eku oid =
    if oid_eq oid any_extended_key_usage
    then record eku { any_usage = true }
    else if oid_eq oid (key_purpose 1)
    then record eku { server_auth = true }
    else if oid_eq oid (key_purpose 2)
    then record eku { client_auth = true }
    else if oid_eq oid (key_purpose 3)
    then record eku { code_signing = true }
    else if oid_eq oid (key_purpose 4)
    then record eku { email_protection = true }
    else if oid_eq oid (key_purpose 8)
    then record eku { time_stamping = true }
    else if oid_eq oid (key_purpose 9)
    then record eku { ocsp_signing = true }
    else record eku { others = eku.others ++ oid ∷ [] }

-- The loop, over `seen` and `eku`; `continue` on an identifier that was seen.
unfoldable pub usage_loop : List Oid → ExtendedKeyUsage → List Oid → ExtendedKeyUsage
unfolding set_contains usage_step
usage_loop seen eku [] = eku
usage_loop seen eku (oid ∷ seq) = elim (set_contains oid seen) [
  | true ↦ usage_loop seen eku seq
  | false ↦ usage_loop (oid ∷ seen) (usage_step eku oid) seq
]

module _ (d : Der) where
  unfoldable pub parse_extendedkeyusage : Parser BerError ExtendedKeyUsage
  unfolding usage_loop
  parse_extendedkeyusage i = do (ret, seq) ← d.oids_from_der i; ok (ret, usage_loop [] no_usage seq)

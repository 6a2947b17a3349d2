-- ===== src/Validate/Combined.antt =====
-- The two validators of a certificate one after the other, as examples/print-cert.rs chains them:
-- src/validate/mod.rs, src/validate/structure.rs and src/validate/certificate.rs.
use x509_parser.Asn1.{Oid, Oids}
use x509_parser.Certificate.{X509Certificate}
use x509_parser.Der.{Der}
use x509_parser.Extensions.{
  ParsedExtension, X509Extension, authority_key_identifier, certificate_policies, key_usage,
  subject_alternative_name,
}
use x509_parser.OidMap.{set_insert}
use x509_parser.Prelude.{Bool, List, Text, [], all, ap, map, true, ◌&&◌, ◌++◌, ◌∙◌, ◌∷◌, ◌≡◌}
use x509_parser.PublicKey.{parsed}
use x509_parser.Validate.Chain.{chain, chain-replay}
use x509_parser.Validate.Logger.{Event, Logger, no_error, replay, tracer}
use x509_parser.Validate.Pedantic.{
  certificate_validator, distinct_step, extension_step, extensions_validator, must_not_critical,
  should_critical, should_not_critical,
}
use x509_parser.Validate.Pedantic.Outcome.{
  distinct_policies, extensions_validator_result, no_duplicate,
}
use x509_parser.Validate.Replay.{
  IsReplayed, IsTraced, err_if-IsTraced, fail_if-IsTraced, for_each-IsTraced, replayed,
  skip-IsTraced, validate-IsReplayed, warn_if-IsTraced, ⨾-IsTraced,
}
use x509_parser.Validate.Steps.{after, check, running, validate}
use x509_parser.Validate.Structure.{Shows, structure_validator}
use x509_parser.Validate.Structure.Verdict.{
  IsIndexable, san_name_step-IsStrict, structure_validator-Verdict,
}

-- No identifier stands twice among the extensions, and no policy twice in any of them.
abbrev pub no_repetition : List X509Extension → Bool
no_repetition exts =
    no_duplicate (map (λ ext. ext.oid) exts)
    && all (λ ext. distinct_policies ext.parsed_extension) exts

distinct_step-IsTraced :
    {A : Type 0} (key : A → Oid) (message : Oid → Text) (m : List Oid) (xs : List A)
    → IsTraced (distinct_step key message m xs)
unfolding distinct_step
distinct_step-IsTraced key message m [] = skip-IsTraced
distinct_step-IsTraced key message m (x ∷ xs) =
    ⨾-IsTraced _ _ (fail_if-IsTraced _ _)
      (distinct_step-IsTraced key message (set_insert (key x) m).1 xs)

module _ (show_oid : Oid → Text) where
  extension_step-IsTraced :
      (critical : Bool) (p : ParsedExtension) → IsTraced (extension_step show_oid critical p)
  unfolding extension_step must_not_critical should_critical should_not_critical
  extension_step-IsTraced critical (authority_key_identifier aki) =
      ⨾-IsTraced _ _ (err_if-IsTraced _ _) (warn_if-IsTraced _ _)
  extension_step-IsTraced critical (certificate_policies policies) =
      distinct_step-IsTraced _ _ [] policies
  extension_step-IsTraced critical (key_usage ku) =
      ⨾-IsTraced _ _ (warn_if-IsTraced _ _) (err_if-IsTraced _ _)
  extension_step-IsTraced critical (subject_alternative_name san) =
      ⨾-IsTraced _ _ (warn_if-IsTraced _ _)
        (for_each-IsTraced _ (λ name. (san_name_step-IsStrict name).traced) san.general_names)
  extension_step-IsTraced critical _ = skip-IsTraced

  extensions_validator-IsReplayed : IsReplayed (extensions_validator show_oid)
  unfolding extensions_validator
  extensions_validator-IsReplayed = validate-IsReplayed _ λ exts.
      ⨾-IsTraced _ _ (distinct_step-IsTraced _ _ [] exts) (
        for_each-IsTraced _ (λ ext. extension_step-IsTraced ext.critical ext.parsed_extension) exts)

  certificate_validator-replay :
      (item : X509Certificate)
      → (events : List Event) × ((L : Type 0) (l : Logger L) (log : L)
          → certificate_validator show_oid L l item log
            ≡ running (no_repetition item.tbs_certificate.extensions) (replay l events log))
  unfolding certificate_validator validate check
  certificate_validator-replay item =
      let exts = item.tbs_certificate.extensions in
      let (events, e) = extensions_validator_result show_oid (List Event) tracer exts [] in
      (
        events,
        λ L l log.
            ap (λ r. after r (λ good log'. running (true && good) log'))
              (extensions_validator-IsReplayed L l exts log ∙ ap (λ r. replayed l r true log) e),
      )

-- The chain of the structure validator and the certificate validator ends on every certificate but
-- one whose RSA key has an empty modulus or exponent. On every logger it makes the calls that the
-- first makes on that logger and then, whatever the first returns, those that the second makes. The
-- calls do not depend on the logger. The first returns true exactly if none of its calls reports an
-- error, the second exactly if no identifier stands twice among the extensions and no policy twice
-- in any certificate policies, and the chain exactly if both do.
pub chain-Verdict :
    (d : Der) (oids : Oids) (s : Shows) (item : X509Certificate)
    → IsIndexable (parsed d oids item.tbs_certificate.subject_pki)
    → (calls checks : List Event) × ((L : Type 0) (l : Logger L) (log : L)
        → (structure_validator d oids s L l item log
            ≡ running (no_error calls) (replay l calls log))
          × (certificate_validator s.oid L l item log
              ≡ running (no_repetition item.tbs_certificate.extensions) (replay l checks log))
          × (chain (structure_validator d oids s) (certificate_validator s.oid) L l item log
              ≡ running
                  (no_error calls && no_repetition item.tbs_certificate.extensions)
                  (replay l (calls ++ checks) log)))
chain-Verdict d oids s item h =
    let (calls, e) = structure_validator-Verdict d oids s item h in
    let (checks, f) = certificate_validator-replay s.oid item in
    (
      calls,
      checks,
      λ L l log. (
        e L l log,
        f L l log,
        chain-replay (structure_validator d oids s) (certificate_validator s.oid) item _ _ calls
            checks e f L l log,
      ),
    )

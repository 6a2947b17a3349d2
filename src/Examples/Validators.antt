-- ===== src/Examples/Validators.antt =====
-- The validators' theorems at concrete certificates.
use x509_parser.Certificate.{X509Certificate}
use x509_parser.Examples.{child, id_ce, no_text, plain, standard_oids}
use x509_parser.Examples.Samples.{algorithm_of, authority_ext, sample, sample_tbs, usage_ext}
use x509_parser.Prelude.{List, [], all, list_eq, true, ◌&&◌, ◌++◌, ◌↔◌, ◌∷◌, ◌≡◌}
use x509_parser.PublicKey.{RsaPublicKey, parse_rsa_key, parsed, rsa, rsa_from_der}
use x509_parser.Result.{ok}
use x509_parser.Validate.Callbacks.{
  lists_of, seen_as, tbs_certificate_validate, validate_to_vec, validate_to_vec-vec_logger,
  x509_certificate_validate,
}
use x509_parser.Validate.Chain.{chain}
use x509_parser.Validate.Combined.{chain-Verdict, no_repetition}
use x509_parser.Validate.Logger.{
  Event, Logger, VecLogger, empty_logger, no_error, replay, vec_logger,
}
use x509_parser.Validate.Pedantic.{certificate_validator, extensions_validator}
use x509_parser.Validate.Pedantic.Outcome.{extensions_validator_result, no_duplicate}
use x509_parser.Validate.Steps.{panicked, running}
use x509_parser.Validate.Structure.{structure_validator, tbs_structure_validator}
use x509_parser.Validate.Structure.Panic.{IsEmpty, structure_validator-panicked}
use x509_parser.Validate.Structure.Verdict.{structure_validator-Verdict}
use x509_parser.X509.{SubjectPublicKeyInfo}

structure_validator-Verdict_example :
    (events : List Event) × ((L : Type 0) (l : Logger L) (log : L)
      → structure_validator plain standard_oids no_text L l sample log
        ≡ running (no_error events) (replay l events log))
unfolding parsed rsa_from_der parse_rsa_key list_eq
structure_validator-Verdict_example =
    structure_validator-Verdict plain standard_oids no_text sample ((λ h. cc), (λ h. cc))

extensions_validator_result_example :
    (log : VecLogger) × (extensions_validator no_text.oid VecLogger vec_logger
        (usage_ext ∷ authority_ext ∷ usage_ext ∷ [])
        empty_logger
      ≡ running (no_duplicate (id_ce 15 ∷ id_ce 19 ∷ id_ce 15 ∷ []) && true) log)
unfolding all
extensions_validator_result_example =
    extensions_validator_result no_text.oid VecLogger vec_logger
      (usage_ext ∷ authority_ext ∷ usage_ext ∷ []) empty_logger

chain-Verdict_example :
    (calls : List Event) × (checks : List Event) × ((L : Type 0) (l : Logger L) (log : L)
      → (structure_validator plain standard_oids no_text L l sample log
          ≡ running (no_error calls) (replay l calls log))
        × (certificate_validator no_text.oid L l sample log
            ≡ running (no_repetition sample.tbs_certificate.extensions) (replay l checks log))
        × (chain
              (structure_validator plain standard_oids no_text)
              (certificate_validator no_text.oid)
              L
              l
              sample
              log
            ≡ running
                (no_error calls && no_repetition sample.tbs_certificate.extensions)
                (replay l (calls ++ checks) log)))
unfolding parsed rsa_from_der parse_rsa_key list_eq
chain-Verdict_example = chain-Verdict plain standard_oids no_text sample ((λ h. cc), (λ h. cc))

-- A key whose encoding is empty.
abbrev empty_key : SubjectPublicKeyInfo
empty_key = record {
  algorithm = algorithm_of (child 1);
  subject_public_key = record { unused_bits = 0; content = [] };
  raw = [];
}

abbrev empty_keyed : X509Certificate
empty_keyed = record sample { tbs_certificate = record sample_tbs { subject_pki = empty_key } }

structure_validator-panicked_example :
    (structure_validator plain standard_oids no_text VecLogger vec_logger empty_keyed empty_logger
      ≡ panicked)
    ↔ ((key : RsaPublicKey) × (parsed plain standard_oids empty_key ≡ ok (rsa key)) × IsEmpty key)
structure_validator-panicked_example =
    structure_validator-panicked plain standard_oids no_text empty_keyed VecLogger vec_logger
      empty_logger

validate_to_vec-vec_logger_example :
    (validate_to_vec (tbs_certificate_validate plain standard_oids no_text) sample_tbs
      ≡ seen_as lists_of (
          tbs_structure_validator plain standard_oids no_text VecLogger vec_logger sample_tbs
            empty_logger))
    × (validate_to_vec (x509_certificate_validate plain standard_oids no_text) sample
        ≡ seen_as lists_of (
            structure_validator plain standard_oids no_text VecLogger vec_logger sample
              empty_logger))
validate_to_vec-vec_logger_example =
    validate_to_vec-vec_logger plain standard_oids no_text sample_tbs sample

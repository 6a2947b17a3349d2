-- ===== src/Validate/Callbacks.antt =====
-- The deprecated trait `Validate` of src/validate/mod.rs and its two implementations in
-- src/certificate.rs: validation with two callbacks in place of a logger.
use x509_parser.Asn1.{Oids}
use x509_parser.Certificate.{TbsCertificate, X509Certificate}
use x509_parser.Der.{Der}
use x509_parser.Prelude.{List, Text, [], ap, refl, sym, true, ◌&&◌, ◌++◌, ◌∙◌, ◌∷◌, ◌≡◌}
use x509_parser.Validate.Logger.{
  Event, Logger, VecLogger, callback_logger, empty_logger, erred, replay, tracer, vec_logger,
  warned,
}
use x509_parser.Validate.Replay.{IsReplayed, check-IsTraced, replayed, validate-IsReplayed}
use x509_parser.Validate.Steps.{Run, Validator, panicked, running, validate}
use x509_parser.Validate.Structure.{Shows, structure_validator, tbs_structure_validator}
use x509_parser.Validate.Structure.Verdict.{tbs_step-IsTraced}

-- `Validate::validate` of a type, over any state that the two closures change.
abbrev pub Validate : Type 0 → Type 1
Validate I = I → (S : Type 0) → (Text → S → S) → (Text → S → S) → S → Run S

-- `warn_list.push(s.to_owned())` and `err_list.push(s.to_owned())`.
abbrev push_warning : Text → List Text × List Text → List Text × List Text
push_warning s lists = (lists.0 ++ s ∷ [], lists.1)

abbrev push_error : Text → List Text × List Text → List Text × List Text
push_error s lists = (lists.0, lists.1 ++ s ∷ [])

-- `Validate::validate_to_vec`: the state is the two vectors.
unfoldable pub validate_to_vec : {I : Type 0} → Validate I → I → Run (List Text × List Text)
validate_to_vec validate item =
    validate item (List Text × List Text) push_warning push_error ([], [])

module _ (d : Der) (oids : Oids) (s : Shows) where
  unfoldable pub tbs_certificate_validate : Validate TbsCertificate
  tbs_certificate_validate item S on_warn on_err =
      tbs_structure_validator d oids s S (callback_logger on_warn on_err) item

  unfoldable pub x509_certificate_validate : Validate X509Certificate
  x509_certificate_validate item S on_warn on_err =
      structure_validator d oids s S (callback_logger on_warn on_err) item

-- A run, with another view of its logger.
abbrev pub seen_as : {L M : Type 0} → (L → M) → Run L → Run M
seen_as f (running res log) = running res (f log)
seen_as f panicked = panicked

-- A view of a logger that has the same calls.
replay-view :
    {L M : Type 0} (l : Logger L) (m : Logger M) (f : L → M)
    → ((t : Text) (x : L) → f (l.warn t x) ≡ m.warn t (f x))
    → ((t : Text) (x : L) → f (l.err t x) ≡ m.err t (f x))
    → (es : List Event) (x : L) → f (replay l es x) ≡ replay m es (f x)
unfolding replay
replay-view l m f w e [] x = refl
replay-view l m f w e (warned t ∷ es) x =
    replay-view l m f w e es (l.warn t x) ∙ ap (replay m es) (w t x)
replay-view l m f w e (erred t ∷ es) x =
    replay-view l m f w e es (l.err t x) ∙ ap (replay m es) (e t x)

validator-view :
    {I L M : Type 0} (v : Validator I)
    → IsReplayed v
    → (l : Logger L) (m : Logger M) (f : L → M)
    → ((t : Text) (x : L) → f (l.warn t x) ≡ m.warn t (f x))
    → ((t : Text) (x : L) → f (l.err t x) ≡ m.err t (f x))
    → (item : I) (x : L) → seen_as f (v L l item x) ≡ v M m item (f x)
validator-view {I} {L} {M} v h l m f w e item x =
    ap (seen_as f) (h L l item x) ∙ same (v (List Event) tracer item []) ∙ sym (h M m item (f x))
  where
    same : (r : Run (List Event)) → seen_as f (replayed l r true x) ≡ replayed m r true (f x)
    same (running good es) = ap (running (true && good)) (replay-view l m f w e es x)
    same panicked = refl

abbrev pub lists_of : VecLogger → List Text × List Text
lists_of log = (log.warnings, log.errors)

vectors-view :
    {I : Type 0} (v : Validator I)
    → IsReplayed v
    → (item : I)
    → seen_as lists_of (v VecLogger vec_logger item empty_logger)
      ≡ v (List Text × List Text) (callback_logger push_warning push_error) item ([], [])
unfolding vec_logger callback_logger
vectors-view v h item =
    validator-view v h vec_logger (callback_logger push_warning push_error) lists_of (λ t x. refl)
      (λ t x. refl) item empty_logger

module _ (d : Der) (oids : Oids) (s : Shows) where
  tbs_structure_validator-IsReplayed : IsReplayed (tbs_structure_validator d oids s)
  unfolding tbs_structure_validator
  tbs_structure_validator-IsReplayed = validate-IsReplayed _ (tbs_step-IsTraced d oids s)

  structure_validator-IsReplayed : IsReplayed (structure_validator d oids s)
  unfolding structure_validator
  structure_validator-IsReplayed =
      validate-IsReplayed _
        (λ item. check-IsTraced _ item.tbs_certificate tbs_structure_validator-IsReplayed)

  -- The deprecated validation into two vectors returns, for a certificate and for its signed part,
  -- what the structure validator returns, with the warnings and the errors that it leaves in an
  -- empty vector logger; and it panics where the structure validator does.
  pub validate_to_vec-vec_logger :
      (tbs : TbsCertificate) (item : X509Certificate)
      → (validate_to_vec (tbs_certificate_validate d oids s) tbs
          ≡ seen_as lists_of
              (tbs_structure_validator d oids s VecLogger vec_logger tbs empty_logger))
        × (validate_to_vec (x509_certificate_validate d oids s) item
            ≡ seen_as lists_of
                (structure_validator d oids s VecLogger vec_logger item empty_logger))
  unfolding validate_to_vec tbs_certificate_validate x509_certificate_validate
  validate_to_vec-vec_logger tbs item = (
    sym (vectors-view _ tbs_structure_validator-IsReplayed tbs),
    sym (vectors-view _ structure_validator-IsReplayed item),
  )

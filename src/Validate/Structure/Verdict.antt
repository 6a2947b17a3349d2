-- ===== src/Validate/Structure/Verdict.antt =====
-- The verdict of the structure validators against the calls that they make.
use x509_parser.Asn1.{Oid, Oids}
use x509_parser.Certificate.{TbsCertificate, X509Certificate}
use x509_parser.Der.{Der}
use x509_parser.Error.{X509Error}
use x509_parser.Extensions.{
  GeneralName, ParsedExtension, X509Extension, dns_name, parse_error, rfc822_name,
  subject_alternative_name, unsupported_extension,
}
use x509_parser.Prelude.{Bytes, List, Text, [], ap, refl, true, ◌∙◌, ◌∷◌, ◌≡◌, ◌≢◌}
use x509_parser.PublicKey.{PublicKey, parsed, rsa, unknown}
use x509_parser.Result.{Result, err, ok}
use x509_parser.Validate.Key.{key_step, key_validator, warn_negative}
use x509_parser.Validate.Logger.{Event, Logger, no_error, replay}
use x509_parser.Validate.Name.{attribute_step, name_validator}
use x509_parser.Validate.Replay.{
  IsTraced, check-IsTraced, fail_if-IsTraced, panic-IsTraced, replayed, skip-IsTraced, trace,
  validate-IsReplayed, warn_if-IsTraced, ⨾-IsTraced,
}
use x509_parser.Validate.Steps.{Run, Step, check, for_each, panicked, running, validate}
use x509_parser.Validate.Strict.{
  Agrees, IsStrict, check-IsStrict, fail_if-IsStrict, for_each-IsStrict, skip-IsStrict,
  warn_if-IsStrict, ⨾-IsStrict,
}
use x509_parser.Validate.Structure.{
  Shows, parse_status_step, san_name_step, san_step, serial_step, structure_validator, tbs_step,
  tbs_structure_validator,
}
use x509_parser.X509.{
  AttributeTypeAndValue, RelativeDistinguishedName, SubjectPublicKeyInfo, X509Name,
}
use x509_parser.X509.Attributes.{iter_attributes}

attribute_step-IsStrict :
    (show_oid : Oid → Text) (attr : AttributeTypeAndValue) → IsStrict (attribute_step show_oid attr)
unfolding attribute_step
attribute_step-IsStrict show_oid attr = warn_if-IsStrict _ _

name_step-IsStrict :
    (show_oid : Oid → Text) (rdns : List RelativeDistinguishedName)
    → IsStrict (for_each (attribute_step show_oid) (iter_attributes rdns))
name_step-IsStrict show_oid rdns =
    for_each-IsStrict (attribute_step show_oid) (attribute_step-IsStrict show_oid)
      (iter_attributes rdns)

check_name-IsStrict :
    (show_oid : Oid → Text) (name : X509Name) → IsStrict (check (name_validator show_oid) name)
unfolding name_validator
check_name-IsStrict show_oid name =
    check-IsStrict _ name (λ n. (name_step-IsStrict show_oid n.rdn_seq).traced)
      (name_step-IsStrict show_oid name.rdn_seq)

warn_negative-IsTraced : (bytes : Bytes) (message : Text) → IsTraced (warn_negative bytes message)
unfolding warn_negative
warn_negative-IsTraced [] message = panic-IsTraced
warn_negative-IsTraced (b ∷ bs) message = warn_if-IsTraced _ _

key_step-IsTraced : (r : Result X509Error PublicKey) → IsTraced (key_step r)
unfolding key_step
key_step-IsTraced (ok (rsa key)) =
    ⨾-IsTraced _ _ (warn_negative-IsTraced _ _) (warn_negative-IsTraced _ _)
key_step-IsTraced (ok (unknown b)) = warn_if-IsTraced _ _
key_step-IsTraced (err e) = fail_if-IsTraced _ _
key_step-IsTraced (ok _) = skip-IsTraced

-- An RSA key has a modulus and an exponent with at least one byte.
abbrev pub IsIndexable : Result X509Error PublicKey → Type 0
IsIndexable (ok (rsa key)) = (key.modulus ≢ []) × (key.exponent ≢ [])
IsIndexable _ = Unit

warn_negative-IsStrict :
    (bytes : Bytes) (message : Text) → bytes ≢ [] → IsStrict (warn_negative bytes message)
unfolding warn_negative
warn_negative-IsStrict [] message h = absurd (h refl)
warn_negative-IsStrict (b ∷ bs) message h = warn_if-IsStrict _ _

key_step-IsStrict : (r : Result X509Error PublicKey) → IsIndexable r → IsStrict (key_step r)
unfolding key_step
key_step-IsStrict (ok (rsa key)) h =
    ⨾-IsStrict _ _ (warn_negative-IsStrict _ _ h.0) (warn_negative-IsStrict _ _ h.1)
key_step-IsStrict (ok (unknown b)) h = warn_if-IsStrict _ _
key_step-IsStrict (err e) h = fail_if-IsStrict _ _
key_step-IsStrict (ok _) h = skip-IsStrict

serial_step-IsStrict : (b : Bytes) → IsStrict (serial_step b)
unfolding serial_step
serial_step-IsStrict [] = fail_if-IsStrict _ _
serial_step-IsStrict (b ∷ bs) = ⨾-IsStrict _ _ (warn_if-IsStrict _ _) (warn_if-IsStrict _ _)

pub san_name_step-IsStrict : (name : GeneralName) → IsStrict (san_name_step name)
unfolding san_name_step
san_name_step-IsStrict (dns_name s) = warn_if-IsStrict _ _
san_name_step-IsStrict (rfc822_name s) = warn_if-IsStrict _ _
san_name_step-IsStrict _ = skip-IsStrict

san_step-IsStrict : (p : ParsedExtension) → IsStrict (san_step p)
unfolding san_step
san_step-IsStrict (subject_alternative_name san) = for_each-IsStrict _ san_name_step-IsStrict _
san_step-IsStrict _ = skip-IsStrict

parse_status_step-IsStrict :
    (s : Shows) (oid : Oid) (p : ParsedExtension) → IsStrict (parse_status_step s oid p)
unfolding parse_status_step
parse_status_step-IsStrict s oid (unsupported_extension o) = warn_if-IsStrict _ _
parse_status_step-IsStrict s oid (parse_error e) = fail_if-IsStrict _ _
parse_status_step-IsStrict s oid _ = skip-IsStrict

module _ (d : Der) (oids : Oids) (s : Shows) where
  check_key-IsTraced : (spki : SubjectPublicKeyInfo) → IsTraced (check (key_validator d oids) spki)
  unfolding key_validator
  check_key-IsTraced spki =
      check-IsTraced _ spki (validate-IsReplayed _ (λ k. key_step-IsTraced (parsed d oids k)))

  check_key-IsStrict :
      (spki : SubjectPublicKeyInfo)
      → IsIndexable (parsed d oids spki)
      → IsStrict (check (key_validator d oids) spki)
  unfolding key_validator
  check_key-IsStrict spki h =
      check-IsStrict _ spki (λ k. key_step-IsTraced (parsed d oids k))
        (key_step-IsStrict (parsed d oids spki) h)

  statuses-IsStrict :
      (exts : List X509Extension)
      → IsStrict (for_each (λ ext. parse_status_step s ext.oid ext.parsed_extension) exts)
  statuses-IsStrict exts =
      for_each-IsStrict _ (λ ext. parse_status_step-IsStrict s ext.oid ext.parsed_extension) exts

  sans-IsStrict :
      (exts : List X509Extension) → IsStrict (for_each (λ ext. san_step ext.parsed_extension) exts)
  sans-IsStrict exts = for_each-IsStrict _ (λ ext. san_step-IsStrict ext.parsed_extension) exts

  pub tbs_step-IsTraced : (item : TbsCertificate) → IsTraced (tbs_step d oids s item)
  unfolding tbs_step
  tbs_step-IsTraced item = ⨾-IsTraced _ _ (fail_if-IsTraced _ _) (
      ⨾-IsTraced _ _ (fail_if-IsTraced _ _) (
        ⨾-IsTraced _ _ (serial_step-IsStrict item.raw_serial).traced (
          ⨾-IsTraced _ _ (check_name-IsStrict s.oid item.subject).traced (
            ⨾-IsTraced _ _ (check_name-IsStrict s.oid item.issuer).traced (
              ⨾-IsTraced _ _ (check_key-IsTraced item.subject_pki) (
                ⨾-IsTraced _ _ (statuses-IsStrict item.extensions).traced
                  (sans-IsStrict item.extensions).traced))))))

  tbs_step-IsStrict :
      (item : TbsCertificate)
      → IsIndexable (parsed d oids item.subject_pki)
      → IsStrict (tbs_step d oids s item)
  unfolding tbs_step
  tbs_step-IsStrict item h = ⨾-IsStrict _ _ (fail_if-IsStrict _ _) (
      ⨾-IsStrict _ _ (fail_if-IsStrict _ _) (
        ⨾-IsStrict _ _ (serial_step-IsStrict item.raw_serial) (
          ⨾-IsStrict _ _ (check_name-IsStrict s.oid item.subject) (
            ⨾-IsStrict _ _ (check_name-IsStrict s.oid item.issuer) (
              ⨾-IsStrict _ _ (check_key-IsStrict item.subject_pki h) (
                ⨾-IsStrict _ _ (statuses-IsStrict item.extensions)
                  (sans-IsStrict item.extensions)))))))

  step-IsStrict :
      (item : X509Certificate)
      → IsIndexable (parsed d oids item.tbs_certificate.subject_pki)
      → IsStrict (check (tbs_structure_validator d oids s) item.tbs_certificate)
  unfolding tbs_structure_validator
  step-IsStrict item h =
      check-IsStrict (tbs_step d oids s) item.tbs_certificate tbs_step-IsTraced
        (tbs_step-IsStrict item.tbs_certificate h)

-- The result and the calls of a strict step, on every logger.
pub record Verdict (s : Step) : Type 1 where
  pub events : List Event
  pub on :
      (L : Type 0) (l : Logger L) (log : L)
      → s L l true log ≡ running (no_error events) (replay l events log)

IsStrict-Verdict : (s : Step) → IsStrict s → Verdict s
IsStrict-Verdict s h = verdict (trace s) refl h.agrees
  where
    verdict : (r : Run (List Event)) → trace s ≡ r → Agrees r → Verdict s
    verdict panicked e a = absurd a
    verdict (running good es) e a = record {
      events = es;
      on = λ L l log.
          h.traced L l true log
          ∙ ap (λ r. replayed l r true log) e
          ∙ ap (λ b. running b (replay l es log)) a;
    }

-- The structure validator ends on every certificate but one whose RSA key has an empty modulus
-- or exponent. Its calls to the logger are the same for every logger, and it returns true
-- exactly if none of them reports an error.
pub structure_validator-Verdict :
    (d : Der) (oids : Oids) (s : Shows) (item : X509Certificate)
    → IsIndexable (parsed d oids item.tbs_certificate.subject_pki)
    → (events : List Event) × ((L : Type 0) (l : Logger L) (log : L)
        → structure_validator d oids s L l item log
          ≡ running (no_error events) (replay l events log))
unfolding structure_validator validate
structure_validator-Verdict d oids s item h =
    let v = IsStrict-Verdict _ (step-IsStrict d oids s item h) in (v.events, v.on)

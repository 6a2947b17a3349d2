-- ===== src/Validate/Structure/Panic.antt =====
-- The certificates on which `X509StructureValidator` panics.
use x509_parser.Asn1.{Oids}
use x509_parser.Certificate.{TbsCertificate, X509Certificate}
use x509_parser.Der.{Der}
use x509_parser.Error.{X509Error}
use x509_parser.Prelude.{
  Bool, Bytes, List-cases, Text, [], inl, inr, refl, true, ◌↔◌, ◌∷◌, ◌≡◌, ◌⊎◌,
}
use x509_parser.PublicKey.{
  PublicKey, RsaPublicKey, dsa, ec, gost_r3410, gost_r3410_2012, parsed, rsa, unknown,
}
use x509_parser.Result.{Result, err, ok}
use x509_parser.Validate.Key.{key_step, key_validator, warn_negative}
use x509_parser.Validate.Logger.{Logger}
use x509_parser.Validate.Steps.{Run, Step, after, check, panic, panicked, running, validate, ◌⨾◌}
use x509_parser.Validate.Structure.{Shows, structure_validator, tbs_step, tbs_structure_validator}
use x509_parser.Validate.Structure.Verdict.{IsIndexable, structure_validator-Verdict}
use x509_parser.X509.{SubjectPublicKeyInfo}

-- The step panics on every logger.
abbrev Panics : Step → Type 1
Panics s = (L : Type 0) (l : Logger L) (res : Bool) (log : L) → s L l res log ≡ panicked

after_panic :
    {L : Type 0} (r : Run L) (next : Bool → L → Run L)
    → ((res : Bool) (log : L) → next res log ≡ panicked)
    → after r next ≡ panicked
after_panic panicked next h = refl
after_panic (running res log) next h = h res log

later-Panics : (s t : Step) → Panics t → Panics (s ⨾ t)
unfolding ◌⨾◌
later-Panics s t h L l res log = after_panic (s L l res log) (t L l) (h L l)

first-Panics : (s t : Step) → Panics s → Panics (s ⨾ t)
unfolding ◌⨾◌
first-Panics s t h L l res log = rw (h L l res log) refl

check-Panics :
    {I : Type 0} (body : I → Step) (item : I)
    → Panics (body item)
    → Panics (check (validate body) item)
unfolding check validate
check-Panics body item h L l res log = rw (h L l true log) refl

panic-Panics : Panics panic
unfolding panic
panic-Panics L l res log = refl

-- An RSA key without a modulus or without an exponent.
abbrev pub IsEmpty : RsaPublicKey → Type 0
IsEmpty key = (key.modulus ≡ []) ⊎ (key.exponent ≡ [])

warn_negative-Panics :
    (bytes : Bytes) (message : Text) → bytes ≡ [] → Panics (warn_negative bytes message)
unfolding warn_negative
warn_negative-Panics [] message e = panic-Panics
warn_negative-Panics (b ∷ bs) message e = cc

rsa_step-Panics : (key : RsaPublicKey) → IsEmpty key → Panics (key_step (ok (rsa key)))
unfolding key_step
rsa_step-Panics key (inl e) = first-Panics _ _ (warn_negative-Panics key.modulus _ e)
rsa_step-Panics key (inr e) = later-Panics _ _ (warn_negative-Panics key.exponent _ e)

-- What is parsed of a key has a modulus and an exponent if it is an RSA key, or it is an RSA key
-- without one of them.
key-cases :
    (r : Result X509Error PublicKey)
    → IsIndexable r ⊎ ((key : RsaPublicKey) × (r ≡ ok (rsa key)) × IsEmpty key)
key-cases (ok (rsa key)) = elim (List-cases key.modulus) [
  | inl e ↦ inr (key, refl, inl e)
  | inr (b, bs, e) ↦ elim (List-cases key.exponent) [
    | inl f ↦ inr (key, refl, inr f)
    | inr (c, cs, f) ↦ inl ((λ h. cc), (λ h. cc))
  ]
]
key-cases (ok (ec _)) = inl tt
key-cases (ok (dsa _)) = inl tt
key-cases (ok (gost_r3410 _)) = inl tt
key-cases (ok (gost_r3410_2012 _)) = inl tt
key-cases (ok (unknown _)) = inl tt
key-cases (err e) = inl tt

module _ (d : Der) (oids : Oids) (s : Shows) where
  check_key-Panics :
      (spki : SubjectPublicKeyInfo) (key : RsaPublicKey)
      → parsed d oids spki ≡ ok (rsa key)
      → IsEmpty key
      → Panics (check (key_validator d oids) spki)
  unfolding key_validator
  check_key-Panics spki key e empty =
      check-Panics (λ k. key_step (parsed d oids k)) spki (rw e (rsa_step-Panics key empty))

  tbs_step-Panics :
      (item : TbsCertificate) (key : RsaPublicKey)
      → parsed d oids item.subject_pki ≡ ok (rsa key)
      → IsEmpty key
      → Panics (tbs_step d oids s item)
  unfolding tbs_step
  tbs_step-Panics item key e empty =
      let here = first-Panics _ _ (check_key-Panics item.subject_pki key e empty) in
      later-Panics _ _
        (later-Panics _ _ (later-Panics _ _ (later-Panics _ _ (later-Panics _ _ here))))

  -- The structure validator panics on a certificate, on any logger, exactly if the key of the
  -- certificate is parsed as an RSA key without a modulus or without an exponent. All that is
  -- wrong with other parts of the certificate neither causes a panic nor prevents it.
  pub structure_validator-panicked :
      (item : X509Certificate) (L : Type 0) (l : Logger L) (log : L)
      → (structure_validator d oids s L l item log ≡ panicked) ↔ (
          (key : RsaPublicKey) × (parsed d oids item.tbs_certificate.subject_pki ≡ ok (rsa key))
          × IsEmpty key)
  unfolding structure_validator tbs_structure_validator validate
  structure_validator-panicked item L l log = (
    λ stuck. elim (key-cases (parsed d oids item.tbs_certificate.subject_pki)) [
      | inl h ↦
          let (events, e) = structure_validator-Verdict d oids s item h in
          absurd (cc (stuck, e L l log))
      | inr found ↦ found
    ],
    λ (key, e, empty).
        check-Panics (tbs_step d oids s) item.tbs_certificate
          (tbs_step-Panics item.tbs_certificate key e empty) L l true log,
  )

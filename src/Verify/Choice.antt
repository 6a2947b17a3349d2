-- ===== src/Verify/Choice.antt =====
-- The signatures that `verify_signature` accepts.
use x509_parser.Asn1.{BitString, Oid, Oids, oid_eq}
use x509_parser.Der.{Der}
use x509_parser.Error.{signature_unsupported_algorithm, signature_verification_error}
use x509_parser.Prelude.{
  Bool-cases, Bytes, Option, Option-cases, any, ap, eq_of_list_eq, inl, inr, none, refl, some, true,
  ℕ, ◌||◌, ◌≡◌,
}
use x509_parser.Result.{
  Holds, Holds->>=, Holds-err, Holds-if, Holds-ok, Result-cases, ok, ok_or, to_option,
}
use x509_parser.Verify.{Ring, get_ec_curve_sha, sha_choice, verification_alg, verify_signature}
use x509_parser.X509.{AlgorithmIdentifier, SubjectPublicKeyInfo}

module _ (d : Der) where
  -- The curve that the parameters of a key name.
  abbrev pub curve_of : AlgorithmIdentifier → Option Oid
  curve_of alg = elim alg.parameters [ none ↦ none | some any ↦ to_option (d.any_as_oid any) ]

  -- The algorithms that may verify a signature with identifier `oid` by a key: RSA with the
  -- digest of the identifier, ECDSA with that digest on the key's curve, or Ed25519.
  pub data Selects (oids : Oids) (ring : Ring) (key : AlgorithmIdentifier) (oid : Oid)
      : ring.Algorithm → Type 0 where
    sha1 :
        (oid_eq oid oids.pkcs1_sha1_with_rsa || oid_eq oid oids.sha1_with_rsa) ≡ true
        → Selects oids ring key oid ring.rsa_1024_sha1
    sha256 :
        oid_eq oid oids.pkcs1_sha256_with_rsa ≡ true
        → Selects oids ring key oid ring.rsa_2048_sha256
    sha384 :
        oid_eq oid oids.pkcs1_sha384_with_rsa ≡ true
        → Selects oids ring key oid ring.rsa_2048_sha384
    sha512 :
        oid_eq oid oids.pkcs1_sha512_with_rsa ≡ true
        → Selects oids ring key oid ring.rsa_2048_sha512
    p256_sha256 :
        oid_eq oid oids.ecdsa_with_sha256 ≡ true
        → curve_of key ≡ some oids.ec_p256
        → Selects oids ring key oid ring.ecdsa_p256_sha256
    p384_sha256 :
        oid_eq oid oids.ecdsa_with_sha256 ≡ true
        → curve_of key ≡ some oids.nist_ec_p384
        → Selects oids ring key oid ring.ecdsa_p384_sha256
    p256_sha384 :
        oid_eq oid oids.ecdsa_with_sha384 ≡ true
        → curve_of key ≡ some oids.ec_p256
        → Selects oids ring key oid ring.ecdsa_p256_sha384
    p384_sha384 :
        oid_eq oid oids.ecdsa_with_sha384 ≡ true
        → curve_of key ≡ some oids.nist_ec_p384
        → Selects oids ring key oid ring.ecdsa_p384_sha384
    edwards : oid_eq oid oids.sig_ed25519 ≡ true → Selects oids ring key oid ring.ed25519

  module _ (oids : Oids) (ring : Ring) where
    -- A digest's two algorithms, one for each curve.
    ec_curve-Holds :
        (P : ring.Algorithm → Type 0) (key : AlgorithmIdentifier) (n : ℕ) (a b : ring.Algorithm)
        → sha_choice d oids ring n ring.ecdsa_p256_sha256 ring.ecdsa_p256_sha384 ≡ some a
        → sha_choice d oids ring n ring.ecdsa_p384_sha256 ring.ecdsa_p384_sha384 ≡ some b
        → (curve_of key ≡ some oids.ec_p256 → P a)
        → (curve_of key ≡ some oids.nist_ec_p384 → P b)
        → Holds P (ok_or signature_unsupported_algorithm (get_ec_curve_sha d oids ring key n))
    unfolding get_ec_curve_sha
    ec_curve-Holds P key n a b ha hb f g = elim (Option-cases key.parameters) [
      | inl e ↦ rw (e, get_ec_curve_sha) (Holds-err P signature_unsupported_algorithm)
      | inr (any, e) ↦ elim (Result-cases (d.any_as_oid any)) [
        | inl (x, h) ↦ rw (e, h, get_ec_curve_sha) (Holds-err P signature_unsupported_algorithm)
        | inr (curve, h) ↦ elim (Bool-cases (oid_eq curve oids.ec_p256)) [
          | inl p ↦
              rw (e, h, p, ha, get_ec_curve_sha)
                (Holds-ok P a (f (rw (e, h) (ap some (eq_of_list_eq curve oids.ec_p256 p)))))
          | inr np ↦ elim (Bool-cases (oid_eq curve oids.nist_ec_p384)) [
            | inl p ↦
                rw (e, h, np, p, hb, get_ec_curve_sha)
                  (Holds-ok P b (g (rw (e, h) (ap some (eq_of_list_eq curve oids.nist_ec_p384 p)))))
            | inr nq ↦
                rw (e, h, np, nq, get_ec_curve_sha) (Holds-err P signature_unsupported_algorithm)
          ]
        ]
      ]
    ]

    verification_alg-Selects :
        (public_key : SubjectPublicKeyInfo) (oid : Oid)
        → Holds
            (Selects oids ring public_key.algorithm oid)
            (verification_alg d oids ring public_key oid)
    unfolding verification_alg sha_choice
    verification_alg-Selects public_key oid =
        let key = public_key.algorithm in
        let P = Selects oids ring key oid in
        Holds-if P (oid_eq oid oids.pkcs1_sha1_with_rsa || oid_eq oid oids.sha1_with_rsa)
          (λ p. Holds-ok P ring.rsa_1024_sha1 (sha1 p))
          (λ _.
            Holds-if P (oid_eq oid oids.pkcs1_sha256_with_rsa)
              (λ p. Holds-ok P ring.rsa_2048_sha256 (sha256 p))
              (λ _.
                Holds-if P (oid_eq oid oids.pkcs1_sha384_with_rsa)
                  (λ p. Holds-ok P ring.rsa_2048_sha384 (sha384 p))
                  (λ _.
                    Holds-if P (oid_eq oid oids.pkcs1_sha512_with_rsa)
                      (λ p. Holds-ok P ring.rsa_2048_sha512 (sha512 p))
                      (λ _.
                        Holds-if P (oid_eq oid oids.ecdsa_with_sha256)
                          (λ p.
                            ec_curve-Holds P key 256 ring.ecdsa_p256_sha256 ring.ecdsa_p384_sha256
                              refl refl (p256_sha256 p) (p384_sha256 p))
                          (λ _.
                            Holds-if P (oid_eq oid oids.ecdsa_with_sha384)
                              (λ p.
                                ec_curve-Holds P key 384 ring.ecdsa_p256_sha384
                                  ring.ecdsa_p384_sha384 refl refl (p256_sha384 p) (p384_sha384 p))
                              (λ _.
                                Holds-if P (oid_eq oid oids.sig_ed25519)
                                  (λ p. Holds-ok P ring.ed25519 (edwards p))
                                  (λ _. Holds-err P signature_unsupported_algorithm)))))))

    -- If `verify_signature` accepts, ring has verified the signature of the data by the key, and
    -- by an algorithm that the signature's identifier and the key's curve select.
    pub verify_signature-ok :
        (public_key : SubjectPublicKeyInfo) (alg : AlgorithmIdentifier) (sig : BitString)
        (raw : Bytes)
        → verify_signature d oids ring public_key alg sig raw ≡ ok tt
        → (a : ring.Algorithm) × Selects oids ring public_key.algorithm alg.algorithm a
          × (ring.verify a public_key.subject_public_key.content raw sig.content ≡ true)
    unfolding verify_signature
    verify_signature-ok public_key alg sig raw =
        let key = public_key.algorithm in
        let content = public_key.subject_public_key.content in
        let S = Selects oids ring key alg.algorithm in
        let V = λ (a : ring.Algorithm). ring.verify a content raw sig.content ≡ true in
        let P = λ (u : Unit {0}). (a : ring.Algorithm) × S a × V a in
        Holds->>= P S (verification_alg d oids ring public_key alg.algorithm) _
          (verification_alg-Selects public_key alg.algorithm)
          (λ a s.
            Holds-if P (ring.verify a content raw sig.content) (λ v. Holds-ok P tt (a, s, v))
              (λ _. Holds-err P signature_verification_error))
          tt

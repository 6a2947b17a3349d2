-- ===== src/Verify.antt =====
-- src/verify.rs: the choice of the verification algorithm and the verification of a signature.
-- The crate ring is a parameter.
pub mod Choice
use x509_parser.Asn1.{BitString, Oid, Oids, oid_eq}
use x509_parser.Certificate.{X509Certificate}
use x509_parser.Der.{Der}
use x509_parser.Error.{X509Error, signature_unsupported_algorithm, signature_verification_error}
use x509_parser.Prelude.{Bool, Bytes, Option, any, if◌then◌else◌, none, some, ℕ, ◌==◌, ◌||◌}
use x509_parser.Request.{X509CertificationRequest}
use x509_parser.Result.{Result, err, ok, ok_or, ◌>>=◌}
use x509_parser.RevocationList.{CertificateRevocationList}
use x509_parser.X509.{AlgorithmIdentifier, SubjectPublicKeyInfo}

-- What the program uses of ring: its algorithms by name, and `UnparsedPublicKey::verify` of an
-- algorithm, the key's bytes, the message and the signature.
pub record Ring : Type 1 where
  pub Algorithm : Type 0
  pub rsa_1024_sha1 : Algorithm
  pub rsa_2048_sha256 : Algorithm
  pub rsa_2048_sha384 : Algorithm
  pub rsa_2048_sha512 : Algorithm
  pub ecdsa_p256_sha256 : Algorithm
  pub ecdsa_p256_sha384 : Algorithm
  pub ecdsa_p384_sha256 : Algorithm
  pub ecdsa_p384_sha384 : Algorithm
  pub ed25519 : Algorithm
  pub verify : Algorithm → Bytes → Bytes → Bytes → Bool

module _ (d : Der) (oids : Oids) (ring : Ring) where
  -- The `match` on the length of the digest.
  unfoldable pub sha_choice : ℕ → ring.Algorithm → ring.Algorithm → Option ring.Algorithm
  sha_choice sha_len with_256 with_384 =
      if sha_len == 256 then some with_256 else if sha_len == 384 then some with_384 else none

  unfoldable pub get_ec_curve_sha : AlgorithmIdentifier → ℕ → Option ring.Algorithm
  unfolding sha_choice
  get_ec_curve_sha pubkey_alg sha_len = elim pubkey_alg.parameters [
    | none ↦ none
    | some any ↦ elim (d.any_as_oid any) [
      | err _ ↦ none
      | ok curve_oid ↦
          if oid_eq curve_oid oids.ec_p256
          then sha_choice sha_len ring.ecdsa_p256_sha256 ring.ecdsa_p256_sha384
          else if oid_eq curve_oid oids.nist_ec_p384
          then sha_choice sha_len ring.ecdsa_p384_sha256 ring.ecdsa_p384_sha384
          else none
    ]
  ]

  -- The chain of tests on the signature's identifier.
  unfoldable pub verification_alg : SubjectPublicKeyInfo → Oid → Result X509Error ring.Algorithm
  unfolding get_ec_curve_sha
  verification_alg public_key oid =
      if oid_eq oid oids.pkcs1_sha1_with_rsa || oid_eq oid oids.sha1_with_rsa
      then ok ring.rsa_1024_sha1
      else if oid_eq oid oids.pkcs1_sha256_with_rsa
      then ok ring.rsa_2048_sha256
      else if oid_eq oid oids.pkcs1_sha384_with_rsa
      then ok ring.rsa_2048_sha384
      else if oid_eq oid oids.pkcs1_sha512_with_rsa
      then ok ring.rsa_2048_sha512
      else if oid_eq oid oids.ecdsa_with_sha256
      then ok_or signature_unsupported_algorithm (get_ec_curve_sha public_key.algorithm 256)
      else if oid_eq oid oids.ecdsa_with_sha384
      then ok_or signature_unsupported_algorithm (get_ec_curve_sha public_key.algorithm 384)
      else if oid_eq oid oids.sig_ed25519
      then ok ring.ed25519
      else err signature_unsupported_algorithm

  unfoldable pub verify_signature :
      SubjectPublicKeyInfo → AlgorithmIdentifier → BitString → Bytes → Result {0, 0} X509Error Unit
  unfolding verification_alg
  verify_signature public_key signature_algorithm signature_value raw_data =
      verification_alg public_key signature_algorithm.algorithm >>= λ alg.
      if ring.verify alg public_key.subject_public_key.content raw_data signature_value.content
      then ok tt
      else err signature_verification_error

  -- `verify_signature` of a certificate: the key of the issuer, or the certificate's own key.
  unfoldable pub certificate_verify :
      X509Certificate → Option SubjectPublicKeyInfo → Result {0, 0} X509Error Unit
  unfolding verify_signature
  certificate_verify cert public_key =
      verify_signature
        (elim public_key [ some spki ↦ spki | none ↦ cert.tbs_certificate.subject_pki ])
        cert.signature_algorithm cert.signature_value cert.tbs_certificate.raw

  -- `verify_signature` of a revocation list.
  unfoldable pub list_verify :
      CertificateRevocationList → SubjectPublicKeyInfo → Result {0, 0} X509Error Unit
  unfolding verify_signature
  list_verify crl public_key =
      verify_signature public_key crl.signature_algorithm crl.signature_value crl.tbs_cert_list.raw

  -- `verify_signature` of a certification request: its own key.
  unfoldable pub request_verify : X509CertificationRequest → Result {0, 0} X509Error Unit
  unfolding verify_signature
  request_verify csr =
      let info = csr.certification_request_info in
      verify_signature info.subject_pki csr.signature_algorithm csr.signature_value info.raw

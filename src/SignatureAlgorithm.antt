-- ===== src/SignatureAlgorithm.antt =====
-- src/signature_algorithm.rs: the signature algorithm that an `AlgorithmIdentifier` names, and its
-- parameters.
pub mod Family
pub mod Params
use x509_parser.Asn1.{Any, Oid, Oids, oid_eq, starts_with, tag_sequence}
use x509_parser.Der.{Der}
use x509_parser.Error.{
  X509Error, der, from_nom_ber, from_nom_x509, invalid_algorithm_identifier,
  invalid_signature_value,
}
use x509_parser.Prelude.{Option, [], any, if◌then◌else◌, none, some, ℕ, ◌==◌, ◌∷◌}
use x509_parser.Result.{Result, Slice, err, map_err, ok, whole, ◌>>=◌}
use x509_parser.X509.{AlgorithmIdentifier}

pub record RsaSsaPssParams : Type 0 where
  pub hash_alg : Option AlgorithmIdentifier
  pub mask_gen_algorithm : Option AlgorithmIdentifier
  pub salt_length : Option ℕ
  pub trailer_field : Option ℕ

pub record MaskGenAlgorithm : Type 0 where
  pub mgf : Oid
  pub hash : Oid

pub record RsaAesOaepParams : Type 0 where
  pub hash_alg : Option AlgorithmIdentifier
  pub mask_gen_alg : Option AlgorithmIdentifier
  pub p_source_alg : Option AlgorithmIdentifier

pub data SignatureAlgorithm : Type 0 where
  rsa_pkcs1 : SignatureAlgorithm
  rsassa_pss : RsaSsaPssParams → SignatureAlgorithm
  rsaaes_oaep : RsaAesOaepParams → SignatureAlgorithm
  dsa_x957 : SignatureAlgorithm
  ecdsa : SignatureAlgorithm
  ed25519 : SignatureAlgorithm

-- `1.2.840.113549.1.1`, whose children are the algorithms of PKCS #1.
abbrev pub pkcs1 : Oid
pkcs1 = 1 ∷ 2 ∷ 840 ∷ 113549 ∷ 1 ∷ 1 ∷ []

abbrev pub ansi_x962_signatures : Oid
ansi_x962_signatures = 1 ∷ 2 ∷ 840 ∷ 10045 ∷ 4 ∷ []

abbrev pub x957_algorithms : Oid
x957_algorithms = 1 ∷ 2 ∷ 840 ∷ 10040 ∷ 4 ∷ []

abbrev pub rsaes_oaep : Oid
rsaes_oaep = 1 ∷ 2 ∷ 840 ∷ 113549 ∷ 1 ∷ 1 ∷ 7 ∷ []

abbrev pub id_mgf1 : Oid
id_mgf1 = 1 ∷ 2 ∷ 840 ∷ 113549 ∷ 1 ∷ 1 ∷ 8 ∷ []

abbrev pub id_p_specified : Oid
id_p_specified = 1 ∷ 2 ∷ 840 ∷ 113549 ∷ 1 ∷ 1 ∷ 9 ∷ []

unfoldable pub salt_length_of : RsaSsaPssParams → ℕ
salt_length_of params = elim params.salt_length [ none ↦ 20 | some n ↦ n ]

unfoldable pub trailer_field_of : RsaSsaPssParams → ℕ
trailer_field_of params = elim params.trailer_field [ none ↦ 1 | some n ↦ n ]

unfoldable pub p_source_of : RsaAesOaepParams → AlgorithmIdentifier
p_source_of params = elim params.p_source_alg [
  | none ↦ record { algorithm = id_p_specified; parameters = none }
  | some alg ↦ alg
]

-- `hash_algorithm_oid` of both kinds of parameters.
unfoldable pub hash_oid_of : Oids → Option AlgorithmIdentifier → Oid
hash_oid_of oids none = oids.hash_sha1
hash_oid_of oids (some alg) = alg.algorithm

module _ (d : Der) where
  -- `mask_gen_algorithm` of both kinds of parameters.
  unfoldable pub mask_gen_of : Oids → Option AlgorithmIdentifier → Result X509Error MaskGenAlgorithm
  mask_gen_of oids none = ok (record { mgf = id_mgf1; hash = oids.hash_sha1 })
  mask_gen_of oids (some alg) = elim alg.parameters [
    | none ↦ err invalid_algorithm_identifier
    | some any ↦ elim (d.oid_from_der (whole any.content)) [
      | ok (_, hash) ↦ ok (record { mgf = alg.algorithm; hash = hash })
      | err _ ↦ err invalid_algorithm_identifier
    ]
  ]

  -- `OptTaggedParser::new(Class::ContextSpecific, Tag(n)).parse_der(i, ..)?`.
  unfoldable pub opt_algorithm : ℕ → Slice → Result X509Error (Slice × Option AlgorithmIdentifier)
  opt_algorithm n i =
      map_err from_nom_x509
        (d.opt_tagged X509Error AlgorithmIdentifier n (λ _ inner. d.algorithm_from_der inner) i)

  -- `OptTaggedExplicit::<u32, Error, N>::from_der(i)?`.
  unfoldable pub opt_number : ℕ → Slice → Result X509Error (Slice × Option ℕ)
  opt_number n i = map_err (from_nom_ber d.ber_from_nom) (d.opt_explicit_u32 n i)

  unfoldable pub sequence_content : Any → Result X509Error Slice
  sequence_content value =
      if value.tag == tag_sequence
      then ok (whole value.content)
      else err (der (d.tag_mismatch tag_sequence value.tag))

  -- `RsaSsaPssParams::try_from`.
  unfoldable pub pss_params : Any → Result X509Error RsaSsaPssParams
  pss_params value = do
    i ← sequence_content value
    (i1, hash_alg) ← opt_algorithm 0 i
    (i2, mask_gen_algorithm) ← opt_algorithm 1 i1
    (i3, salt_length) ← opt_number 2 i2
    (_, trailer_field) ← opt_number 3 i3
    ok (record {
      hash_alg = hash_alg;
      mask_gen_algorithm = mask_gen_algorithm;
      salt_length = salt_length;
      trailer_field = trailer_field;
    })

  -- `RsaAesOaepParams::try_from`.
  unfoldable pub oaep_params : Any → Result X509Error RsaAesOaepParams
  oaep_params value = do
    i ← sequence_content value
    (i1, hash_alg) ← opt_algorithm 0 i
    (i2, mask_gen_alg) ← opt_algorithm 1 i1
    (_, p_source_alg) ← opt_algorithm 2 i2
    ok (record { hash_alg = hash_alg; mask_gen_alg = mask_gen_alg; p_source_alg = p_source_alg })

  -- The parameters that an algorithm needs.
  unfoldable pub required_params :
      {A : Type 0} → (Any → Result X509Error A) → Option Any → Result X509Error A
  required_params parse none = err invalid_signature_value
  required_params parse (some any) = map_err (λ _. invalid_signature_value) (parse any)

  -- `SignatureAlgorithm::try_from`.
  unfoldable pub signature_algorithm_of :
      Oids → AlgorithmIdentifier → Result X509Error SignatureAlgorithm
  unfolding starts_with
  signature_algorithm_of oids value =
      if starts_with value.algorithm pkcs1
      then (if oid_eq value.algorithm oids.rsassa_pss
          then required_params pss_params value.parameters >>= (λ params. ok (rsassa_pss params))
          else ok rsa_pkcs1)
      else if starts_with value.algorithm ansi_x962_signatures
      then ok ecdsa
      else if starts_with value.algorithm x957_algorithms
      then ok dsa_x957
      else if oid_eq value.algorithm oids.sig_ed25519
      then ok ed25519
      else if oid_eq value.algorithm rsaes_oaep
      then required_params oaep_params value.parameters >>= (λ params. ok (rsaaes_oaep params))
      else err invalid_signature_value

-- ===== src/SignatureAlgorithm/Params.antt =====
-- src/signature_algorithm.rs: the fields of the parameters, and their constraints.
use x509_parser.Asn1.{Any, Oid}
use x509_parser.Der.{Der}
use x509_parser.Error.{BerError, X509Error}
use x509_parser.Prelude.{Option, any, if◌then◌else◌}
use x509_parser.Result.{Result, err, ok}
use x509_parser.SignatureAlgorithm.{
  MaskGenAlgorithm, RsaAesOaepParams, RsaSsaPssParams, oaep_params, pss_params,
}
use x509_parser.X509.{AlgorithmIdentifier}

-- `hash_algorithm` and `mask_gen_algorithm_raw` of both kinds of parameters.
unfoldable pub pss_hash_algorithm : RsaSsaPssParams → Option AlgorithmIdentifier
pss_hash_algorithm params = params.hash_alg

unfoldable pub pss_mask_gen_raw : RsaSsaPssParams → Option AlgorithmIdentifier
pss_mask_gen_raw params = params.mask_gen_algorithm

unfoldable pub oaep_hash_algorithm : RsaAesOaepParams → Option AlgorithmIdentifier
oaep_hash_algorithm params = params.hash_alg

unfoldable pub oaep_mask_gen_raw : RsaAesOaepParams → Option AlgorithmIdentifier
oaep_mask_gen_raw params = params.mask_gen_alg

-- `MaskGenAlgorithm::new`.
unfoldable pub mask_gen_new : Oid → Oid → MaskGenAlgorithm
mask_gen_new mgf hash = record { mgf = mgf; hash = hash }

module _ (d : Der) where
  -- `TryFrom<Any>` of both kinds of parameters.
  unfoldable pub pss_params_owned : Any → Result X509Error RsaSsaPssParams
  pss_params_owned value = pss_params d value

  unfoldable pub oaep_params_owned : Any → Result X509Error RsaAesOaepParams
  oaep_params_owned value = oaep_params d value

  -- `check_constraints` of both kinds of parameters.
  unfoldable pub pss_check_constraints : Any → Result {0, 0} BerError Unit
  pss_check_constraints any = if any.constructed then ok tt else err d.construct_expected

  unfoldable pub oaep_check_constraints : Any → Result {0, 0} BerError Unit
  oaep_check_constraints any = if any.constructed then ok tt else err d.construct_expected

-- ===== src/PublicKey.antt =====
-- src/public_key.rs, and `SubjectPublicKeyInfo::parsed` of src/x509.rs.
pub mod Exponent
use x509_parser.Asn1.{Oids, oid_eq}
use x509_parser.Bits.{msb_set}
use x509_parser.Der.{Der}
use x509_parser.Error.{BerError, X509Error, invalid_number, invalid_spki}
use x509_parser.Prelude.{
  Bytes, [], if◌then◌else◌, leb, length, ltb, suc, zero, ℕ, ◌&&◌, ◌*◌, ◌++◌, ◌+◌, ◌-◌, ◌/◌, ◌==◌,
  ◌||◌, ◌∷◌,
}
use x509_parser.Result.{Parser, Result, err, error, map_err, ok, whole, ◌>>=◌}
use x509_parser.X509.{SubjectPublicKeyInfo}

pub record RsaPublicKey : Type 0 where
  pub modulus : Bytes
  pub exponent : Bytes

pub record EcPoint : Type 0 where
  pub point : Bytes

pub data PublicKey : Type 0 where
  rsa : RsaPublicKey → PublicKey
  ec : EcPoint → PublicKey
  dsa : Bytes → PublicKey
  gost_r3410 : Bytes → PublicKey
  gost_r3410_2012 : Bytes → PublicKey
  unknown : Bytes → PublicKey

-- `ECPoint::data` and `From<&[u8]>`.
unfoldable pub ec_data : EcPoint → Bytes
ec_data point = point.point

unfoldable pub ec_from : Bytes → EcPoint
ec_from bytes = record { point = bytes }

-- The value of the 8 bytes that `copy_from_slice` fills from the right.
from_be_bytes : ℕ → Bytes → ℕ
from_be_bytes acc [] = acc
from_be_bytes acc (b ∷ bs) = from_be_bytes (acc * 256 + b) bs

zeros : ℕ → Bytes
zeros zero = []
zeros (suc n) = 0 ∷ zeros n

-- `RSAPublicKey::try_exponent`, on the bytes of the exponent.
unfoldable pub exponent_value : Bytes → Result X509Error ℕ
unfolding from_be_bytes zeros
exponent_value [] = err invalid_number
exponent_value (b ∷ bs) =
    if msb_set b || ltb 8 (length (b ∷ bs))
    then err invalid_number
    else ok (from_be_bytes 0 (zeros (8 - length (b ∷ bs)) ++ b ∷ bs))

unfoldable pub try_exponent : RsaPublicKey → Result X509Error ℕ
unfolding exponent_value
try_exponent key = exponent_value key.exponent

-- `RSAPublicKey::key_size`: the first byte of the modulus is not counted.
unfoldable pub rsa_key_size : Bytes → ℕ
rsa_key_size [] = 0
rsa_key_size (b ∷ bs) = if msb_set b then 0 else 8 * length bs

-- `ECPoint::key_size`.
unfoldable pub ec_key_size : Bytes → ℕ
ec_key_size [] = 0
ec_key_size (form ∷ rem) =
    if form == 4 then length rem * 8 / 2 else if leb 2 form && leb form 3 then length rem * 8 else 0

-- `PublicKey::key_size`.
unfoldable pub key_size : PublicKey → ℕ
unfolding rsa_key_size ec_key_size
key_size (ec point) = ec_key_size point.point
key_size (rsa key) = rsa_key_size key.modulus
key_size (dsa y) = length y * 8
key_size (gost_r3410 y) = length y * 8
key_size _ = 0

module _ (d : Der) where
  -- `parse_rsa_key`: the `?` on `as_slice` makes a nom error of its error.
  unfoldable pub parse_rsa_key : Parser BerError RsaPublicKey
  parse_rsa_key = d.sequence_g BerError RsaPublicKey λ i _. do
    (i1, obj_modulus) ← d.parse_der_integer i
    (i2, obj_exponent) ← d.parse_der_integer i1
    modulus ← map_err error (d.obj_slice obj_modulus)
    exponent ← map_err error (d.obj_slice obj_exponent)
    ok (i2, record { modulus = modulus; exponent = exponent })

  -- `FromDer for RsaPublicKey`.
  unfoldable pub rsa_from_der : Parser X509Error RsaPublicKey
  unfolding parse_rsa_key
  rsa_from_der bytes = map_err (λ _. error invalid_spki) (parse_rsa_key bytes)

  -- `SubjectPublicKeyInfo::parsed`.
  unfoldable pub parsed : Oids → SubjectPublicKeyInfo → Result X509Error PublicKey
  unfolding rsa_from_der
  parsed oids spki =
      let b = spki.subject_public_key.content in
      let i = whole b in
      let alg = spki.algorithm.algorithm in
      if oid_eq alg oids.rsa_encryption
      then (do (_, key) ← map_err (λ _. invalid_spki) (rsa_from_der i); ok (rsa key))
      else if oid_eq alg oids.ec_public_key
      then ok (ec (record { point = b }))
      else if oid_eq alg oids.key_type_dsa
      then (do
        (_, obj) ← map_err (λ _. invalid_spki) (d.parse_der_integer i)
        s ← map_err (λ _. invalid_spki) (d.obj_slice obj)
        ok (dsa s))
      else if oid_eq alg oids.gost_r3410_2001
      then (do (_, s) ← map_err (λ _. invalid_spki) (d.octets_from_der i); ok (gost_r3410 s.bytes))
      else if oid_eq alg oids.gost_r3410_2012_256 || oid_eq alg oids.gost_r3410_2012_512
      then (do
        (_, s) ← map_err (λ _. invalid_spki) (d.octets_from_der i)
        ok (gost_r3410_2012 s.bytes))
      else ok (unknown b)

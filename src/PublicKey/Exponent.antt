-- ===== src/PublicKey/Exponent.antt =====
-- The exponent of an RSA key as a number, and the size of a key against its value.
use x509_parser.Bits.{msb_set}
use x509_parser.Bits.Laws.{AllBytes}
use x509_parser.Prelude.{
  Bytes, [], ap, arith, false, inl, inr, length, refl, suc, zero, ℕ, ◌*◌, ◌++◌, ◌+◌, ◌-◌, ◌<◌, ◌^◌,
  ◌↔◌, ◌∙◌, ◌∷◌, ◌≡◌, ◌≢◌, ◌≤◌, ◌⊎◌,
}
use x509_parser.PublicKey.{
  RsaPublicKey, exponent_value, from_be_bytes, rsa_key_size, try_exponent, zeros,
}
use x509_parser.Result.{ok}
use native.Mathlib.Nat.{pow-suc}
use native.Mathlib.Numerals.{towards_suc}

-- The value of a big-endian byte string.
abbrev pub big_endian : Bytes → ℕ
big_endian [] = 0
big_endian (b ∷ bs) = b * 256 ^ length bs + big_endian bs

from_be_bytes_lem :
    (acc : ℕ) (bs : Bytes) → from_be_bytes acc bs ≡ acc * 256 ^ length bs + big_endian bs
unfolding from_be_bytes
from_be_bytes_lem acc [] = omega arith
from_be_bytes_lem acc (b ∷ bs) =
    let e : 256 ^ suc (length bs) ≡ 256 ^ length bs * 256 = pow-suc 256 (length bs) in
    from_be_bytes_lem (acc * 256 + b) bs ∙ omega (arith, e, ap (λ (t : ℕ). acc * t) e)

zeros_lem : (n : ℕ) (bs : Bytes) → from_be_bytes 0 (zeros n ++ bs) ≡ from_be_bytes 0 bs
unfolding zeros from_be_bytes
zeros_lem zero bs = refl
zeros_lem (suc n) bs = zeros_lem n bs

big_endian-lt : (bs : Bytes) → AllBytes bs → big_endian bs < 256 ^ length bs
big_endian-lt [] a = omega arith
big_endian-lt (b ∷ bs) a =
    let e : 256 ^ suc (length bs) ≡ 256 ^ length bs * 256 = pow-suc 256 (length bs) in
    let small : b * 256 ^ length bs ≤ 255 * 256 ^ length bs = grind arith in
    omega (arith, e, small, big_endian-lt bs a.1)

-- The bytes that the conversion accepts: not empty, the first bit clear, at most 8.
abbrev pub IsSmall : Bytes → Type 0
IsSmall [] = ⊥
IsSmall (b ∷ bs) = (msb_set b ≡ false) × (length (b ∷ bs) ≤ 8)

exponent_value_iff :
    (bs : Bytes) (n : ℕ) → (exponent_value bs ≡ ok n) ↔ (IsSmall bs × (n ≡ big_endian bs))
unfolding exponent_value
exponent_value_iff [] n = (λ h. cc, λ (p, e). absurd p)
exponent_value_iff (b ∷ bs) n =
    let value : from_be_bytes 0 (zeros (8 - length (b ∷ bs)) ++ b ∷ bs) ≡ big_endian (b ∷ bs) =
      zeros_lem (8 - length (b ∷ bs)) (b ∷ bs) ∙ from_be_bytes_lem 0 (b ∷ bs) ∙ omega arith in
    (λ q. ground (arith, value), λ q. ground (arith, value))

-- The conversion of the exponent succeeds exactly if it is not empty, its first bit is clear and
-- it has at most 8 bytes, and then gives its value. A leading zero byte is one of the 8, so that a
-- value from 2 ^ 63 is refused although it fits 64 bits.
pub try_exponent_iff :
    (key : RsaPublicKey) (n : ℕ)
    → (try_exponent key ≡ ok n) ↔ (IsSmall key.exponent × (n ≡ big_endian key.exponent))
unfolding try_exponent
try_exponent_iff key n = exponent_value_iff key.exponent n

pow_eight : (n : ℕ) → 2 ^ (n + 8) ≡ 2 ^ n * 256
pow_eight n = simp towards_suc (omega arith)

pow_byte : (n : ℕ) → 256 ^ n ≡ 2 ^ (8 * n)
pow_byte zero = refl
pow_byte (suc n) =
    let e : 8 * suc n ≡ 8 * n + 8 = omega arith in
    omega (arith, pow-suc 256 n, pow_byte n, ap (λ (k : ℕ). 2 ^ k) e, pow_eight (8 * n))

-- The size of an RSA key in bits, where the first bit of the modulus is clear: either there is a
-- leading zero byte and the modulus fits that many bits, or there is none and it does not fit.
pub rsa_key_size_fits :
    (b : ℕ) (bs : Bytes)
    → AllBytes (b ∷ bs)
    → msb_set b ≡ false
    → ((b ≡ 0) × (big_endian (b ∷ bs) < 2 ^ rsa_key_size (b ∷ bs)))
      ⊎ ((b ≢ 0) × (2 ^ rsa_key_size (b ∷ bs) ≤ big_endian (b ∷ bs)))
unfolding rsa_key_size msb_set
rsa_key_size_fits zero bs a h =
    let small = big_endian-lt bs a.1 in
    let bits_of = pow_byte (length bs) in inl (refl, omega (arith, small, bits_of))
rsa_key_size_fits (suc n) bs a h =
    let bits_of = pow_byte (length bs) in
    let p : 1 * 256 ^ length bs ≤ suc n * 256 ^ length bs = grind arith in
    inr (omega arith, rw h (omega (arith, p, bits_of)))

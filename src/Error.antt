-- ===== src/Error.antt =====
-- src/error.rs: the error types and the conversions between them.
pub mod Display
use x509_parser.Prelude.{Bytes, Option, ℕ}
use x509_parser.Result.{IResult, NomErr, error, failure, incomplete}

-- `der_parser::error::BerError` (asn1-rs `Error`): the variants that the crate names, and `unnamed`
-- for the rest.
pub data BerError : Type 0 where
  ber_type_error ber_value_error invalid_tag invalid_length unsupported : BerError
  unexpected_tag : Option ℕ → ℕ → BerError
  ber_incomplete : Option ℕ → BerError
  unnamed : ℕ → BerError

pub data X509Error : Type 0 where
  generic invalid_version invalid_serial invalid_algorithm_identifier : X509Error
  invalid_x509_name invalid_date invalid_spki invalid_subject_uid : X509Error
  invalid_issuer_uid invalid_extensions invalid_attributes : X509Error
  duplicate_extensions duplicate_attributes invalid_signature_value : X509Error
  invalid_tbs_certificate invalid_user_certificate invalid_certificate : X509Error
  signature_verification_error signature_unsupported_algorithm invalid_number : X509Error
  der : BerError → X509Error
  -- nom's `ErrorKind`, by its number.
  nom_error : ℕ → X509Error

-- `X509Result<T>`.
abbrev pub X509Result {ℓ} : Type ℓ → Type ℓ
X509Result A = IResult X509Error A

-- `From<nom::Err<BerError>>`, over asn1-rs's `BerError::from`.
unfoldable pub from_nom_ber : (NomErr BerError → BerError) → NomErr BerError → X509Error
from_nom_ber ber_from e = der (ber_from e)

-- `From<nom::Err<X509Error>>`.
unfoldable pub from_nom_x509 : NomErr X509Error → X509Error
from_nom_x509 (error e) = e
from_nom_x509 (failure e) = e
from_nom_x509 (incomplete i) = der (ber_incomplete i)

-- `From<X509Error> for nom::Err<X509Error>`.
unfoldable pub to_nom : X509Error → NomErr X509Error
to_nom e = error e

-- `From<ErrorKind>` and `ParseError::{from_error_kind, append}`.
unfoldable pub from_kind : ℕ → X509Error
from_kind kind = nom_error kind

unfoldable pub from_error_kind : Bytes → ℕ → X509Error
from_error_kind input kind = nom_error kind

unfoldable pub append_kind : Bytes → ℕ → X509Error → X509Error
append_kind input kind earlier = nom_error kind

pub data PemError : Type 0 where
  base64_decode_error incomplete_pem invalid_header missing_header : PemError
  -- A read that is not UTF-8, the one I/O error of a reader over a buffer.
  io_error : PemError

-- ===== src/X509.antt =====
-- src/x509.rs: versions, names, algorithm identifiers, public key information, reason codes.
pub mod Attributes
pub mod Parse
pub mod Equality
pub mod Fields
use x509_parser.Asn1.{Any, BitString, Oid}
use x509_parser.Prelude.{Bytes, List, Option, ℕ}

-- `X509Version(pub u32)`.
pub record X509Version : Type 0 where
  pub value : ℕ

abbrev pub v1 : X509Version
v1 = record { value = 0 }

abbrev pub v2 : X509Version
v2 = record { value = 1 }

abbrev pub v3 : X509Version
v3 = record { value = 2 }

pub record AttributeTypeAndValue : Type 0 where
  pub attr_type : Oid
  pub attr_value : Any

pub record RelativeDistinguishedName : Type 0 where
  pub set : List AttributeTypeAndValue

pub record AlgorithmIdentifier : Type 0 where
  pub algorithm : Oid
  pub parameters : Option Any

pub record X509Name : Type 0 where
  pub rdn_seq : List RelativeDistinguishedName
  pub raw : Bytes

pub record SubjectPublicKeyInfo : Type 0 where
  pub algorithm : AlgorithmIdentifier
  pub subject_public_key : BitString
  pub raw : Bytes

-- `ReasonCode(pub u8)`.
pub record ReasonCode : Type 0 where
  pub value : ℕ

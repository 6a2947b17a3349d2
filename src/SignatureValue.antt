-- ===== src/SignatureValue.antt =====
-- src/signature_value.rs: the value of an ECDSA signature, whose parser asn1-rs derives. An `Integer`
-- is its bytes.
use x509_parser.Prelude.{Bytes}

pub record EcdsaSigValue : Type 0 where
  pub r : Bytes
  pub s : Bytes

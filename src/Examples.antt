-- ===== src/Examples.antt =====
-- Concrete instances of the parameters, and concrete objects.
mod Samples
mod Certificates
mod Validators
mod Parsers
mod PemBlocks
mod Envelopes
mod Printing
mod Times
mod Requests
use x509_parser.Asn1.{BitString, Header, Oid, Oids, universal}
use x509_parser.Der.{Der}
use x509_parser.Error.{BerError, invalid_algorithm_identifier, invalid_tag}
use x509_parser.Extensions.{
  authority_info_access, authority_key_identifier, basic_constraints, certificate_policies,
  crl_distribution_points, crl_number, extended_key_usage, inhibit_any_policy, invalidity_date,
  key_usage, name_constraints, policy_constraints, policy_mappings, reason_code,
  subject_key_identifier,
}
use x509_parser.Extensions.Separate.{policy_mappings_from_der}
use x509_parser.Extensions.Usage.{key_purpose}
use x509_parser.Prelude.{Bytes, [], false, length, list_eq, none, some, take, ℕ, ◌∷◌}
use x509_parser.Result.{Parser, Slice, err, error, failure, incomplete, map_err, map_ok, ok, ◌>>=◌}
use x509_parser.SignatureAlgorithm.{ed25519, rsassa_pss}
use x509_parser.Validate.Structure.{Shows}
use x509_parser.Verify.{Ring}

-- The object identifiers of the standards.
abbrev pub id_ce : ℕ → Oid
id_ce n = 2 ∷ 5 ∷ 29 ∷ n ∷ []

abbrev pub id_at : ℕ → Oid
id_at n = 2 ∷ 5 ∷ 4 ∷ n ∷ []

abbrev pub child : ℕ → Oid
child n = 1 ∷ 2 ∷ 840 ∷ 113549 ∷ 1 ∷ 1 ∷ n ∷ []

abbrev pub standard_oids : Oids
standard_oids = record {
  subject_key_identifier = id_ce 14;
  key_usage = id_ce 15;
  subject_alt_name = id_ce 17;
  issuer_alt_name = id_ce 18;
  basic_constraints = id_ce 19;
  name_constraints = id_ce 30;
  certificate_policies = id_ce 32;
  policy_mappings = id_ce 33;
  policy_constraints = id_ce 36;
  extended_key_usage = id_ce 37;
  crl_distribution_points = id_ce 31;
  inhibit_any_policy = id_ce 54;
  authority_info_access = 1 ∷ 3 ∷ 6 ∷ 1 ∷ 5 ∷ 5 ∷ 7 ∷ 1 ∷ 1 ∷ [];
  authority_key_identifier = id_ce 35;
  ct_list_sct = 1 ∷ 3 ∷ 6 ∷ 1 ∷ 4 ∷ 1 ∷ 11129 ∷ 2 ∷ 4 ∷ 2 ∷ [];
  cert_type = 2 ∷ 16 ∷ 840 ∷ 1 ∷ 113730 ∷ 1 ∷ 1 ∷ [];
  cert_comment = 2 ∷ 16 ∷ 840 ∷ 1 ∷ 113730 ∷ 1 ∷ 13 ∷ [];
  crl_number = id_ce 20;
  reason_code = id_ce 21;
  invalidity_date = id_ce 24;
  common_name = id_at 3;
  country_name = id_at 6;
  locality_name = id_at 7;
  state_or_province_name = id_at 8;
  organization_name = id_at 10;
  organizational_unit = id_at 11;
  domain_component = 0 ∷ 9 ∷ 2342 ∷ 19200300 ∷ 100 ∷ 1 ∷ 25 ∷ [];
  email_address = 1 ∷ 2 ∷ 840 ∷ 113549 ∷ 1 ∷ 9 ∷ 1 ∷ [];
  rsa_encryption = child 1;
  ec_public_key = 1 ∷ 2 ∷ 840 ∷ 10045 ∷ 2 ∷ 1 ∷ [];
  key_type_dsa = 1 ∷ 2 ∷ 840 ∷ 10040 ∷ 4 ∷ 1 ∷ [];
  gost_r3410_2001 = 1 ∷ 2 ∷ 643 ∷ 2 ∷ 2 ∷ 19 ∷ [];
  gost_r3410_2012_256 = 1 ∷ 2 ∷ 643 ∷ 7 ∷ 1 ∷ 1 ∷ 1 ∷ 1 ∷ [];
  gost_r3410_2012_512 = 1 ∷ 2 ∷ 643 ∷ 7 ∷ 1 ∷ 1 ∷ 1 ∷ 2 ∷ [];
  rsassa_pss = child 10;
  sig_ed25519 = 1 ∷ 3 ∷ 101 ∷ 112 ∷ [];
  hash_sha1 = 1 ∷ 3 ∷ 14 ∷ 3 ∷ 2 ∷ 26 ∷ [];
  pkcs1_sha1_with_rsa = child 5;
  sha1_with_rsa = 1 ∷ 3 ∷ 14 ∷ 3 ∷ 2 ∷ 29 ∷ [];
  pkcs1_sha256_with_rsa = child 11;
  pkcs1_sha384_with_rsa = child 12;
  pkcs1_sha512_with_rsa = child 13;
  ecdsa_with_sha256 = 1 ∷ 2 ∷ 840 ∷ 10045 ∷ 4 ∷ 3 ∷ 2 ∷ [];
  ecdsa_with_sha384 = 1 ∷ 2 ∷ 840 ∷ 10045 ∷ 4 ∷ 3 ∷ 3 ∷ [];
  ec_p256 = 1 ∷ 2 ∷ 840 ∷ 10045 ∷ 3 ∷ 1 ∷ 7 ∷ [];
  nist_ec_p384 = 1 ∷ 3 ∷ 132 ∷ 0 ∷ 34 ∷ [];
  extension_request = 1 ∷ 2 ∷ 840 ∷ 113549 ∷ 1 ∷ 9 ∷ 14 ∷ [];
  challenge_password = 1 ∷ 2 ∷ 840 ∷ 113549 ∷ 1 ∷ 9 ∷ 7 ∷ [];
}

-- A parser that reads nothing.
abbrev refused : {A : Type 0} → Parser BerError A
refused i = err (error invalid_tag)

abbrev header : Header
header = record { class = universal; constructed = false; tag = 16; definite = some 0 }

abbrev bits_of : Bytes → BitString
bits_of content = record { unused_bits = 0; content = content }

-- A reading of the combinators in which an object is the rest of the input, a sequence has no
-- header, an identifier is that of the extended key usages, and a list of identifiers is always
-- the two usages `server_auth` and `ocsp_signing`.
abbrev pub plain : Der
plain = record {
  Obj = Slice;
  obj_bool = λ _. err invalid_tag;
  obj_u32 = λ _. err invalid_tag;
  obj_str = λ _. err invalid_tag;
  obj_slice = λ o. ok o.bytes;
  obj_biguint = λ o. ok (length o.bytes);
  obj_bitstring = λ o. ok (bits_of o.bytes);
  obj_sequence = λ _. err invalid_tag;
  any_from_der = refused;
  any_from_ber = refused;
  oid_from_der = λ i. ok (i, id_ce 37);
  oids_from_der = λ i. ok (i, key_purpose 1 ∷ key_purpose 9 ∷ key_purpose 1 ∷ []);
  octets_from_der = λ i. ok (i, i);
  header_from_der = refused;
  bitstring_from_der = refused;
  u32_from_der = refused;
  UtcTime = Unit;
  GeneralizedTime = Unit;
  utc_time_from_der = refused;
  generalized_time_from_der = refused;
  utc_adjusted_datetime = λ _. err invalid_tag;
  utc_datetime = λ _. err invalid_tag;
  algorithm_from_der = λ _. err (error invalid_algorithm_identifier);
  parse_der_sequence = λ i. ok (i, i);
  parse_der_integer = λ i. ok (i, i);
  parse_der_bitstring = λ i. ok (i, i);
  parse_der_enum = refused;
  parse_der_ia5string = refused;
  parse_ber_bool = refused;
  parse_der_utf8string = refused;
  parse_der_printablestring = refused;
  parse_der_universalstring = refused;
  parse_der_bmpstring = refused;
  parse_der_t61string = refused;
  tagged_implicit = λ _ _. refused;
  sequence_g = λ E A f i. f i header;
  set_g = λ E A f i. f i header;
  sequence_of_v = λ E A p i. ok (i, []);
  tagged_explicit_g = λ E A n f i. f i header;
  tagged_implicit_g = λ E A n f i. f i header;
  opt_tagged = λ E A n f i. ok (i, none);
  sequence_and_then = λ A p. p;
  opt_explicit_u32 = λ n i. ok (i, none);
  opt_explicit_bitstring = λ n i. ok (i, none);
  err_convert = λ E F f e. elim e [
    | incomplete n ↦ incomplete n
    | error x ↦ error (f x)
    | failure x ↦ failure (f x)
  ];
  nom_map = λ E A B p f i. map_ok (λ (rem, a). (rem, f a)) (p i);
  map_res = λ A B p f i. p i >>= λ (rem, a). map_err error (f a) >>= λ b. ok (rem, b);
  map_parser = λ A p q. refused;
  alt = λ A ps. refused;
  many0 = λ E A p i. ok (i, []);
  many1 = λ E A p i. ok (i, []);
  complete = λ E A p. p;
  cut = λ E A p. p;
  opt = λ E A p i. ok (i, none);
  all_consuming = λ E A p. p;
  take = λ n. refused;
  take_complete = λ n. refused;
  be_u8 = refused;
  be_u16 = refused;
  be_u64 = refused;
  length_data = λ p. refused;
  ber_from_nom = λ _. invalid_tag;
  biguint_from_bytes_be = λ _. 0;
  oid_new = λ _. [];
  unexpected_class = λ _. invalid_tag;
  tag_mismatch = λ _ _. invalid_tag;
  construct_expected = invalid_tag;
  any_as_oid = λ _. ok (1 ∷ 2 ∷ 840 ∷ 10045 ∷ 3 ∷ 1 ∷ 7 ∷ []);
  policy_mappings_from_der = refused;
  max_object_size = 65536;
}

abbrev pub no_text : Shows
no_text = record { oid = λ _. []; ber_error = λ _. [] }

-- A ring in which the signature is the message.
abbrev pub echo : Ring
echo = record {
  Algorithm = ℕ;
  rsa_1024_sha1 = 0;
  rsa_2048_sha256 = 1;
  rsa_2048_sha384 = 2;
  rsa_2048_sha512 = 3;
  ecdsa_p256_sha256 = 4;
  ecdsa_p256_sha384 = 5;
  ecdsa_p384_sha256 = 6;
  ecdsa_p384_sha384 = 7;
  ed25519 = 8;
  verify = λ alg key message signature. list_eq message signature;
}

-- ===== src/Asn1.antt =====
-- The data of the crates asn1-rs and oid-registry that the program reads: object identifiers,
-- tags, `Any`, `Header` and `BitString`, by the fields and accessors that it uses.
use x509_parser.Prelude.{Bool, Bytes, List, Option, [], false, list_eq, true, ℕ, ◌&&◌, ◌==◌, ◌∷◌}

-- An object identifier, by its arcs.
abbrev pub Oid : Type 0
Oid = List ℕ

-- `==` on `Oid`.
abbrev pub oid_eq : Oid → Oid → Bool
oid_eq = list_eq

-- `Oid::starts_with`.
unfoldable pub starts_with : Oid → Oid → Bool
starts_with o [] = true
starts_with [] (n ∷ ns) = false
starts_with (x ∷ o) (n ∷ ns) = x == n && starts_with o ns

-- Universal tag numbers (X.680).
abbrev pub tag_integer : ℕ
tag_integer = 2

abbrev pub tag_bit_string : ℕ
tag_bit_string = 3

abbrev pub tag_oid : ℕ
tag_oid = 6

abbrev pub tag_sequence : ℕ
tag_sequence = 16

abbrev pub tag_set : ℕ
tag_set = 17

abbrev pub tag_object_descriptor : ℕ
tag_object_descriptor = 7

abbrev pub tag_utf8_string : ℕ
tag_utf8_string = 12

abbrev pub tag_numeric_string : ℕ
tag_numeric_string = 18

abbrev pub tag_printable_string : ℕ
tag_printable_string = 19

abbrev pub tag_t61_string : ℕ
tag_t61_string = 20

abbrev pub tag_videotex_string : ℕ
tag_videotex_string = 21

abbrev pub tag_ia5_string : ℕ
tag_ia5_string = 22

abbrev pub tag_utc_time : ℕ
tag_utc_time = 23

abbrev pub tag_graphic_string : ℕ
tag_graphic_string = 25

abbrev pub tag_visible_string : ℕ
tag_visible_string = 26

abbrev pub tag_general_string : ℕ
tag_general_string = 27

abbrev pub tag_bmp_string : ℕ
tag_bmp_string = 30

pub data Class : Type 0 where
  universal application context_specific private_use : Class

unfoldable pub is_context_specific : Class → Bool
is_context_specific context_specific = true
is_context_specific _ = false

-- `definite` is the length, if it is definite.
pub record Header : Type 0 where
  pub class : Class
  pub constructed : Bool
  pub tag : ℕ
  pub definite : Option ℕ

pub record Any : Type 0 where
  pub class : Class
  pub constructed : Bool
  pub tag : ℕ
  pub content : Bytes

pub record BitString : Type 0 where
  pub unused_bits : ℕ
  pub content : Bytes

-- The constants of the crate oid-registry that the program names.
pub record Oids : Type 0 where
  pub subject_key_identifier : Oid
  pub key_usage : Oid
  pub subject_alt_name : Oid
  pub issuer_alt_name : Oid
  pub basic_constraints : Oid
  pub name_constraints : Oid
  pub certificate_policies : Oid
  pub policy_mappings : Oid
  pub policy_constraints : Oid
  pub extended_key_usage : Oid
  pub crl_distribution_points : Oid
  pub inhibit_any_policy : Oid
  pub authority_info_access : Oid
  pub authority_key_identifier : Oid
  pub ct_list_sct : Oid
  pub cert_type : Oid
  pub cert_comment : Oid
  pub crl_number : Oid
  pub reason_code : Oid
  pub invalidity_date : Oid
  pub common_name : Oid
  pub country_name : Oid
  pub locality_name : Oid
  pub state_or_province_name : Oid
  pub organization_name : Oid
  pub organizational_unit : Oid
  pub domain_component : Oid
  pub email_address : Oid
  pub rsa_encryption : Oid
  pub ec_public_key : Oid
  pub key_type_dsa : Oid
  pub gost_r3410_2001 : Oid
  pub gost_r3410_2012_256 : Oid
  pub gost_r3410_2012_512 : Oid
  pub rsassa_pss : Oid
  pub sig_ed25519 : Oid
  pub hash_sha1 : Oid
  pub pkcs1_sha1_with_rsa : Oid
  pub sha1_with_rsa : Oid
  pub pkcs1_sha256_with_rsa : Oid
  pub pkcs1_sha384_with_rsa : Oid
  pub pkcs1_sha512_with_rsa : Oid
  pub ecdsa_with_sha256 : Oid
  pub ecdsa_with_sha384 : Oid
  pub ec_p256 : Oid
  pub nist_ec_p384 : Oid
  pub extension_request : Oid
  pub challenge_password : Oid

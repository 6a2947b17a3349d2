-- ===== src/Der.antt =====
-- The parsing functions of the crates asn1-rs, der-parser and nom that the program calls, as a
-- record: the program's parsers take it as a parameter. `Obj` is der-parser's `BerObject`, with
-- the accessors of its content. A combinator takes its types explicitly.
use x509_parser.Asn1.{Any, BitString, Class, Header, Oid}
use x509_parser.Error.{BerError, X509Error}
use x509_parser.Prelude.{Bool, Bytes, List, Option, Text, ℕ}
use x509_parser.Result.{IResult, NomErr, Parser, Result, Slice}
use x509_parser.Time.{Asn1Time}
use x509_parser.X509.{AlgorithmIdentifier}

pub record Der : Type 1 where
  pub Obj : Type 0
  pub obj_bool : Obj → Result BerError Bool
  pub obj_u32 : Obj → Result BerError ℕ
  pub obj_str : Obj → Result BerError Text
  pub obj_slice : Obj → Result BerError Bytes
  pub obj_biguint : Obj → Result BerError ℕ
  pub obj_bitstring : Obj → Result BerError BitString
  pub obj_sequence : Obj → Result BerError (List Obj)
  pub any_from_der : Parser BerError Any
  pub any_from_ber : Parser BerError Any
  pub oid_from_der : Parser BerError Oid
  pub oids_from_der : Parser BerError (List Oid)
  -- `<&[u8]>::from_der`
  pub octets_from_der : Parser BerError Slice
  -- `Header::from_der` and `der_read_element_header`
  pub header_from_der : Parser BerError Header
  pub bitstring_from_der : Parser BerError BitString
  -- `<u32>::from_der` and `parse_der_u32`
  pub u32_from_der : Parser BerError ℕ
  pub UtcTime : Type 0
  pub GeneralizedTime : Type 0
  pub utc_time_from_der : Parser BerError UtcTime
  pub generalized_time_from_der : Parser BerError GeneralizedTime
  pub utc_adjusted_datetime : UtcTime → Result BerError Asn1Time
  pub utc_datetime : GeneralizedTime → Result BerError Asn1Time
  pub algorithm_from_der : Parser X509Error AlgorithmIdentifier
  pub parse_der_sequence : Parser BerError Obj
  pub parse_der_integer : Parser BerError Obj
  pub parse_der_bitstring : Parser BerError Obj
  pub parse_der_enum : Parser BerError Obj
  pub parse_der_ia5string : Parser BerError Obj
  pub parse_ber_bool : Parser BerError Obj
  pub parse_der_utf8string : Parser BerError Obj
  pub parse_der_printablestring : Parser BerError Obj
  pub parse_der_universalstring : Parser BerError Obj
  pub parse_der_bmpstring : Parser BerError Obj
  pub parse_der_t61string : Parser BerError Obj
  -- `parse_der_tagged_implicit(tag, parse_der_content(Tag))`
  pub tagged_implicit : ℕ → ℕ → Parser BerError Obj
  -- `parse_der_sequence_defined_g`, `parse_der_set_defined_g`
  pub sequence_g : (E A : Type 0) → (Slice → Header → IResult E A) → Parser E A
  pub set_g : (E A : Type 0) → (Slice → Header → IResult E A) → Parser E A
  pub sequence_of_v : (E A : Type 0) → Parser E A → Parser E (List A)
  pub tagged_explicit_g : (E A : Type 0) → ℕ → (Slice → Header → IResult E A) → Parser E A
  pub tagged_implicit_g : (E A : Type 0) → ℕ → (Slice → Header → IResult E A) → Parser E A
  -- `OptTaggedParser::parse_der` for a context-specific tag
  pub opt_tagged : (E A : Type 0) → ℕ → (Header → Parser E A) → Parser E (Option A)
  -- `Sequence::from_ber_and_then`
  pub sequence_and_then : (A : Type 0) → Parser BerError A → Parser BerError A
  -- `OptTaggedExplicit::<u32, _, TAG>::from_der`, `OptTaggedExplicit::<BitString, _, TAG>::from_der`
  pub opt_explicit_u32 : ℕ → Parser BerError (Option ℕ)
  pub opt_explicit_bitstring : ℕ → Parser BerError (Option BitString)
  -- nom's combinators
  -- `nom::Err::convert`, over the conversion of the error
  pub err_convert : (E F : Type 0) → (E → F) → NomErr E → NomErr F
  pub nom_map : (E A B : Type 0) → Parser E A → (A → B) → Parser E B
  pub map_res : (A B : Type 0) → Parser BerError A → (A → Result BerError B) → Parser BerError B
  pub map_parser : (A : Type 0) → Parser BerError Slice → Parser BerError A → Parser BerError A
  pub alt : (A : Type 0) → List (Parser BerError A) → Parser BerError A
  pub many0 : (E A : Type 0) → Parser E A → Parser E (List A)
  pub many1 : (E A : Type 0) → Parser E A → Parser E (List A)
  pub complete : (E A : Type 0) → Parser E A → Parser E A
  pub cut : (E A : Type 0) → Parser E A → Parser E A
  pub opt : (E A : Type 0) → Parser E A → Parser E (Option A)
  pub all_consuming : (E A : Type 0) → Parser E A → Parser E A
  -- `nom::bytes::streaming::take`, and `nom::bytes::complete::take`
  pub take : ℕ → Parser BerError Slice
  pub take_complete : ℕ → Parser BerError Slice
  pub be_u8 : Parser BerError ℕ
  pub be_u16 : Parser BerError ℕ
  pub be_u64 : Parser BerError ℕ
  pub length_data : Parser BerError ℕ → Parser BerError Slice
  -- asn1-rs's `From<nom::Err<Error>> for Error`
  pub ber_from_nom : NomErr BerError → BerError
  pub biguint_from_bytes_be : Bytes → ℕ
  -- `Oid::new`, from the encoded bytes
  pub oid_new : Bytes → Oid
  -- The error of `Class::assert_eq`
  pub unexpected_class : Class → BerError
  -- The error of `Tag::assert_eq`, by the tag that is wanted and the one that is there
  pub tag_mismatch : ℕ → ℕ → BerError
  -- The error of `Header::assert_constructed`
  pub construct_expected : BerError
  -- `Any::as_oid`
  pub any_as_oid : Any → Result BerError Oid
  -- `<Vec<T>>::from_der` for a `T` that derives `DerSequence` over two identifiers
  pub policy_mappings_from_der : Parser BerError (List (Oid × Oid))
  -- `MAX_OBJECT_SIZE`
  pub max_object_size : ℕ

-- ===== src/X509/Parse.antt =====
-- src/x509.rs: the parsers of versions, names, key information and serial numbers.
use x509_parser.Asn1.{Any, BitString, tag_integer, tag_printable_string}
use x509_parser.Der.{Der}
use x509_parser.Error.{
  BerError, X509Error, ber_value_error, invalid_length, invalid_serial, invalid_signature_value,
  invalid_spki, invalid_version, invalid_x509_name, unexpected_tag,
}
use x509_parser.Prelude.{Bytes, [], any, if◌then◌else◌, ltb, none, some, take, ℕ, ◌-◌, ◌==◌, ◌∷◌}
use x509_parser.Result.{Parser, Slice, err, error, map_err, ok, ok_or, ◌>>=◌}
use x509_parser.Utf8.{from_utf8}
use x509_parser.X509.{
  AttributeTypeAndValue, RelativeDistinguishedName, SubjectPublicKeyInfo, X509Name, X509Version, v1,
}

-- The input up to where the parser stands: `&start_i[..start_i.offset(i)]`.
abbrev pub consumed : Slice → Slice → Bytes
consumed start_i i = take (i.start - start_i.start) start_i.bytes

module _ (d : Der) where
  -- `X509Version::from_der`.
  unfoldable pub version_from_der : Parser X509Error X509Version
  version_from_der i =
      map_err (λ _. error invalid_version)
        (d.nom_map BerError ℕ X509Version d.u32_from_der (λ v. record { value = v }) i)

  -- `X509Version::from_der_tagged_0`.
  unfoldable pub version_from_der_tagged_0 : Parser X509Error X509Version
  version_from_der_tagged_0 i = do
    (rem, version) ← d.opt_tagged X509Error X509Version 0 (λ _ content. version_from_der content) i
    ok (rem, elim version [ none ↦ v1 | some v ↦ v ])

  unfoldable pub parse_malformed_string : Parser BerError Any
  parse_malformed_string i = do
    (rem, hdr) ← d.header_from_der i
    len ← ok_or (error invalid_length) hdr.definite
    if ltb d.max_object_size len
        then err (error invalid_length)
        else if hdr.tag == tag_printable_string
        then (do
          (rem1, content) ← d.take_complete len rem
          _ ← ok_or (error ber_value_error) (from_utf8 content.bytes)
          ok (
            rem1,
            record {
              class = hdr.class;
              constructed = hdr.constructed;
              tag = hdr.tag;
              content = content.bytes;
            },
          ))
        else err (error (unexpected_tag (some tag_printable_string) hdr.tag))

  unfoldable pub parse_attribute_value : Parser BerError Any
  parse_attribute_value = d.alt Any (d.any_from_der ∷ parse_malformed_string ∷ [])

  -- `AttributeTypeAndValue::from_der`.
  unfoldable pub attribute_from_der : Parser X509Error AttributeTypeAndValue
  attribute_from_der = d.sequence_g X509Error AttributeTypeAndValue λ i _. do
    (i1, attr_type) ← map_err (λ _. error invalid_x509_name) (d.oid_from_der i)
    (i2, attr_value) ← map_err (λ _. error invalid_x509_name) (parse_attribute_value i1)
    ok (i2, record { attr_type = attr_type; attr_value = attr_value })

  -- `RelativeDistinguishedName::from_der`.
  unfoldable pub rdn_from_der : Parser X509Error RelativeDistinguishedName
  rdn_from_der = d.set_g X509Error RelativeDistinguishedName λ i _. do
    (i1, set) ←
        d.many1 X509Error AttributeTypeAndValue
          (d.complete X509Error AttributeTypeAndValue attribute_from_der) i
    ok (i1, record { set = set })

  -- `X509Name::from_der`.
  unfoldable pub name_from_der : Parser X509Error X509Name
  name_from_der start_i =
      d.sequence_g X509Error X509Name
        (λ i _. do
          (i1, rdn_seq) ←
              d.many0 X509Error RelativeDistinguishedName
                (d.complete X509Error RelativeDistinguishedName rdn_from_der) i
          ok (i1, record { rdn_seq = rdn_seq; raw = consumed start_i i1 }))
        start_i

  -- `SubjectPublicKeyInfo::from_der`.
  unfoldable pub spki_from_der : Parser X509Error SubjectPublicKeyInfo
  spki_from_der start_i =
      d.sequence_g X509Error SubjectPublicKeyInfo
        (λ i _. do
          (i1, algorithm) ← d.algorithm_from_der i
          (i2, key) ← map_err (λ _. error invalid_spki) (d.bitstring_from_der i1)
          ok (
            i2,
            record { algorithm = algorithm; subject_public_key = key; raw = consumed start_i i2 },
          ))
        start_i

  unfoldable pub parse_signature_value : Parser X509Error BitString
  parse_signature_value i = map_err (λ _. error invalid_signature_value) (d.bitstring_from_der i)

  -- The serial's bytes and its value.
  unfoldable pub parse_serial : Parser X509Error (Bytes × ℕ)
  parse_serial i = do
    (rem, any) ← map_err (λ _. error invalid_serial) (d.any_from_ber i)
    if any.tag == tag_integer
        then ok (rem, (any.content, d.biguint_from_bytes_be any.content))
        else err (error invalid_serial)

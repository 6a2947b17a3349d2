-- ===== src/Extensions/Contents.antt =====
-- src/extensions/mod.rs, `mod parser`, and src/extensions/keyusage.rs: the
-- parsers of the content of each extension.
use x509_parser.Asn1.{Header, tag_bit_string, tag_integer}
use x509_parser.Bits.{reverse_bits, u16_flags}
use x509_parser.Der.{Der}
use x509_parser.Error.{BerError, ber_type_error, ber_value_error, invalid_length, invalid_tag}
use x509_parser.Extensions.{
  AccessDescription, AuthorityInfoAccess, AuthorityKeyIdentifier, BasicConstraints,
  CrlDistributionPoint, CrlDistributionPoints, DistributionPointName, GeneralName, KeyIdentifier,
  KeyUsage, NsCertType, PolicyConstraints, ReasonFlags, full_name, name_relative_to_crl_issuer,
}
use x509_parser.Extensions.Names.{parse_generalname}
use x509_parser.Prelude.{Bytes, List, Option, [], false, if◌then◌else◌, none, some, ℕ, ◌==◌, ◌∷◌}
use x509_parser.Result.{
  IResult, NomErr, Parser, Result, Slice, err, error, failure, map_err, ok, to_option, whole, ◌>>=◌,
}
use x509_parser.X509.Parse.{rdn_from_der}

module _ (d : Der) where
  -- The `match` on the elements of the sequence.
  unfoldable pub basic_constraints_of : List d.Obj → Result (NomErr BerError) BasicConstraints
  basic_constraints_of [] = ok (record { ca = false; path_len_constraint = none })
  basic_constraints_of (x ∷ []) = elim (d.obj_bool x) [
    | ok b ↦ ok (record { ca = b; path_len_constraint = none })
    | err _ ↦ elim (d.obj_u32 x) [
      | ok u ↦ ok (record { ca = false; path_len_constraint = some u })
      | err _ ↦ err (error invalid_tag)
    ]
  ]
  basic_constraints_of (x ∷ y ∷ []) = do
    ca ← map_err (λ _. error invalid_length) (d.obj_bool x)
    pl ← map_err (λ _. error invalid_length) (d.obj_u32 y)
    ok (record { ca = ca; path_len_constraint = some pl })
  basic_constraints_of (x ∷ y ∷ z ∷ rest) = err (error invalid_length)

  unfoldable pub parse_basicconstraints : Parser BerError BasicConstraints
  parse_basicconstraints i = do
    (rem, obj) ← d.parse_der_sequence i
    seq ← map_err (λ _. error invalid_length) (d.obj_sequence obj)
    bc ← basic_constraints_of seq
    ok (rem, bc)

  -- `all_consuming(many0(complete(cut(parse_generalname))))`.
  unfoldable pub parse_generalnames : Parser BerError (List GeneralName)
  parse_generalnames = d.all_consuming BerError (List GeneralName) (
      d.many0 BerError GeneralName
        (d.complete BerError GeneralName (d.cut BerError GeneralName (parse_generalname d))))

  -- `opt(complete(map_res(parse_der_tagged_implicit(tag, ..), |x| x.as_u32())))`.
  unfoldable pub opt_u32 : ℕ → Parser BerError (Option ℕ)
  opt_u32 tag =
      d.opt BerError ℕ
        (d.complete BerError ℕ (d.map_res d.Obj ℕ (d.tagged_implicit tag tag_integer) d.obj_u32))

  unfoldable pub parse_policyconstraints : Parser BerError PolicyConstraints
  parse_policyconstraints = d.sequence_g BerError PolicyConstraints λ input _. do
    (i1, require_explicit_policy) ← opt_u32 0 input
    (i2, inhibit_policy_mapping) ← d.all_consuming BerError (Option ℕ) (opt_u32 1) i1
    ok (
      i2,
      record {
        require_explicit_policy = require_explicit_policy;
        inhibit_policy_mapping = inhibit_policy_mapping;
      },
    )

  unfoldable pub parse_distributionpointname : Parser BerError DistributionPointName
  parse_distributionpointname i = do
    (rem, header) ← d.header_from_der i
    if header.tag == 0
        then (do
          (rem1, names) ←
              d.many1 BerError GeneralName (d.complete BerError GeneralName (parse_generalname d))
                rem
          ok (rem1, full_name names))
        else if header.tag == 1
        then (do
          (rem1, rdn) ← map_err (λ _. error ber_value_error) (rdn_from_der d rem)
          ok (rem1, name_relative_to_crl_issuer rdn))
        else err (error invalid_tag)

  unfoldable pub parse_tagged1_reasons : Parser BerError ReasonFlags
  parse_tagged1_reasons i = do
    (rem, obj) ← d.tagged_implicit 1 tag_bit_string i
    b ← map_err (λ _. failure invalid_tag) (d.obj_bitstring obj)
    ok (rem, record { flags = u16_flags b.content })

  unfoldable pub parse_crldistributionpoint : Parser BerError CrlDistributionPoint
  parse_crldistributionpoint = d.sequence_g BerError CrlDistributionPoint λ content _. do
    (rem, distribution_point) ←
        d.opt BerError DistributionPointName
          (d.complete BerError DistributionPointName (
            d.tagged_explicit_g BerError DistributionPointName 0
              (λ b _. parse_distributionpointname b)))
          content
    (rem1, reasons) ←
        d.opt BerError ReasonFlags (d.complete BerError ReasonFlags parse_tagged1_reasons) rem
    (rem2, crl_issuer) ←
        d.opt BerError (List GeneralName)
          (d.complete BerError (List GeneralName) (
            d.tagged_implicit_g BerError (List GeneralName) 2 λ i _.
              d.many1 BerError GeneralName (d.complete BerError GeneralName (parse_generalname d))
                i))
          rem1
    ok (
      rem2,
      record {
        distribution_point = distribution_point;
        reasons = reasons;
        crl_issuer = crl_issuer;
      },
    )

  unfoldable pub parse_crldistributionpoints : Parser BerError CrlDistributionPoints
  parse_crldistributionpoints i = do
    (ret, crldps) ← d.sequence_of_v BerError CrlDistributionPoint parse_crldistributionpoint i
    ok (ret, record { points = crldps })

  unfoldable pub parse_aia : Parser BerError AccessDescription
  parse_aia = d.sequence_g BerError AccessDescription λ content _. do
    (gn, oid) ← d.oid_from_der content
    (rest, name) ← parse_generalname d gn
    ok (rest, record { access_method = oid; access_location = name })

  unfoldable pub parse_authorityinfoaccess : Parser BerError AuthorityInfoAccess
  parse_authorityinfoaccess i = do
    (ret, accessdescs) ← d.sequence_of_v BerError AccessDescription parse_aia i
    ok (ret, record { accessdescs = accessdescs })

  -- `|d, _, _| Ok((&[], KeyIdentifier(d)))` leaves nothing.
  unfoldable pub parse_aki_content : Slice → Header → IResult BerError AuthorityKeyIdentifier
  parse_aki_content i hdr = do
    (i1, key_identifier) ←
        d.opt BerError KeyIdentifier
          (d.complete BerError KeyIdentifier (
            d.tagged_implicit_g BerError KeyIdentifier 0
              (λ content _. ok (whole [], record { id = content.bytes }))))
          i
    (i2, authority_cert_issuer) ←
        d.opt BerError (List GeneralName)
          (d.complete BerError (List GeneralName) (
            d.tagged_implicit_g BerError (List GeneralName) 1 λ content _.
              d.many0 BerError GeneralName (d.complete BerError GeneralName (parse_generalname d))
                content))
          i1
    (i3, serial) ←
        d.opt BerError d.Obj (d.complete BerError d.Obj (d.tagged_implicit 2 tag_integer)) i2
    ok (
      i3,
      record {
        key_identifier = key_identifier;
        authority_cert_issuer = authority_cert_issuer;
        authority_cert_serial = elim serial [ none ↦ none | some o ↦ to_option (d.obj_slice o) ];
      },
    )

  unfoldable pub parse_authoritykeyidentifier : Parser BerError AuthorityKeyIdentifier
  parse_authoritykeyidentifier i = do
    (rem, aki) ← d.sequence_g BerError AuthorityKeyIdentifier parse_aki_content i
    ok (rem, aki)

  unfoldable pub parse_keyidentifier : Parser BerError KeyIdentifier
  parse_keyidentifier i = do (rest, id) ← d.octets_from_der i; ok (rest, record { id = id.bytes })

  unfoldable pub parse_keyusage : Parser BerError KeyUsage
  parse_keyusage i = do
    (rest, obj) ← d.parse_der_bitstring i
    bitstring ← map_err (λ _. error ber_type_error) (d.obj_bitstring obj)
    ok (rest, record { flags = u16_flags bitstring.content })

  -- `bitstring.data[0].reverse_bits()`, where there is exactly one byte.
  unfoldable pub nscerttype_of : Bytes → Result (NomErr BerError) NsCertType
  nscerttype_of (b ∷ []) = ok (record { flags = reverse_bits b })
  nscerttype_of _ = err (error ber_value_error)

  unfoldable pub parse_nscerttype : Parser BerError NsCertType
  parse_nscerttype i = do
    (rest, obj) ← d.parse_der_bitstring i
    bitstring ← map_err (λ _. error ber_type_error) (d.obj_bitstring obj)
    ns ← nscerttype_of bitstring.content
    ok (rest, ns)

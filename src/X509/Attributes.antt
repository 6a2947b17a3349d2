-- ===== src/X509/Attributes.antt =====
-- src/x509.rs: the attributes of a name.
use x509_parser.Asn1.{
  Oid, Oids, oid_eq, tag_ia5_string, tag_numeric_string, tag_printable_string, tag_utf8_string,
}
use x509_parser.Error.{X509Error, der, invalid_attributes, unexpected_tag}
use x509_parser.Prelude.{Bytes, List, Text, [], any, filter, if◌then◌else◌, none, ◌++◌, ◌==◌, ◌∷◌}
use x509_parser.Result.{Result, err, ok_or}
use x509_parser.Utf8.{from_utf8}
use x509_parser.X509.{AttributeTypeAndValue, RelativeDistinguishedName, X509Name}

-- `X509Name::iter_attributes`.
unfoldable pub iter_attributes : List RelativeDistinguishedName → List AttributeTypeAndValue
iter_attributes [] = []
iter_attributes (rdn ∷ rdns) = rdn.set ++ iter_attributes rdns

-- `AttributeTypeAndValue::as_str`.
unfoldable pub as_str : AttributeTypeAndValue → Result X509Error Text
unfolding any
as_str attr =
    let value = attr.attr_value in
    if any (λ t. value.tag == t)
      (tag_numeric_string ∷ tag_printable_string ∷ tag_utf8_string ∷ tag_ia5_string ∷ [])
    then ok_or invalid_attributes (from_utf8 value.content)
    else err (der (unexpected_tag none value.tag))

-- `AttributeTypeAndValue::as_slice`.
unfoldable pub as_slice : AttributeTypeAndValue → Bytes
as_slice attr = attr.attr_value.content

-- `X509Name::iter_by_oid`.
unfoldable pub iter_by_oid : X509Name → Oid → List AttributeTypeAndValue
unfolding filter iter_attributes
iter_by_oid name oid = filter (λ obj. oid_eq obj.attr_type oid) (iter_attributes name.rdn_seq)

module _ (oids : Oids) (name : X509Name) where
  unfoldable pub iter_common_name : List AttributeTypeAndValue
  iter_common_name = iter_by_oid name oids.common_name

  unfoldable pub iter_country : List AttributeTypeAndValue
  iter_country = iter_by_oid name oids.country_name

  unfoldable pub iter_organization : List AttributeTypeAndValue
  iter_organization = iter_by_oid name oids.organization_name

  unfoldable pub iter_organizational_unit : List AttributeTypeAndValue
  iter_organizational_unit = iter_by_oid name oids.organizational_unit

  unfoldable pub iter_state_or_province : List AttributeTypeAndValue
  iter_state_or_province = iter_by_oid name oids.state_or_province_name

  unfoldable pub iter_locality : List AttributeTypeAndValue
  iter_locality = iter_by_oid name oids.locality_name

  unfoldable pub iter_email : List AttributeTypeAndValue
  iter_email = iter_by_oid name oids.email_address

-- ===== src/X509/Fields.antt =====
-- src/x509.rs: the constructors, the fields and the conversions of names, attributes and algorithms.
use x509_parser.Asn1.{Any, Oid}
use x509_parser.Error.{BerError, X509Error, der, invalid_attributes}
use x509_parser.Prelude.{Bytes, List, Option, Text, [], inl, inr, ◌≡◌, ◌≢◌}
use x509_parser.Result.{Result, Result-cases, err, map_err}
use x509_parser.X509.{
  AlgorithmIdentifier, AttributeTypeAndValue, ReasonCode, RelativeDistinguishedName, X509Name,
}
use x509_parser.X509.Attributes.{as_slice, as_str}

unfoldable pub attribute_new : Oid → Any → AttributeTypeAndValue
attribute_new attr_type attr_value = record { attr_type = attr_type; attr_value = attr_value }

unfoldable pub attribute_type : AttributeTypeAndValue → Oid
attribute_type attr = attr.attr_type

unfoldable pub attribute_value : AttributeTypeAndValue → Any
attribute_value attr = attr.attr_value

-- `From<&AttributeTypeAndValue> for &[u8]`.
unfoldable pub slice_from_attribute : AttributeTypeAndValue → Bytes
unfolding as_slice
slice_from_attribute attr = as_slice attr

-- `TryFrom<&AttributeTypeAndValue> for &str`, by the `as_str` of an `Any`.
unfoldable pub str_from_attribute :
    (Any → Result BerError Text) → AttributeTypeAndValue → Result X509Error Text
str_from_attribute any_as_str attr = map_err der (any_as_str attr.attr_value)

-- Where `as_str` fails on text that is not UTF-8, the conversion does not return the same.
str_from_attribute-as_str :
    (any_as_str : Any → Result BerError Text) (attr : AttributeTypeAndValue)
    → as_str attr ≡ err invalid_attributes
    → str_from_attribute any_as_str attr ≢ as_str attr
unfolding str_from_attribute
str_from_attribute-as_str any_as_str attr h = elim (Result-cases (any_as_str attr.attr_value)) [
  | inl (e, k) ↦ rw (h, k) (λ q. cc)
  | inr (s, k) ↦ rw (h, k) (λ q. cc)
]

unfoldable pub rdn_new : List AttributeTypeAndValue → RelativeDistinguishedName
rdn_new set = record { set = set }

unfoldable pub rdn_iter : RelativeDistinguishedName → List AttributeTypeAndValue
rdn_iter rdn = rdn.set

unfoldable pub rdn_from_iter : List AttributeTypeAndValue → RelativeDistinguishedName
rdn_from_iter iter = record { set = iter }

unfoldable pub algorithm_new : Oid → Option Any → AlgorithmIdentifier
algorithm_new algorithm parameters = record { algorithm = algorithm; parameters = parameters }

unfoldable pub algorithm_oid : AlgorithmIdentifier → Oid
algorithm_oid alg = alg.algorithm

unfoldable pub algorithm_parameters : AlgorithmIdentifier → Option Any
algorithm_parameters alg = alg.parameters

unfoldable pub name_new : List RelativeDistinguishedName → Bytes → X509Name
name_new rdn_seq raw = record { rdn_seq = rdn_seq; raw = raw }

unfoldable pub name_as_raw : X509Name → Bytes
name_as_raw name = name.raw

unfoldable pub name_iter : X509Name → List RelativeDistinguishedName
name_iter name = name.rdn_seq

unfoldable pub name_iter_rdn : X509Name → List RelativeDistinguishedName
name_iter_rdn name = name.rdn_seq

-- A name that is collected has no raw bytes.
unfoldable pub name_from_iter : List RelativeDistinguishedName → X509Name
name_from_iter iter = record { rdn_seq = iter; raw = [] }

-- `From<X509Name> for Vec<RelativeDistinguishedName>`.
unfoldable pub rdns_from_name : X509Name → List RelativeDistinguishedName
rdns_from_name name = name.rdn_seq

-- `ReasonCode::default`.
unfoldable pub default_reason : ReasonCode
default_reason = record { value = 0 }

-- ===== src/Validate/Name.antt =====
-- src/validate/name.rs, and the attributes of a name from src/x509.rs.
use x509_parser.Asn1.{Oid, tag_ia5_string, tag_printable_string}
use x509_parser.Prelude.{Bool, Bytes, Text, all, codes, ltb, not, ◌&&◌, ◌++◌, ◌==◌, ◌||◌}
use x509_parser.Validate.Steps.{Step, Validator, for_each, validate, warn_if}
use x509_parser.X509.{AttributeTypeAndValue, X509Name}
use x509_parser.X509.Attributes.{iter_attributes}

-- `s.iter().all(u8::is_ascii)`.
unfoldable pub all_ascii : Bytes → Bool
all_ascii b = all (λ c. ltb c 128) b

module _ (show_oid : Oid → Text) where
  -- `validate_name` of one attribute.
  unfoldable pub attribute_step : AttributeTypeAndValue → Step
  attribute_step attr =
      warn_if
        ((attr.attr_value.tag == tag_printable_string || attr.attr_value.tag == tag_ia5_string)
          && not (all_ascii attr.attr_value.content))
        (codes "Invalid charset in X.509 Name, component " ++ show_oid attr.attr_type)

  -- `X509NameStructureValidator`.
  unfoldable pub name_validator : Validator X509Name
  name_validator = validate λ name. for_each attribute_step (iter_attributes name.rdn_seq)

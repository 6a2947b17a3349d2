-- ===== src/Objects.antt =====
-- src/objects.rs and src/x509.rs: the names of object identifiers, and a name as text.
pub mod Joined
use x509_parser.Asn1.{
  Any, Oid, Oids, tag_bmp_string, tag_general_string, tag_graphic_string, tag_ia5_string,
  tag_numeric_string, tag_object_descriptor, tag_printable_string, tag_t61_string, tag_utf8_string,
  tag_videotex_string, tag_visible_string,
}
use x509_parser.Error.{X509Error, invalid_attributes}
use x509_parser.OidMap.{inserted_from, map_get}
use x509_parser.Prelude.{
  Bool, Bytes, List, Option, Text, [], any, codes, if◌then◌else◌, is_empty, none, some, ℕ, ◌++◌,
  ◌==◌, ◌∷◌,
}
use x509_parser.Result.{Result, err, ok, ok_or, ◌>>=◌}
use x509_parser.Utf8.{from_utf8}
use x509_parser.X509.{AttributeTypeAndValue, RelativeDistinguishedName, X509Name}

-- What the text of a name takes from other crates: a registry's short names and descriptions,
-- the printing of an identifier (`{:?}`), and `HEXUPPER.encode`.
pub record Naming : Type 0 where
  pub entry : Oid → Option (Text × Text)
  pub debug : Oid → Text
  pub hexupper : Bytes → Text

-- `ABBREV_MAP`.
unfoldable pub abbrev_map : Oids → List (Oid × Text)
unfolding inserted_from
abbrev_map oids = inserted_from [] (
    (oids.common_name, codes "CN")
    ∷ (oids.country_name, codes "C")
    ∷ (oids.locality_name, codes "L")
    ∷ (oids.state_or_province_name, codes "ST")
    ∷ (oids.organization_name, codes "O")
    ∷ (oids.organizational_unit, codes "OU")
    ∷ (oids.domain_component, codes "DC")
    ∷ (oids.email_address, codes "Email")
    ∷ [])

-- A `fold` of texts, with a separator only where there is text already.
unfoldable pub joined_from :
    {A : Type 0} → (A → Result X509Error Text) → Text → Text → List A → Result X509Error Text
joined_from text sep acc [] = ok acc
joined_from text sep acc (x ∷ xs) =
    text x >>= λ t. joined_from text sep (if is_empty acc then t else acc ++ sep ++ t) xs

module _ (oids : Oids) (naming : Naming) where
  -- `oid2sn`; `NidError` has no content.
  unfoldable pub oid2sn : Oid → Option Text
  oid2sn oid = elim (naming.entry oid) [ none ↦ none | some (sn, description) ↦ some sn ]

  unfoldable pub oid2description : Oid → Option Text
  oid2description oid = elim (naming.entry oid) [
    | none ↦ none
    | some (sn, description) ↦ some description
  ]

  unfoldable pub oid2abbrev : Oid → Option Text
  unfolding map_get abbrev_map oid2sn
  oid2abbrev oid = elim (map_get oid (abbrev_map oids)) [
    | some text ↦ some text
    | none ↦ oid2sn oid
  ]

  -- The tags of the `match` of `attribute_value_to_string`.
  abbrev pub is_string_tag : ℕ → Bool
  is_string_tag tag =
      any (λ t. tag == t)
        (tag_numeric_string ∷ tag_bmp_string ∷ tag_visible_string ∷ tag_printable_string
          ∷ tag_general_string ∷ tag_object_descriptor ∷ tag_graphic_string ∷ tag_t61_string
          ∷ tag_videotex_string ∷ tag_utf8_string ∷ tag_ia5_string ∷ [])

  unfoldable pub attribute_value_to_string : Any → Result X509Error Text
  unfolding any
  attribute_value_to_string attr =
      if is_string_tag attr.tag
      then ok_or invalid_attributes (from_utf8 attr.content)
      else ok (naming.hexupper attr.content)

  -- The text of one attribute: `{}={}`.
  unfoldable pub attribute_text : AttributeTypeAndValue → Result X509Error Text
  attribute_text attr = do
    val_str ← attribute_value_to_string attr.attr_value
    ok (
        (elim (oid2abbrev attr.attr_type) [ some s ↦ s | none ↦ naming.debug attr.attr_type ])
        ++ b'=' ∷ val_str)

  -- The inner `fold`, over the attributes.
  unfoldable pub rdn_loop : Text → List AttributeTypeAndValue → Result X509Error Text
  unfolding attribute_text joined_from
  rdn_loop = joined_from attribute_text (codes " + ")

  -- The outer `fold`, over the relative names.
  unfoldable pub name_loop : Text → List RelativeDistinguishedName → Result X509Error Text
  unfolding rdn_loop joined_from
  name_loop = joined_from (λ rdn. rdn_loop [] rdn.set) (codes ", ")

  unfoldable pub x509name_to_string : List RelativeDistinguishedName → Result X509Error Text
  unfolding name_loop
  x509name_to_string rdn_seq = name_loop [] rdn_seq

  -- `X509Name::to_string_with_registry`.
  unfoldable pub to_string_with_registry : X509Name → Result X509Error Text
  unfolding x509name_to_string
  to_string_with_registry name = x509name_to_string name.rdn_seq

  -- `Display for X509Name`, with the registry of the crate.
  unfoldable pub name_display : X509Name → Text
  unfolding x509name_to_string
  name_display name = elim (x509name_to_string name.rdn_seq) [
    | ok o ↦ o
    | err _ ↦ codes "<X509Error: Invalid X.509 name>"
  ]

-- ===== src/X509/Equality.antt =====
-- src/x509.rs: the derived equality of names.
use x509_parser.Asn1.{Any, oid_eq}
use x509_parser.Prelude.{Bool, List, [], false, list_eq, true, ◌&&◌, ◌∷◌}
use x509_parser.X509.{AttributeTypeAndValue, RelativeDistinguishedName, X509Name}

-- `==` on lists, over that of their elements.
unfoldable pub all_equal : {A : Type 0} → (A → A → Bool) → List A → List A → Bool
all_equal eq [] [] = true
all_equal eq (x ∷ xs) (y ∷ ys) = eq x y && all_equal eq xs ys
all_equal eq _ _ = false

module _ (any_eq : Any → Any → Bool) where
  unfoldable pub attribute_eq : AttributeTypeAndValue → AttributeTypeAndValue → Bool
  attribute_eq a b = oid_eq a.attr_type b.attr_type && any_eq a.attr_value b.attr_value

  unfoldable pub rdn_eq : RelativeDistinguishedName → RelativeDistinguishedName → Bool
  unfolding all_equal attribute_eq
  rdn_eq a b = all_equal attribute_eq a.set b.set

  unfoldable pub name_eq : X509Name → X509Name → Bool
  unfolding rdn_eq
  name_eq a b = all_equal rdn_eq a.rdn_seq b.rdn_seq && list_eq a.raw b.raw

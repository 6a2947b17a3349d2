-- ===== src/Request/Attributes.antt =====
-- The map of a request's attributes against the search by identifier.
use x509_parser.Asn1.{Oid, oid_eq}
use x509_parser.Error.{X509Error, duplicate_attributes}
use x509_parser.OidMap.{map_get}
use x509_parser.OidMap.Distinct.{distinct-err, distinct-ok}
use x509_parser.Prelude.{
  Bool, Bool-cases, List, Option, [], ap, filter, find, inl, inr, none, refl, some, ◌∙◌, ◌∷◌, ◌≡◌,
}
use x509_parser.Request.{X509CriAttribute, attributes_map, find_attribute}
use x509_parser.Result.{err, ok}

-- The first of a list.
abbrev first_of {ℓ} : {A : Type ℓ} → List A → Option A
first_of [] = none
first_of (x ∷ xs) = some x

find-first {ℓ} : {A : Type ℓ} (p : A → Bool) (xs : List A) → find p xs ≡ first_of (filter p xs)
unfolding find filter
find-first p [] = refl
find-first p (x ∷ xs) = elim (Bool-cases (p x)) [
  | inl t ↦ rw (t, find, filter) refl
  | inr f ↦ rw (f, find, filter) (find-first p xs)
]

first_of-entry {ℓ} :
    {A : Type ℓ} (o : Option A) → first_of (elim o [ none ↦ [] | some a ↦ a ∷ [] ]) ≡ o
first_of-entry none = refl
first_of-entry (some a) = refl

-- If the map of attributes is built, it holds for every identifier the attribute that the search
-- finds.
pub attributes_map_ok :
    (attrs : List X509CriAttribute) (m : List (Oid × X509CriAttribute)) (oid : Oid)
    → attributes_map attrs ≡ ok m
    → find_attribute attrs oid ≡ map_get oid m
unfolding attributes_map find_attribute
attributes_map_ok attrs m oid h =
    find-first (λ attr. oid_eq attr.oid oid) attrs
    ∙ (ap first_of (distinct-ok (λ attr. attr.oid) duplicate_attributes attrs m oid h)
        ∙ first_of-entry (map_get oid m))

-- If the map of attributes cannot be built, the error is `DuplicateAttributes`, and two
-- attributes or more have one identifier.
pub attributes_map_err :
    (attrs : List X509CriAttribute) (e : X509Error)
    → attributes_map attrs ≡ err e
    → (e ≡ duplicate_attributes)
      × (oid : Oid) × (first : X509CriAttribute) × (second : X509CriAttribute) × (rest : List
          X509CriAttribute)
      × (filter (λ attr. oid_eq attr.oid oid) attrs ≡ first ∷ second ∷ rest)
unfolding attributes_map
attributes_map_err attrs e h = distinct-err (λ attr. attr.oid) duplicate_attributes attrs h

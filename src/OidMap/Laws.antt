-- ===== src/OidMap/Laws.antt =====
-- A map read after an insertion, and equality of keys.
use x509_parser.Asn1.{Oid, oid_eq}
use x509_parser.OidMap.{map_get, map_insert}
use x509_parser.Prelude.{
  Bool-cases, List, [], ap, arith, eq_of_list_eq, false, if◌then◌else◌, inl, inr, list_eq_refl,
  some, sym, true, ◌↔◌, ◌∙◌, ◌∷◌, ◌≡◌,
}

pub oid_eq_iff : (a b : Oid) → (oid_eq a b ≡ true) ↔ (a ≡ b)
oid_eq_iff a b = (eq_of_list_eq a b, λ p. rw p (list_eq_refl b))

pub oid_eq_comm : (a b : Oid) → oid_eq a b ≡ oid_eq b a
oid_eq_comm a b = elim (Bool-cases (oid_eq a b)) [
  | inl p ↦ rw (eq_of_list_eq a b p)
  | inr n ↦ elim (Bool-cases (oid_eq b a)) [ inl p ↦ rw (eq_of_list_eq b a p) | inr m ↦ n ∙ sym m ]
]

-- What is equal to one of two equal keys is equal to the other.
pub oid_eq_left : (a b c : Oid) → oid_eq a b ≡ true → oid_eq a c ≡ oid_eq b c
oid_eq_left a b c p = rw (eq_of_list_eq a b p)

oid_eq_join : (i j k : Oid) → oid_eq i j ≡ true → oid_eq i k ≡ false → oid_eq k j ≡ false
oid_eq_join i j k p n = elim (Bool-cases (oid_eq k j)) [
  | inl q ↦
      let e : i ≡ k = eq_of_list_eq i j p ∙ sym (eq_of_list_eq k j q) in
      cc (ap (oid_eq i) (sym e) ∙ list_eq_refl i)
  | inr m ↦ m
]

module _ {ℓ} {V : Type ℓ} where
  pub map_get-map_insert :
      (k j : Oid) (v : V) (m : List (Oid × V))
      → map_get j (map_insert k v m) ≡ (if oid_eq k j then some v else map_get j m)
  unfolding map_get map_insert
  map_get-map_insert k j v [] = ground arith
  map_get-map_insert k j v ((i, w) ∷ m) = elim (Bool-cases (oid_eq i k)) [
    | inl p ↦ rw (p, map_insert) (ground (arith, oid_eq_left i k j p))
    | inr n ↦
        rw (n, map_insert)
          (elim (Bool-cases (oid_eq i j)) [
            | inl p ↦ rw (p, map_get) (ground (arith, oid_eq_join i j k p n))
            | inr n' ↦ rw (n', map_get) (map_get-map_insert k j v m)
          ])
  ]

-- ===== src/OidMap/Groups.antt =====
-- The grouping map holds, for each key, the values of the items with that key in order.
use x509_parser.Asn1.{Oid, oid_eq}
use x509_parser.OidMap.{group_from, group_step, map_get}
use x509_parser.OidMap.Laws.{map_get-map_insert}
use x509_parser.Prelude.{
  Bool-cases, List, Option, Option-cases, [], ap, append-nil, append_assoc, eq_of_list_eq, false,
  filter, inl, inr, list_eq_refl, map, none, refl, some, subst, sym, ◌++◌, ◌∙◌, ◌∷◌, ◌≡◌,
}

-- No entry for a key with no value.
abbrev pub entry_of {κ} : {V : Type κ} → List V → Option (List V)
entry_of [] = none
entry_of (v ∷ vs) = some (v ∷ vs)

module _ {ℓ κ} {A : Type ℓ} {V : Type κ} (key : A → Oid) (value : A → V) where
  -- The values of the items with key `k`, in order.
  abbrev pub values_of : Oid → List A → List V
  values_of k xs = map value (filter (λ x. oid_eq (key x) k) xs)

  entry_of-concat : (vs : List V) (v : V) → entry_of (vs ++ v ∷ []) ≡ some (vs ++ v ∷ [])
  entry_of-concat [] v = refl
  entry_of-concat (u ∷ vs) v = refl

  -- The entry of the item's key grows by its value.
  group_step_self :
      (m : List (Oid × List V)) (x : A) (vs : List V)
      → map_get (key x) m ≡ entry_of vs
      → map_get (key x) (group_step key value m x) ≡ some (vs ++ value x ∷ [])
  unfolding group_step
  group_step_self m x [] h = rw (h, group_step) (rw map_get-map_insert (rw list_eq_refl))
  group_step_self m x (v ∷ vs) h = rw (h, group_step) (rw map_get-map_insert (rw list_eq_refl))

  group_step_ne :
      (m : List (Oid × List V)) (x : A) (k : Oid)
      → oid_eq (key x) k ≡ false
      → map_get k (group_step key value m x) ≡ map_get k m
  unfolding group_step
  group_step_ne m x k n = elim (Option-cases (map_get (key x) m)) [
    | inl e ↦ rw (e, group_step) (rw map_get-map_insert (rw n))
    | inr (vs, e) ↦ rw (e, group_step) (rw map_get-map_insert (rw n))
  ]

  group_from_lem :
      (xs : List A) (m : List (Oid × List V)) (k : Oid) (vs : List V)
      → map_get k m ≡ entry_of vs
      → map_get k (group_from key value m xs) ≡ entry_of (vs ++ values_of k xs)
  unfolding group_from filter
  group_from_lem [] m k vs h = rw append-nil h
  group_from_lem (x ∷ xs) m k vs h = elim (Bool-cases (oid_eq (key x) k)) [
    | inl p ↦
        let q = eq_of_list_eq (key x) k p in
        let g = λ (z : Oid). map_get z (group_step key value m x) ≡ some (vs ++ value x ∷ []) in
        let s = subst g q (group_step_self m x vs (ap (λ z. map_get z m) q ∙ h)) in
        rw (p, filter)
          (group_from_lem xs (group_step key value m x) k (vs ++ value x ∷ [])
              (s ∙ sym (entry_of-concat vs (value x)))
            ∙ rw append_assoc)
    | inr n ↦
        rw (n, filter)
          (group_from_lem xs (group_step key value m x) k vs (group_step_ne m x k n ∙ h))
  ]

  -- From the empty map: exactly the values of the items with the key, in order, and no entry
  -- where there is none.
  pub group_from-values_of :
      (xs : List A) (k : Oid) → map_get k (group_from key value [] xs) ≡ entry_of (values_of k xs)
  unfolding map_get
  group_from-values_of xs k = group_from_lem xs [] k [] refl

-- ===== src/OidMap/Entries.antt =====
-- A map made of entries whose keys differ holds each of them.
use x509_parser.Asn1.{Oid, oid_eq}
use x509_parser.OidMap.{inserted_from, map_get, map_insert}
use x509_parser.OidMap.Laws.{map_get-map_insert}
use x509_parser.Prelude.{
  All, List, [], arith, false, get_elem?, list_eq_refl, map, refl, some, subst, suc, zero, ℕ, ◌∙◌,
  ◌∷◌, ◌≡◌,
}

-- Keys that differ from each other.
abbrev pub NoDuplicates : List Oid → Type 0
NoDuplicates [] = Unit
NoDuplicates (k ∷ ks) = All (λ j. oid_eq j k ≡ false) ks × NoDuplicates ks

module _ {ℓ} {V : Type ℓ} where
  abbrev pub keys : List (Oid × V) → List Oid
  keys = map (λ (k, v). k)

  kept :
      (k : Oid) (m entries : List (Oid × V))
      → All (λ j. oid_eq j k ≡ false) (keys entries)
      → map_get k (inserted_from m entries) ≡ map_get k m
  unfolding inserted_from
  kept k m [] h = refl
  kept k m ((j, v) ∷ entries) (h, hs) =
      kept k (map_insert j v m) entries hs ∙ ground (arith, map_get-map_insert j k v m)

  pub inserted_from-entry :
      (n : ℕ) (m entries : List (Oid × V)) (k : Oid) (v : V)
      → get_elem? entries n ≡ some (k, v)
      → NoDuplicates (keys entries)
      → map_get k (inserted_from m entries) ≡ some v
  unfolding inserted_from
  inserted_from-entry n m [] k v h u = cc
  inserted_from-entry zero m ((j, w) ∷ entries) k v h (f, u) =
      let e : ◌≡◌ {A = Oid × V} (j, w) (k, v) = cc in
      let here : map_get j (map_insert j w m) ≡ some w =
        map_get-map_insert j j w m ∙ rw (oid_eq, list_eq_refl j) refl in
      subst (λ (x : Oid × V). map_get x.0 (inserted_from (map_insert j w m) entries) ≡ some x.1) e
        (kept j (map_insert j w m) entries f ∙ here)
  inserted_from-entry (suc n) m ((j, w) ∷ entries) k v h (f, u) =
      inserted_from-entry n (map_insert j w m) entries k v h u

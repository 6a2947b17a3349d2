-- ===== src/OidMap.antt =====
-- `HashMap<Oid, V>` and `HashSet<Oid>` as the program uses them, as association lists and lists.
-- No operation of the program observes the order of a map.
pub mod Laws
pub mod Distinct
pub mod Groups
pub mod Entries
use x509_parser.Asn1.{Oid, oid_eq}
use x509_parser.Prelude.{
  Bool, List, Option, [], false, if◌then◌else◌, none, some, true, ◌++◌, ◌||◌, ◌∷◌,
}
use x509_parser.Result.{Result, err, ok}

module _ {ℓ} {V : Type ℓ} where
  unfoldable pub map_get : Oid → List (Oid × V) → Option V
  map_get k [] = none
  map_get k ((j, v) ∷ m) = elim (oid_eq j k) [ true ↦ some v | false ↦ map_get k m ]

  abbrev pub contains_key : Oid → List (Oid × V) → Bool
  contains_key k m = elim (map_get k m) [ none ↦ false | some _ ↦ true ]

  -- An entry with the key is overwritten.
  unfoldable pub map_insert : Oid → V → List (Oid × V) → List (Oid × V)
  map_insert k v [] = (k, v) ∷ []
  map_insert k v ((j, w) ∷ m) = elim (oid_eq j k) [
    | true ↦ (k, v) ∷ m
    | false ↦ (j, w) ∷ map_insert k v m
  ]

unfoldable pub set_contains : Oid → List Oid → Bool
set_contains k [] = false
set_contains k (j ∷ s) = oid_eq j k || set_contains k s

-- The entries of a map, inserted one after another.
unfoldable pub inserted_from {ℓ} : {V : Type ℓ} → List (Oid × V) → List (Oid × V) → List (Oid × V)
unfolding map_insert
inserted_from m [] = m
inserted_from m ((k, v) ∷ entries) = inserted_from (map_insert k v m) entries

-- `HashSet::insert`, whose result says whether the value was new.
unfoldable pub set_insert : Oid → List Oid → Bool × List Oid
unfolding set_contains
set_insert k s = if set_contains k s then (false, s) else (true, k ∷ s)

-- `try_fold(HashMap::new(), ..)` over items with a key: the loop body of the three
-- `extensions_map` and of `attributes_map`, which differ in the error.
module _ {ℓ κ} {A : Type ℓ} {E : Type κ} (key : A → Oid) (duplicate : E) where
  unfoldable pub distinct_from : List (Oid × A) → List A → Result E (List (Oid × A))
  distinct_from m [] = ok m
  distinct_from m (x ∷ xs) = elim (contains_key (key x) m) [
    | true ↦ err duplicate
    | false ↦ distinct_from (map_insert (key x) x m) xs
  ]

-- The loop of `as_hashmap` and `into_hashmap`: values with one key are collected in one entry.
module _ {ℓ κ} {A : Type ℓ} {V : Type κ} (key : A → Oid) (value : A → V) where
  unfoldable pub group_step : List (Oid × List V) → A → List (Oid × List V)
  group_step m x = elim (map_get (key x) m) [
    | some vs ↦ map_insert (key x) (vs ++ value x ∷ []) m
    | none ↦ map_insert (key x) (value x ∷ []) m
  ]

  unfoldable pub group_from : List (Oid × List V) → List A → List (Oid × List V)
  unfolding group_step
  group_from m [] = m
  group_from m (x ∷ xs) = group_from (group_step m x) xs

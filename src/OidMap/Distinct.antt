-- ===== src/OidMap/Distinct.antt =====
-- The map of items with distinct keys, against the items that have a given key.
use x509_parser.Asn1.{Oid, oid_eq}
use x509_parser.OidMap.{contains_key, distinct_from, map_get, map_insert}
use x509_parser.OidMap.Laws.{map_get-map_insert}
use x509_parser.Prelude.{
  Bool-cases, List, Option-cases, [], arith, eq_of_list_eq, false, filter, inl, inr, list_eq_refl,
  none, some, ◌∙◌, ◌∷◌, ◌≡◌,
}
use x509_parser.Result.{err, ok}

module _ {ℓ κ} {A : Type ℓ} {E : Type κ} (key : A → Oid) (duplicate : E) where
  abbrev pub having : Oid → List A → List A
  having k = filter (λ x. oid_eq (key x) k)

  -- What `m` and the items still to come hold for a key, in order.
  abbrev held : List (Oid × A) → Oid → List A → List A
  held m k xs = elim (map_get k m) [ none ↦ having k xs | some a ↦ a ∷ having k xs ]

  held_step :
      (m : List (Oid × A)) (k : Oid) (x : A) (xs : List A)
      → contains_key (key x) m ≡ false
      → held m k (x ∷ xs) ≡ held (map_insert (key x) x m) k xs
  unfolding filter
  held_step m k x xs h = elim (Bool-cases (oid_eq (key x) k)) [
    | inl e ↦
        let h' : contains_key k m ≡ false = rw (eq_of_list_eq (key x) k e) at h in
        ground (arith, map_get-map_insert (key x) k x m)
    | inr n ↦ ground (arith, map_get-map_insert (key x) k x m)
  ]

  distinct_from-ok :
      (m : List (Oid × A)) (xs : List A) (m' : List (Oid × A)) (k : Oid)
      → distinct_from key duplicate m xs ≡ ok m'
      → held m k xs ≡ elim (map_get k m') [ none ↦ [] | some a ↦ a ∷ [] ]
  unfolding distinct_from filter
  distinct_from-ok m [] m' k h = ground arith
  distinct_from-ok m (x ∷ xs) m' k h =
      ground (arith, held_step m k x xs, distinct_from-ok (map_insert (key x) x m) xs m' k)

  -- At least two entries are held for some key.
  record Repeats (m : List (Oid × A)) (xs : List A) : Type ℓ where
    k : Oid
    first : A
    second : A
    rest : List A
    twice : held m k xs ≡ first ∷ second ∷ rest

  distinct_from-err :
      (m : List (Oid × A)) (xs : List A) {e : E}
      → distinct_from key duplicate m xs ≡ err e
      → (e ≡ duplicate) × Repeats m xs
  unfolding distinct_from filter
  distinct_from-err m [] h = cc
  distinct_from-err m (x ∷ xs) h = elim (Option-cases (map_get (key x) m)) [
    | inl n ↦
        let c : contains_key (key x) m ≡ false = rw (n, contains_key) in
        let (e, r) = distinct_from-err (map_insert (key x) x m) xs (rw (n, distinct_from) at h) in
        (
          e,
          record {
            k = r.k;
            first = r.first;
            second = r.second;
            rest = r.rest;
            twice = held_step m r.k x xs c ∙ r.twice;
          },
        )
    | inr (a, p) ↦ (
      ground arith,
      record {
        k = key x;
        first = a;
        second = x;
        rest = having (key x) xs;
        twice = rw (p, held) (rw (list_eq_refl, filter));
      },
    )
  ]

  -- With no repeated key the map is built, and it holds for each key the one item that has it.
  pub distinct-ok :
      (xs : List A) (m : List (Oid × A)) (k : Oid)
      → distinct_from key duplicate [] xs ≡ ok m
      → having k xs ≡ elim (map_get k m) [ none ↦ [] | some a ↦ a ∷ [] ]
  unfolding map_get
  distinct-ok xs m k h = distinct_from-ok [] xs m k h

  -- If the map is not built, the error is the given one, and two items share a key.
  pub distinct-err :
      (xs : List A) {e : E}
      → distinct_from key duplicate [] xs ≡ err e
      → (e ≡ duplicate)
        × (k : Oid) × (first : A) × (second : A) × (rest : List A) × (having k xs
            ≡ first ∷ second ∷ rest)
  unfolding map_get
  distinct-err xs h =
      let (e, r) = distinct_from-err [] xs h in (e, r.k, r.first, r.second, r.rest, r.twice)

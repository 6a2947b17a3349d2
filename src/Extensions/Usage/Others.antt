-- ===== src/Extensions/Usage/Others.antt =====
-- The other identifiers that the loop of `parse_extendedkeyusage` collects.
use x509_parser.Asn1.{Oid, oid_eq}
use x509_parser.Extensions.{ExtendedKeyUsage}
use x509_parser.Extensions.Usage.{
  any_extended_key_usage, key_purpose, no_usage, usage_loop, usage_step,
}
use x509_parser.Extensions.Usage.Tracked.{Tracks, usage_loop-get}
use x509_parser.OidMap.{set_contains}
use x509_parser.OidMap.Entries.{NoDuplicates}
use x509_parser.OidMap.Laws.{oid_eq_comm}
use x509_parser.Prelude.{
  All-append, Bool, Bool-cases, List, [], arith, eq_of_list_eq, false, if◌then◌else◌, inl, inr, not,
  refl, subst, true, ◌&&◌, ◌++◌, ◌||◌, ◌∙◌, ◌∷◌, ◌≡◌,
}

-- The identifiers that have a flag.
abbrev pub has_flag : Oid → Bool
has_flag z =
    oid_eq z any_extended_key_usage
    || oid_eq z (key_purpose 1)
    || oid_eq z (key_purpose 2)
    || oid_eq z (key_purpose 3)
    || oid_eq z (key_purpose 4)
    || oid_eq z (key_purpose 8)
    || oid_eq z (key_purpose 9)

usage_step_others :
    (eku : ExtendedKeyUsage) (z : Oid)
    → (usage_step eku z).others ≡ (if has_flag z then eku.others else eku.others ++ z ∷ [])
unfolding usage_step
usage_step_others eku z = ground arith

set_contains-append :
    (k : Oid) (xs ys : List Oid)
    → set_contains k (xs ++ ys) ≡ (set_contains k xs || set_contains k ys)
unfolding set_contains
set_contains-append k [] ys = refl
set_contains-append k (x ∷ xs) ys = ground (arith, set_contains-append k xs ys)

has_flag-oid_eq : (z k : Oid) → has_flag z ≡ true → has_flag k ≡ false → oid_eq z k ≡ false
has_flag-oid_eq z k h n = elim (Bool-cases (oid_eq z k)) [
  | inl q ↦
      let same : has_flag k ≡ true = subst (λ x. has_flag x ≡ true) (eq_of_list_eq z k q) h in cc
  | inr f ↦ f
]

no_flag-oid_eq : (z k : Oid) → has_flag z ≡ false → has_flag k ≡ true → oid_eq z k ≡ false
no_flag-oid_eq z k n h = oid_eq_comm z k ∙ has_flag-oid_eq k z h n

-- An identifier without a flag is collected.
others-Tracks :
    (k : Oid)
    → has_flag k ≡ false
    → (eku : ExtendedKeyUsage) (z : Oid) → Tracks (λ e. set_contains k e.others) k eku z
unfolding set_contains
others-Tracks k h eku z = elim (Bool-cases (has_flag z)) [
  | inl q ↦ rw (usage_step_others eku z, q, has_flag-oid_eq z k q h) refl
  | inr n ↦
      rw (usage_step_others eku z, n, set_contains-append k eku.others (z ∷ [])) (ground arith)
]

-- And one with a flag is not.
others-has_flag :
    (k : Oid)
    → has_flag k ≡ true
    → (eku : ExtendedKeyUsage) (z : Oid)
    → set_contains k (usage_step eku z).others ≡ set_contains k eku.others
unfolding set_contains
others-has_flag k h eku z = elim (Bool-cases (has_flag z)) [
  | inl q ↦ rw (usage_step_others eku z, q) refl
  | inr n ↦
      let f : oid_eq z k ≡ false = no_flag-oid_eq z k n h in
      rw (usage_step_others eku z, n, set_contains-append k eku.others (z ∷ []), f) (ground arith)
]

usage_loop-has_flag :
    (k : Oid)
    → has_flag k ≡ true
    → (seen : List Oid) (eku : ExtendedKeyUsage) (seq : List Oid)
    → set_contains k (usage_loop seen eku seq).others ≡ set_contains k eku.others
unfolding usage_loop
usage_loop-has_flag k h seen eku [] = refl
usage_loop-has_flag k h seen eku (z ∷ seq) = elim (Bool-cases (set_contains z seen)) [
  | inl p ↦ rw (p, usage_loop) (usage_loop-has_flag k h seen eku seq)
  | inr n ↦
      rw (n, usage_loop)
        (usage_loop-has_flag k h (z ∷ seen) (usage_step eku z) seq ∙ others-has_flag k h eku z)
]

-- The other identifiers are those of the list that have no flag.
pub usage_loop_others :
    (k : Oid) (seq : List Oid)
    → set_contains k (usage_loop [] no_usage seq).others ≡ (set_contains k seq && not (has_flag k))
unfolding set_contains
usage_loop_others k seq = elim (Bool-cases (has_flag k)) [
  | inl q ↦ rw (q) (usage_loop-has_flag k q [] no_usage seq ∙ ground arith)
  | inr n ↦ rw (n) (
      usage_loop-get (λ e. set_contains k e.others) k (others-Tracks k n) [] no_usage seq refl
      ∙ ground arith)
]

or-false : (a b : Bool) → (a || b) ≡ false → (a ≡ false) × (b ≡ false)
or-false a b h = ground arith

NoDuplicates-snoc :
    (xs : List Oid) (z : Oid)
    → NoDuplicates xs
    → set_contains z xs ≡ false
    → NoDuplicates (xs ++ z ∷ [])
unfolding set_contains
NoDuplicates-snoc [] z u h = (tt, tt)
NoDuplicates-snoc (x ∷ xs) z (f, u) h =
    let (a, b) = or-false (oid_eq x z) (set_contains z xs) h in
    (
      All-append (λ j. oid_eq j x ≡ false) xs (z ∷ []) f (oid_eq_comm z x ∙ a, tt),
      NoDuplicates-snoc xs z u b,
    )

step-NoDuplicates :
    (eku : ExtendedKeyUsage) (z : Oid)
    → NoDuplicates eku.others
    → set_contains z eku.others ≡ false
    → NoDuplicates (usage_step eku z).others
step-NoDuplicates eku z u h = elim (Bool-cases (has_flag z)) [
  | inl q ↦ rw (usage_step_others eku z, q) u
  | inr m ↦ rw (usage_step_others eku z, m) (NoDuplicates-snoc eku.others z u h)
]

step_others :
    (eku : ExtendedKeyUsage) (z k : Oid)
    → oid_eq z k ≡ false
    → set_contains k eku.others ≡ false
    → set_contains k (usage_step eku z).others ≡ false
unfolding set_contains
step_others eku z k f h = elim (Bool-cases (has_flag z)) [
  | inl q ↦ rw (usage_step_others eku z, q) h
  | inr m ↦ rw (usage_step_others eku z, m, set_contains-append k eku.others (z ∷ []), h, f) refl
]

usage_loop-NoDuplicates :
    (seen : List Oid) (eku : ExtendedKeyUsage) (seq : List Oid)
    → NoDuplicates eku.others
    → ((k : Oid) → set_contains k seen ≡ false → set_contains k eku.others ≡ false)
    → NoDuplicates (usage_loop seen eku seq).others
unfolding usage_loop set_contains
usage_loop-NoDuplicates seen eku [] u h = u
usage_loop-NoDuplicates seen eku (z ∷ seq) u h = elim (Bool-cases (set_contains z seen)) [
  | inl p ↦ rw (p, usage_loop) (usage_loop-NoDuplicates seen eku seq u h)
  | inr n ↦
      rw (n, usage_loop)
        (usage_loop-NoDuplicates (z ∷ seen) (usage_step eku z) seq
          (step-NoDuplicates eku z u (h z n))
          (λ k m.
            let (a, b) = or-false (oid_eq z k) (set_contains k seen) m in
            step_others eku z k a (h k b)))
]

-- No other identifier is collected twice.
pub others-NoDuplicates : (seq : List Oid) → NoDuplicates (usage_loop [] no_usage seq).others
unfolding set_contains
others-NoDuplicates seq = usage_loop-NoDuplicates [] no_usage seq tt (λ k h. refl)

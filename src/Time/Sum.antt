-- ===== src/Time/Sum.antt =====
-- The sum of a time and a duration against the difference of times.
use x509_parser.Prelude.{
  Bool-cases, Option, arith, inl, inr, leb, leb→le, ltb, ltb→lt, negsuc, none, pos, refl, some, suc,
  zero, ℕ, ℤ, ◌+◌, ◌-◌, ◌<◌, ◌≡◌, ◌≤◌, ◌⊎◌,
}
use x509_parser.Time.{Asn1Time, time_sub}
use x509_parser.Time.Conversions.{TimeCrate, time_add}

-- The end of the duration is an instant from the first to the last one that the crate can hold.
abbrev pub IsInRange : ℕ → ℕ → ℤ → Type 0
IsInRange last dt (pos n) = dt + n ≤ last
IsInRange last dt (negsuc n) = n < dt

-- The documented behaviour of the crate's `+`, for a last instant: the instant where the duration
-- ends, or a panic where that is out of range.
pub record Adds (c : TimeCrate) (last : ℕ) : Type 0 where
  pub forward : (dt n : ℕ) → dt + n ≤ last → c.datetime_add dt (pos n) ≡ some (dt + n)
  pub backward : (dt n : ℕ) → n < dt → c.datetime_add dt (negsuc n) ≡ some (dt - suc n)
  pub overflow : (dt : ℕ) (d : ℤ) → (IsInRange last dt d → ⊥) → c.datetime_add dt d ≡ none

-- A duration as `time_sub` returns it: it must be positive.
abbrev pub positive : ℤ → Option ℕ
positive (pos zero) = none
positive (pos (suc n)) = some (suc n)
positive (negsuc n) = none

module _ (c : TimeCrate) (last : ℕ) (laws : Adds c last) where
  ended :
      (a : Asn1Time) (d : ℤ) (dt : ℕ)
      → c.datetime_add a.instant d ≡ some dt
      → time_sub (record { instant = dt }) a ≡ positive d
      → (t : Asn1Time) × (time_add c a d ≡ some (some t)) × (time_sub t a ≡ positive d)
  unfolding time_add
  ended a d dt e k = (record { instant = dt }, rw (e, time_add) refl, k)

  in_range :
      (a : Asn1Time) (d : ℤ)
      → IsInRange last a.instant d
      → (t : Asn1Time) × (time_add c a d ≡ some (some t)) × (time_sub t a ≡ positive d)
  unfolding time_sub
  in_range a (pos zero) h = ended a (pos zero) _ (laws.forward a.instant zero h) (ground arith)
  in_range a (pos (suc n)) h =
      ended a (pos (suc n)) _ (laws.forward a.instant (suc n) h) (ground arith)
  in_range a (negsuc n) h = ended a (negsuc n) _ (laws.backward a.instant n h) (ground arith)

  range_cases : (dt : ℕ) (d : ℤ) → IsInRange last dt d ⊎ (¬ IsInRange last dt d)
  range_cases dt (pos n) = elim (Bool-cases (leb (dt + n) last)) [
    | inl e ↦ inl (leb→le _ _ e)
    | inr e ↦ inr (λ k. ground arith)
  ]
  range_cases dt (negsuc n) = elim (Bool-cases (ltb n dt)) [
    | inl e ↦ inl (ltb→lt _ _ e)
    | inr e ↦ inr (λ k. ground arith)
  ]

  -- If the duration ends in range, its sum with a time is a time, and the difference from that time
  -- back is the duration where it is positive, and None where it is not; if it ends out of range,
  -- the sum panics. So the sum never returns None. The crate's `+` is assumed to give the instant
  -- where the duration ends, and to panic where that is out of range.
  pub time_add-time_sub :
      (a : Asn1Time) (d : ℤ)
      → (IsInRange last a.instant d
          × (t : Asn1Time) × (time_add c a d ≡ some (some t))
          × (time_sub t a ≡ positive d))
        ⊎ ((¬ IsInRange last a.instant d) × (time_add c a d ≡ none))
  unfolding time_add
  time_add-time_sub a d = elim (range_cases a.instant d) [
    | inl h ↦ let (t, e, k) = in_range a d h in inl (h, t, e, k)
    | inr h ↦ inr (h, rw (laws.overflow a.instant d h, time_add) refl)
  ]

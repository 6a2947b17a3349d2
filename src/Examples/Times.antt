-- ===== src/Examples/Times.antt =====
-- The theorems on times at concrete instants and readings.
use x509_parser.Certificate.OptionalTime.{time_from_der_opt-some}
use x509_parser.Certificate.Parse.{time_from_der, time_from_der_opt}
use x509_parser.Der.{Der}
use x509_parser.Examples.{plain}
use x509_parser.Prelude.{
  Bool-cases, [], arith, codes, false, if◌then◌else◌, inl, inr, is_empty, leb, leb→le, ltb, ltb→lt,
  negsuc, none, pos, refl, some, suc, ℕ, ℤ, ◌+◌, ◌-◌, ◌↔◌, ◌∷◌, ◌≡◌, ◌⊎◌,
}
use x509_parser.Result.{err, ok, whole}
use x509_parser.Time.{Asn1Time, time_sub}
use x509_parser.Time.Conversions.{TimeCrate, time_add}
use x509_parser.Time.Sum.{Adds, IsInRange, time_add-time_sub}

abbrev last_instant : ℕ
last_instant = 1000

-- A crate whose instants are the numbers from 0 to `last_instant`.
abbrev clock_crate : TimeCrate
clock_crate = record {
  from_unix_timestamp = λ secs. elim secs [ pos n ↦ some n | negsuc n ↦ none ];
  unix_timestamp = pos;
  now_utc = 5;
  format_rfc2822 = λ n. err (codes "unsupported");
  format = λ n. ok (codes "a time");
  datetime_add = λ dt d. elim d [
    | pos n ↦ if leb (dt + n) last_instant then some (dt + n) else none
    | negsuc n ↦ if ltb n dt then some (dt - suc n) else none
  ];
}

clock_crate-overflow :
    (dt : ℕ) (d : ℤ) → (IsInRange last_instant dt d → ⊥) → clock_crate.datetime_add dt d ≡ none
clock_crate-overflow dt (pos n) h = elim (Bool-cases (leb (dt + n) last_instant)) [
  | inl e ↦ absurd (h (leb→le _ _ e))
  | inr e ↦ rw (e) refl
]
clock_crate-overflow dt (negsuc n) h = elim (Bool-cases (ltb n dt)) [
  | inl e ↦ absurd (h (ltb→lt _ _ e))
  | inr e ↦ rw (e) refl
]

clock_crate-Adds : Adds clock_crate last_instant
clock_crate-Adds = record {
  forward = λ dt n h. ground arith;
  backward = λ dt n h. ground arith;
  overflow = clock_crate-overflow;
}

time_add-time_sub_example :
    (IsInRange last_instant 5 (pos 7)
      × (t : Asn1Time) × (time_add clock_crate (record { instant = 5 }) (pos 7) ≡ some (some t))
      × (time_sub t (record { instant = 5 }) ≡ some 7))
    ⊎ ((¬ IsInRange last_instant 5 (pos 7))
        × (time_add clock_crate (record { instant = 5 }) (pos 7) ≡ none))
time_add-time_sub_example =
    time_add-time_sub clock_crate last_instant clock_crate-Adds (record { instant = 5 }) (pos 7)

-- A reading in which every input starts with the time of the instant 5.
abbrev timed : Der
timed = record plain {
  utc_time_from_der = λ i. ok (i, tt);
  utc_adjusted_datetime = λ _. ok (record { instant = 5 });
}

time_from_der_opt-some_example :
    (time_from_der_opt timed (whole (23 ∷ []))
      ≡ ok (whole (23 ∷ []), some (record { instant = 5 })))
    ↔ ((is_empty {A = ℕ} (23 ∷ []) ≡ false)
        × (time_from_der timed (whole (23 ∷ [])) ≡ ok (whole (23 ∷ []), record { instant = 5 })))
time_from_der_opt-some_example =
    time_from_der_opt-some timed (whole (23 ∷ [])) (whole (23 ∷ [])) (record { instant = 5 })

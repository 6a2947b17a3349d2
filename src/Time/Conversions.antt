-- ===== src/Time/Conversions.antt =====
-- src/time.rs: the conversions and the printing of an `ASN1Time`, over the crate `time`.
use x509_parser.Error.{X509Error, invalid_date}
use x509_parser.Prelude.{Option, Text, codes, none, some, ℕ, ℤ, ◌++◌}
use x509_parser.Result.{Result, err, ok}
use x509_parser.Time.{Asn1Time}

-- What the crate `time` gives, by instants: a conversion from seconds fails out of its range, and
-- formatting may fail with a message. `datetime_add` is its `+` of an instant and a duration in
-- nanoseconds, with `none` for a panic.
pub record TimeCrate : Type 0 where
  pub from_unix_timestamp : ℤ → Option ℕ
  pub unix_timestamp : ℕ → ℤ
  pub now_utc : ℕ
  pub format_rfc2822 : ℕ → Result Text Text
  pub format : ℕ → Result Text Text
  pub datetime_add : ℕ → ℤ → Option ℕ

-- `ASN1Time::new` and `From<OffsetDateTime>`.
unfoldable pub time_new : ℕ → Asn1Time
time_new dt = record { instant = dt }

unfoldable pub time_from_datetime : ℕ → Asn1Time
time_from_datetime dt = record { instant = dt }

-- `to_datetime`.
unfoldable pub to_datetime : Asn1Time → ℕ
to_datetime t = t.instant

module _ (c : TimeCrate) where
  -- `from_timestamp`.
  unfoldable pub from_timestamp : ℤ → Result X509Error Asn1Time
  from_timestamp secs = elim (c.from_unix_timestamp secs) [
    | some dt ↦ ok (record { instant = dt })
    | none ↦ err invalid_date
  ]

  -- `timestamp`.
  unfoldable pub to_timestamp : Asn1Time → ℤ
  to_timestamp t = c.unix_timestamp t.instant

  -- `ASN1Time::now`.
  unfoldable pub time_now : Asn1Time
  time_now = record { instant = c.now_utc }

  -- `to_rfc2822`.
  unfoldable pub to_rfc2822 : Asn1Time → Result Text Text
  to_rfc2822 t = c.format_rfc2822 t.instant

  -- `Display for ASN1Time`.
  unfoldable pub time_display : Asn1Time → Text
  time_display t = elim (c.format t.instant) [ ok s ↦ s | err e ↦ codes "Invalid date: " ++ e ]

  -- `Add<Duration>`: the outer `none` is the panic of the crate's `+`.
  unfoldable pub time_add : Asn1Time → ℤ → Option (Option Asn1Time)
  time_add t rhs = elim (c.datetime_add t.instant rhs) [
    | some dt ↦ some (some (record { instant = dt }))
    | none ↦ none
  ]

-- ===== src/Time.antt =====
-- src/time.rs: `ASN1Time`. The crate `time` gives instants and durations; an instant is read as
-- its number of nanoseconds since the first instant that the crate can hold, and a duration
-- between two instants as the number of nanoseconds from one to the other. The offset from
-- UTC that an `OffsetDateTime` has besides is not kept: neither the order nor the difference of
-- times depends on it, and what prints times is a parameter.
pub mod Conversions
pub mod Sum
use x509_parser.Prelude.{Bool, Option, if◌then◌else◌, leb, ltb, none, some, ℕ, ◌-◌}

pub record Asn1Time : Type 0 where
  pub instant : ℕ

-- `>=` and `<=`, derived from the instants.
unfoldable pub time_le : Asn1Time → Asn1Time → Bool
time_le a b = leb a.instant b.instant

-- `Sub<Asn1Time>`: no duration unless it is positive.
unfoldable pub time_sub : Asn1Time → Asn1Time → Option ℕ
time_sub a b = if ltb b.instant a.instant then some (a.instant - b.instant) else none

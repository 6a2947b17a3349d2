-- ===== src/Certificate/Period.antt =====
-- src/certificate.rs: the validity period.
use x509_parser.Certificate.{Validity, is_valid_at, time_to_expiration}
use x509_parser.Prelude.{arith, false, none, some, true, ℕ, ◌+◌, ◌<◌, ◌↔◌, ◌≡◌, ◌≤◌, ◌⊎◌}
use x509_parser.Time.{Asn1Time, time_le, time_sub}

-- A time to expiration is returned exactly from the start of the period up to, but not
-- including, its end, and it is the positive time that remains.
pub time_to_expiration-some :
    (v : Validity) (now : Asn1Time) (d : ℕ)
    → (time_to_expiration v now ≡ some d)
      ↔ ((v.not_before.instant ≤ now.instant) × (now.instant + d ≡ v.not_after.instant) × (0 < d))
unfolding time_to_expiration time_le time_sub
time_to_expiration-some v now d = ground arith

-- At the last instant of its period a certificate is valid, and yet there is no time to
-- expiration.
pub time_to_expiration_last :
    (v : Validity)
    → v.not_before.instant ≤ v.not_after.instant
    → (is_valid_at v v.not_after ≡ true) × (time_to_expiration v v.not_after ≡ none)
unfolding time_to_expiration time_le time_sub
time_to_expiration_last v h = ground arith

-- Outside its period a certificate is not valid, and there is no time to expiration.
pub time_to_expiration-is_valid_at :
    (v : Validity) (now : Asn1Time)
    → is_valid_at v now ≡ false
    → (time_to_expiration v now ≡ none)
      × ((now.instant < v.not_before.instant) ⊎ (v.not_after.instant < now.instant))
unfolding time_to_expiration time_le time_sub
time_to_expiration-is_valid_at v now h = ground arith

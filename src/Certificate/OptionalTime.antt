-- ===== src/Certificate/OptionalTime.antt =====
-- The parser of an optional time of src/time.rs against that of a time.
use x509_parser.Certificate.Parse.{
  absent_time, parse_choice_of_time, time_from_der, time_from_der_opt,
}
use x509_parser.Der.{Der}
use x509_parser.Error.{
  BerError, ber_incomplete, ber_type_error, ber_value_error, invalid_length, invalid_tag,
  unexpected_tag, unnamed, unsupported,
}
use x509_parser.Prelude.{Bool-cases, false, inl, inr, is_empty, refl, some, ◌↔◌, ◌≡◌, ◌≢◌}
use x509_parser.Result.{NomErr, Result-cases, Slice, error, failure, incomplete, ok}
use x509_parser.Time.{Asn1Time}

module _ (d : Der) where
  absent_time-none :
      (i rem : Slice) (e : NomErr BerError) (t : Asn1Time) → absent_time d i e ≢ ok (rem, some t)
  unfolding absent_time
  absent_time-none i rem (error invalid_tag) t = λ h. cc
  absent_time-none i rem (error (unexpected_tag a b)) t = λ h. cc
  absent_time-none i rem (error ber_type_error) t = λ h. cc
  absent_time-none i rem (error ber_value_error) t = λ h. cc
  absent_time-none i rem (error invalid_length) t = λ h. cc
  absent_time-none i rem (error unsupported) t = λ h. cc
  absent_time-none i rem (error (ber_incomplete n)) t = λ h. cc
  absent_time-none i rem (error (unnamed n)) t = λ h. cc
  absent_time-none i rem (incomplete n) t = λ h. cc
  absent_time-none i rem (failure f) t = λ h. cc

  -- The parser of an optional time returns a time exactly if there are bytes and the parser of a
  -- time returns it, and then with the same rest.
  pub time_from_der_opt-some :
      (i rem : Slice) (t : Asn1Time)
      → (time_from_der_opt d i ≡ ok (rem, some t))
        ↔ ((is_empty i.bytes ≡ false) × (time_from_der d i ≡ ok (rem, t)))
  unfolding time_from_der_opt time_from_der
  time_from_der_opt-some i rem t = elim (Bool-cases (is_empty i.bytes)) [
    | inl e ↦ rw (e) (λ h. cc, λ h. cc)
    | inr e ↦ elim (Result-cases (parse_choice_of_time d i)) [
      | inl (f, k) ↦ rw (e, k) (λ h. absurd (absent_time-none i rem f t h), λ h. cc)
      | inr ((r, dt), k) ↦ rw (e, k) (λ h. (refl, cc), λ h. cc)
    ]
  ]

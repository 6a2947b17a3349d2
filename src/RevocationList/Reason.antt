-- ===== src/RevocationList/Reason.antt =====
-- The reason code of a revoked certificate whose extensions were made by the extension parser.
use x509_parser.Asn1.{Oids, oid_eq}
use x509_parser.Certificate.{find_extension}
use x509_parser.Der.{Der}
use x509_parser.Extensions.{ParsedExtension, X509Extension, parse_error}
use x509_parser.Extensions.Dispatch.{
  extension_parser_entries, extension_parsers, parse_extension, parse_reason_code,
}
use x509_parser.Extensions.Separate.Deep.{Registered}
use x509_parser.OidMap.Entries.{inserted_from-entry}
use x509_parser.Prelude.{
  All, Bool, Bool-cases, List, Option, Option-cases, [], arith, eq_of_list_eq, find, inl, inr, none,
  refl, some, subst, ◌∷◌, ◌≡◌, ◌≤◌,
}
use x509_parser.Result.{Result-cases, Slice, ok, ok_inj}
use x509_parser.RevocationList.{RevokedCertificate, flagged, get_reason_code, reason_of}
use x509_parser.RevocationList.Number.{Made}
use x509_parser.X509.{ReasonCode}

-- A parsed extension whose reason code, if it is one, has a number of RFC 5280.
abbrev InRange : ParsedExtension → Type 0
InRange ext = (code : ReasonCode) → reason_of ext ≡ some code → code.value ≤ 10

flagged-reason_of :
    (ext : X509Extension) (critical : Bool) (code : ReasonCode)
    → flagged reason_of (some ext) ≡ some (critical, code)
    → reason_of ext.parsed_extension ≡ some code
flagged-reason_of ext critical code h = ground arith

module _ (d : Der) (oids : Oids) where
  parse_reason_code-InRange :
      (i rem : Slice) (ext : ParsedExtension) → parse_reason_code d i ≡ ok (rem, ext) → InRange ext
  unfolding parse_reason_code
  parse_reason_code-InRange i rem ext h code k = elim (Result-cases (d.parse_der_enum i)) [
    | inl (e, p) ↦ ground arith
    | inr ((rest, obj), p) ↦ elim (Result-cases (d.obj_u32 obj)) [
      | inl (e, q) ↦ ground arith
      | inr (n, q) ↦ ground arith
    ]
  ]

  reason-InRange :
      (orig_i i : Slice) (ext : ParsedExtension)
      → Registered d oids
      → parse_extension d oids orig_i i oids.reason_code ≡ ok (orig_i, ext)
      → InRange ext
  unfolding parse_extension extension_parsers extension_parser_entries
  reason-InRange orig_i i ext reg h code k =
      let found =
        inserted_from-entry 18 [] (extension_parser_entries d oids) oids.reason_code
          (parse_reason_code d) refl reg in
      elim (Result-cases (parse_reason_code d i)) [
        | inl (e, p) ↦
            made_as (parse_error e) (rw (found, p, parse_extension) refl) h (λ c m. cc) code k
        | inr ((rem, value), p) ↦
            made_as value (rw (found, p, parse_extension) refl) h
              (parse_reason_code-InRange i rem value p) code k
      ]
    where
      made_as :
          (value : ParsedExtension)
          → parse_extension d oids orig_i i oids.reason_code ≡ ok (orig_i, value)
          → parse_extension d oids orig_i i oids.reason_code ≡ ok (orig_i, ext)
          → InRange value
          → InRange ext
      made_as value m n r =
          subst (λ (x : Slice × ParsedExtension). InRange x.1)
            (ok_inj _ (orig_i, value) (orig_i, ext) m n) r

  found-Made :
      (exts : List X509Extension) (ext : X509Extension)
      → All (Made d oids) exts
      → find_extension exts oids.reason_code ≡ some ext
      → (Made d oids ext) × (ext.oid ≡ oids.reason_code)
  unfolding find_extension find
  found-Made [] ext made h = cc
  found-Made (x ∷ exts) ext (m, made) h = elim (Bool-cases (oid_eq x.oid oids.reason_code)) [
    | inl t ↦
        let same : some x ≡ some ext = rw (t, find_extension, find) at h in
        let e : x ≡ ext = cc in
        subst (λ y. Made d oids y × (y.oid ≡ oids.reason_code)) e
          (m, eq_of_list_eq x.oid oids.reason_code t)
    | inr f ↦ found-Made exts ext made (rw (f, find_extension, find) at h)
  ]

  -- If the extension parser made all extensions of a revoked certificate, and the identifiers in
  -- the table of parsers differ, a reason code that `reason_code` returns is at most 10.
  pub get_reason_code-InRange :
      (revoked : RevokedCertificate) (critical : Bool) (code : ReasonCode)
      → Registered d oids
      → All (Made d oids) revoked.extensions
      → get_reason_code oids revoked ≡ some (critical, code)
      → code.value ≤ 10
  unfolding get_reason_code
  get_reason_code-InRange revoked critical code reg made h =
      elim (Option-cases (find_extension revoked.extensions oids.reason_code)) [
        | inl n ↦
            let none_found : ◌≡◌ {A = Option (Bool × ReasonCode)} none (some (critical, code)) =
              rw (n, get_reason_code) at h in
            cc
        | inr (ext, s) ↦
            let ((orig_i, i, m), e) = found-Made revoked.extensions ext made s in
            let of_ext : flagged reason_of (some ext) ≡ some (critical, code) =
              rw (s, get_reason_code) at h in
            reason-InRange orig_i i ext.parsed_extension reg
              (subst
                (λ oid. parse_extension d oids orig_i i oid ≡ ok (orig_i, ext.parsed_extension)) e
                m)
              code (flagged-reason_of ext critical code of_ext)
      ]

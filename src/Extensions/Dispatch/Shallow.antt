-- ===== src/Extensions/Dispatch/Shallow.antt =====
-- A parsed extension without its parsed content: what deep parsing leaves alone.
use x509_parser.Asn1.{Oid, Oids}
use x509_parser.Der.{Der}
use x509_parser.Extensions.{ParsedExtension, X509Extension, parse_error, unsupported_extension}
use x509_parser.Extensions.Dispatch.{
  der_read_critical, extension_content, extension_parsers, parse_extension,
}
use x509_parser.OidMap.{map_get}
use x509_parser.Prelude.{Bool, Bytes, Option-cases, false, inl, inr, refl, true, ◌≡◌}
use x509_parser.Result.{Result-cases, Slice, map_ok, ok}

-- The identifier, the critical mark and the raw value.
abbrev pub envelope : Slice × X509Extension → Oid × Bool × Bytes
envelope (rem, ext) = (ext.oid, ext.critical, ext.value)

module _ (d : Der) (oids : Oids) where
  -- The parser of an extension's content never fails.
  parse_extension-ok :
      (orig_i i : Slice) (oid : Oid)
      → (ext : ParsedExtension) × (parse_extension d oids orig_i i oid ≡ ok (orig_i, ext))
  unfolding parse_extension
  parse_extension-ok orig_i i oid = elim (Option-cases (map_get oid (extension_parsers d oids))) [
    | inl n ↦ (unsupported_extension oid, rw (n, parse_extension) refl)
    | inr (parser, s) ↦ elim (Result-cases (parser i)) [
      | inl (e, h) ↦ (parse_error e, rw (s, h, parse_extension) refl)
      | inr ((rem, ext), h) ↦ (ext, rw (s, h, parse_extension) refl)
    ]
  ]

  -- On every input, deep parsing of an extension's content succeeds or fails exactly as parsing
  -- without it, with the same error, and gives the same identifier, critical mark and value.
  pub extension_content-envelope :
      (i : Slice)
      → map_ok envelope (extension_content d oids true i)
        ≡ map_ok envelope (extension_content d oids false i)
  unfolding extension_content
  extension_content-envelope i = elim (Result-cases (d.oid_from_der i)) [
    | inl (e, h) ↦ rw (h, extension_content) refl
    | inr ((i1, oid), h) ↦ elim (Result-cases (der_read_critical d oids i1)) [
      | inl (e, h1) ↦ rw (h, h1, extension_content) refl
      | inr ((i2, critical), h1) ↦ elim (Result-cases (d.octets_from_der i2)) [
        | inl (e, h2) ↦ rw (h, h1, h2, extension_content) refl
        | inr ((i3, value), h2) ↦
            let (ext, p) = parse_extension-ok i3 value oid in
            rw (h, h1, h2, p, extension_content) refl
      ]
    ]
  ]

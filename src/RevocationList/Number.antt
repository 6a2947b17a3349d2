-- ===== src/RevocationList/Number.antt =====
-- The CRL number of a list whose extensions were made by the extension parser.
use x509_parser.Asn1.{Oids, oid_eq}
use x509_parser.Certificate.{find_extension}
use x509_parser.Der.{Der}
use x509_parser.Error.{BerError}
use x509_parser.Extensions.{
  BasicConstraints, ParsedExtension, X509Extension, basic_constraints, parse_error,
}
use x509_parser.Extensions.Contents.{parse_basicconstraints}
use x509_parser.Extensions.Dispatch.{extension_parsers, mapped, parse_extension}
use x509_parser.OidMap.{map_get}
use x509_parser.Prelude.{
  All, Bool-cases, List, [], eq_of_list_eq, find, inl, inr, none, refl, some, subst, sym, ◌∷◌, ◌≡◌,
}
use x509_parser.Result.{IResult, Parser, Result-cases, Slice, map_ok, ok}
use x509_parser.RevocationList.{CertificateRevocationList, get_crl_number, number_of}

-- The documented behaviour of nom's `map` for the content of extensions.
abbrev pub MapsValues : Der → Type 1
MapsValues d =
    (A : Type 0) (p : Parser BerError A) (f : A → ParsedExtension) (i : Slice)
    → d.nom_map BerError A ParsedExtension p f i ≡ map_ok (λ (rem, a). (rem, f a)) (p i)

module _ (d : Der) (oids : Oids) where
  -- The table holds the parser of the basic constraints under their identifier, as it does where
  -- the constants of the registry differ.
  abbrev pub HasConstraints : Type 0
  HasConstraints =
      map_get oids.basic_constraints (extension_parsers d oids)
      ≡ some (mapped d (parse_basicconstraints d) basic_constraints)

  -- The extension parser made the content of an extension.
  abbrev pub Made : X509Extension → Type 0
  Made ext =
      (orig_i : Slice) × (i : Slice) × (parse_extension d oids orig_i i ext.oid
        ≡ ok (orig_i, ext.parsed_extension))

  same_content :
      (r : IResult BerError ParsedExtension) (s : Slice) (a b : ParsedExtension)
      → r ≡ ok (s, a)
      → r ≡ ok (s, b)
      → number_of a ≡ none
      → number_of b ≡ none
  same_content r s a b h k n = let e : a ≡ b = cc in rw (sym e) n

  constraints_content :
      (orig_i i : Slice) (ext : ParsedExtension)
      → MapsValues d
      → HasConstraints
      → parse_extension d oids orig_i i oids.basic_constraints ≡ ok (orig_i, ext)
      → number_of ext ≡ none
  unfolding parse_extension
  constraints_content orig_i i ext maps has h =
      let m = maps BasicConstraints (parse_basicconstraints d) basic_constraints i in
      elim (Result-cases (parse_basicconstraints d i)) [
        | inl (e, k) ↦
            same_content _ orig_i (parse_error e) ext (rw (has, m, k, parse_extension) refl) h refl
        | inr ((rem, bc), k) ↦
            same_content _ orig_i (basic_constraints bc) ext (rw (has, m, k, parse_extension) refl)
              h refl
      ]

  number_found :
      (exts : List X509Extension)
      → MapsValues d
      → HasConstraints
      → All Made exts
      → (elim (find_extension exts oids.basic_constraints) [
        | some ext ↦ number_of ext.parsed_extension
        | none ↦ none
      ])
        ≡ none
  unfolding find_extension find
  number_found [] maps has made = refl
  number_found (ext ∷ exts) maps has made =
      elim (Bool-cases (oid_eq ext.oid oids.basic_constraints)) [
        | inl t ↦
            let (orig_i, i, h) = made.0 in
            let q = eq_of_list_eq ext.oid oids.basic_constraints t in
            rw (t, find)
              (constraints_content orig_i i ext.parsed_extension maps has (
                subst (λ z. parse_extension d oids orig_i i z ≡ ok (orig_i, ext.parsed_extension)) q
                  h))
        | inr f ↦ rw (f, find) (number_found exts maps has made.1)
      ]

  -- If the extension parser made all extensions of a revocation list, `crl_number` returns
  -- nothing, whether or not the list has a CRL number: nom's `map` applies its function to the
  -- value, and the table of parsers has that of the basic constraints under their identifier.
  pub get_crl_number-none :
      (crl : CertificateRevocationList)
      → MapsValues d
      → HasConstraints
      → All Made crl.tbs_cert_list.extensions
      → get_crl_number oids crl ≡ none
  unfolding get_crl_number
  get_crl_number-none crl maps has made = number_found crl.tbs_cert_list.extensions maps has made

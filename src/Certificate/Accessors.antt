-- ===== src/Certificate/Accessors.antt =====
-- src/certificate.rs: the accessors of the parsed extensions, from the list of extensions.
use x509_parser.Asn1.{Oids}
use x509_parser.Certificate.{
  BasicExtension, Kind, TbsCertificate, as_basic_constraints, ca_of, get_basic_constraints, is_ca,
  optional_value, required_value,
}
use x509_parser.Certificate.Unique.{get_extension_unique-only_one, only_one, with_oid}
use x509_parser.Error.{X509Error}
use x509_parser.Extensions.{BasicConstraints, ParsedExtension, X509Extension, basic_constraints}
use x509_parser.Prelude.{
  List, Option, Option-cases, [], ap, inl, inr, none, refl, some, true, ◌↔◌, ◌∙◌, ◌∷◌, ◌≡◌,
}
use x509_parser.PublicKey.{parsed}
use x509_parser.Result.{Result, err, ok, ◌>>=◌}

-- The list has one extension, and it holds `value` of a kind, marked critical or not.
abbrev pub Single :
    {T : Type 0} → (T → ParsedExtension) → List X509Extension → BasicExtension T → Type 0
Single make exts found =
    (ext : X509Extension) × (exts ≡ ext ∷ [])
    × (ext.parsed_extension ≡ make found.value)
    × (ext.critical ≡ found.critical)

module _ {T : Type 0} (as_kind : Kind T) (make : T → ParsedExtension)
    (as_kind-some : (p : ParsedExtension) (value : T) → as_kind p ≡ some value → p ≡ make value)
    (as_kind-make : (value : T) → as_kind (make value) ≡ some value) where
  pub required_value-Single :
      (exts : List X509Extension) (found : BasicExtension T)
      → (only_one exts >>= required_value as_kind) ≡ ok (some found)
      → Single make exts found
  unfolding required_value
  required_value-Single [] found h = cc
  required_value-Single (x ∷ y ∷ rest) found h = cc
  required_value-Single (x ∷ []) found h = elim (Option-cases (as_kind x.parsed_extension)) [
    | inl e ↦ cc (rw (e, required_value) at h)
    | inr (value, e) ↦
        let h' = rw (e, required_value) at h in
        (x, refl, as_kind-some x.parsed_extension found.value (cc (e, h')), cc h')
  ]

  pub Single-required_value :
      (exts : List X509Extension) (found : BasicExtension T)
      → Single make exts found
      → (only_one exts >>= required_value as_kind) ≡ ok (some found)
  unfolding required_value
  Single-required_value exts found (ext, one, parsed, crit) =
      rw one (rw (parsed, as_kind-make, required_value) (rw crit))

  optional_value-Single :
      (exts : List X509Extension) (found : BasicExtension T)
      → (only_one exts >>= λ o. ok (optional_value as_kind o)) ≡ ok (some found)
      → Single make exts found
  unfolding optional_value
  optional_value-Single [] found h = cc
  optional_value-Single (x ∷ y ∷ rest) found h = cc
  optional_value-Single (x ∷ []) found h = elim (Option-cases (as_kind x.parsed_extension)) [
    | inl e ↦ cc (rw (e, optional_value) at h)
    | inr (value, e) ↦
        let h' = rw (e, optional_value) at h in
        (x, refl, as_kind-some x.parsed_extension found.value (cc (e, h')), cc h')
  ]

  Single-optional_value :
      (exts : List X509Extension) (found : BasicExtension T)
      → Single make exts found
      → (only_one exts >>= λ o. ok (optional_value as_kind o)) ≡ ok (some found)
  unfolding optional_value
  Single-optional_value exts found (ext, one, parsed, crit) =
      rw one (rw (parsed, as_kind-make, optional_value) (rw crit))

as_basic_constraints-some :
    (p : ParsedExtension) (value : BasicConstraints)
    → as_basic_constraints p ≡ some value
    → p ≡ basic_constraints value
as_basic_constraints-some (basic_constraints v) value h = cc
as_basic_constraints-some _ value h = cc

get_basic_constraints-Single :
    (oids : Oids) (tbs : TbsCertificate) (found : BasicExtension BasicConstraints)
    → (get_basic_constraints oids tbs ≡ ok (some found))
      ↔ Single basic_constraints (with_oid oids.basic_constraints tbs.extensions) found
unfolding get_basic_constraints
get_basic_constraints-Single oids tbs found = rw get_extension_unique-only_one (
  optional_value-Single as_basic_constraints basic_constraints as_basic_constraints-some (λ v. refl)
      _ found,
  Single-optional_value as_basic_constraints basic_constraints as_basic_constraints-some (λ v. refl)
      _ found,
)

ca_of-true :
    (r : Result X509Error (Option (BasicExtension BasicConstraints)))
    → ca_of r ≡ true
    → (found : BasicExtension BasicConstraints) × (r ≡ ok (some found)) × (found.value.ca ≡ true)
unfolding ca_of
ca_of-true (ok (some found)) h = (found, refl, h)
ca_of-true (ok none) h = cc
ca_of-true (err e) h = cc

-- A certificate is that of an authority exactly if one extension has the identifier of the basic
-- constraints, the parser made basic constraints of it, and these say so.
pub is_ca-Single :
    (oids : Oids) (tbs : TbsCertificate)
    → (is_ca oids tbs ≡ true) ↔ (
        (found : BasicExtension BasicConstraints) × Single basic_constraints
          (with_oid oids.basic_constraints tbs.extensions)
          found
        × (found.value.ca ≡ true))
unfolding is_ca ca_of
is_ca-Single oids tbs = (
  λ h.
      let (found, e, c) = ca_of-true (get_basic_constraints oids tbs) h in
      (found, (get_basic_constraints-Single oids tbs found).0 e, c),
  λ (found, s, c). ap ca_of ((get_basic_constraints-Single oids tbs found).1 s) ∙ c,
)

-- ===== src/Certificate/Unique.antt =====
-- src/certificate.rs: the search for an extension by its identifier.
use x509_parser.Asn1.{Oid, oid_eq}
use x509_parser.Certificate.{extensions_map, find_extension, get_extension_unique, unique_loop}
use x509_parser.Error.{X509Error, duplicate_extensions}
use x509_parser.Extensions.{X509Extension}
use x509_parser.OidMap.{map_get}
use x509_parser.OidMap.Distinct.{distinct-err, distinct-ok}
use x509_parser.Prelude.{
  Bool, Bool-cases, List, Option, [], ap, arith, filter, find, inl, inr, none, refl, some, sym, ◌∙◌,
  ◌∷◌, ◌≡◌,
}
use x509_parser.Result.{Result, err, ok}

-- The extensions with an identifier, in order.
abbrev pub with_oid : Oid → List X509Extension → List X509Extension
with_oid oid = filter (λ ext. oid_eq ext.oid oid)

-- None, the one there is, or the error for two or more.
abbrev pub only_one : List X509Extension → Result X509Error (Option X509Extension)
only_one [] = ok none
only_one (ext ∷ []) = ok (some ext)
only_one (ext ∷ second ∷ rest) = err duplicate_extensions

unique_loop-some :
    (oid : Oid) (found : X509Extension) (exts : List X509Extension)
    → unique_loop oid (some found) exts ≡ only_one (found ∷ with_oid oid exts)
unfolding unique_loop filter
unique_loop-some oid found [] = refl
unique_loop-some oid found (ext ∷ exts) = ground (arith, unique_loop-some oid found exts)

unique_loop-none :
    (oid : Oid) (exts : List X509Extension)
    → unique_loop oid none exts ≡ only_one (with_oid oid exts)
unfolding unique_loop filter
unique_loop-none oid [] = refl
unique_loop-none oid (ext ∷ exts) =
    ground (arith, unique_loop-none oid exts, unique_loop-some oid ext exts)

-- The search returns nothing, the extension, or `DuplicateExtensions`, as no, one or several
-- extensions of the list have the identifier.
pub get_extension_unique-only_one :
    (exts : List X509Extension) (oid : Oid)
    → get_extension_unique exts oid ≡ only_one (with_oid oid exts)
unfolding get_extension_unique
get_extension_unique-only_one exts oid = unique_loop-none oid exts

find-only_one :
    (p : X509Extension → Bool) (exts : List X509Extension) {found : Option X509Extension}
    → only_one (filter p exts) ≡ ok found
    → find p exts ≡ found
unfolding filter find
find-only_one p [] h = cc
find-only_one p (ext ∷ exts) {found} h = elim (Bool-cases (p ext)) [
  | inl e ↦ rw (e, find) (only_first (filter p exts) (rw (e, filter) at h))
  | inr n ↦ rw (n, find) (find-only_one p exts (rw (n, filter) at h))
]
  where
    only_first : (rest : List X509Extension) → only_one (ext ∷ rest) ≡ ok found → some ext ≡ found
    only_first [] q = cc
    only_first (x ∷ rest) q = cc

-- Where the unique search succeeds, the unchecked search finds the same extension.
pub find_extension-eq_unique :
    (exts : List X509Extension) (oid : Oid) {found : Option X509Extension}
    → get_extension_unique exts oid ≡ ok found
    → find_extension exts oid ≡ found
unfolding find_extension
find_extension-eq_unique exts oid h =
    find-only_one (λ ext. oid_eq ext.oid oid) exts
      (sym (get_extension_unique-only_one exts oid) ∙ h)

only_one_option :
    (o : Option X509Extension) → only_one (elim o [ none ↦ [] | some a ↦ a ∷ [] ]) ≡ ok o
only_one_option none = refl
only_one_option (some a) = refl

-- If the map is built, then for every identifier it holds what the unique search finds.
pub extensions_map_ok :
    (exts : List X509Extension) {m : List (Oid × X509Extension)} (oid : Oid)
    → extensions_map exts ≡ ok m
    → get_extension_unique exts oid ≡ ok (map_get oid m)
unfolding extensions_map
extensions_map_ok exts {m} oid h =
    get_extension_unique-only_one exts oid
    ∙ ap only_one (distinct-ok (λ ext. ext.oid) duplicate_extensions exts m oid h)
    ∙ only_one_option (map_get oid m)

-- If the map cannot be built, the error is `DuplicateExtensions`, and there is an identifier
-- for which the unique search fails with it too.
pub extensions_map_err :
    (exts : List X509Extension) {e : X509Error}
    → extensions_map exts ≡ err e
    → (e ≡ duplicate_extensions)
      × (oid : Oid) × (get_extension_unique exts oid ≡ err duplicate_extensions)
unfolding extensions_map
extensions_map_err exts h =
    let (same, k, first, second, rest, twice) =
      distinct-err (λ ext. ext.oid) duplicate_extensions exts h in
    (same, k, get_extension_unique-only_one exts k ∙ ap only_one twice)

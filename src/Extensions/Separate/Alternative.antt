-- ===== src/Extensions/Separate/Alternative.antt =====
-- The alternative names of src/extensions/mod.rs, parsed on their own and by the parser of
-- extensions. The two go over the same combinators with different types of errors, so that the
-- errors that the combinators make themselves are not conversions of each other.
use x509_parser.Asn1.{Header}
use x509_parser.Der.{Der}
use x509_parser.Error.{BerError, X509Error, der}
use x509_parser.Extensions.{issuer_alternative_name, subject_alternative_name}
use x509_parser.Extensions.Contents.{parse_generalnames}
use x509_parser.Extensions.Dispatch.{
  parse_issueralternativename_ext, parse_subjectalternativename_ext,
}
use x509_parser.Extensions.Names.{parse_generalname}
use x509_parser.Extensions.Separate.{
  general_name_from_der, general_names_from_der, issuer_alternative_name_from_der,
  subject_alternative_name_from_der,
}
use x509_parser.Prelude.{inl, inr, refl, ◌≡◌}
use x509_parser.Result.{
  IResult, NomErr, Parser, Result-cases, Slice, err, error, failure, incomplete, ok, ◌>>=◌,
}

-- Two failures of one kind.
abbrev pub Alike : {E F : Type 0} → NomErr E → NomErr F → Type 0
Alike (incomplete n) (incomplete m) = n ≡ m
Alike (error e) (error f) = Unit
Alike (failure e) (failure f) = Unit
Alike _ _ = ⊥

-- The second result is the first one, with its value wrapped, up to what the error says.
abbrev pub AlikeBy : {E F A B : Type 0} → (A → B) → IResult E A → IResult F B → Type 0
AlikeBy {E} {F} wrap (ok (rem, a)) s = s ≡ ok (rem, wrap a)
AlikeBy {E} {F} wrap (err e) s = (f : NomErr F) × Alike e f × (s ≡ err f)

-- The documented behaviour of the combinators, which are generic in the type of errors: what they
-- do does not depend on what an error says. `Err::convert` converts what an error says.
pub record ErrorBlind (d : Der) : Type 1 where
  pub sequence_alike :
      (A B : Type 0) (wrap : A → B) (f : Slice → Header → IResult X509Error A)
      (g : Slice → Header → IResult BerError B)
      → ((i : Slice) (hdr : Header) → AlikeBy wrap (f i hdr) (g i hdr))
      → (i : Slice) → AlikeBy wrap (d.sequence_g X509Error A f i) (d.sequence_g BerError B g i)
  pub complete_alike :
      (A : Type 0) (p : Parser X509Error A) (q : Parser BerError A)
      → ((i : Slice) → AlikeBy (λ a. a) (p i) (q i))
      → (i : Slice) → AlikeBy (λ a. a) (d.complete X509Error A p i) (d.complete BerError A q i)
  pub cut_alike :
      (A : Type 0) (p : Parser X509Error A) (q : Parser BerError A)
      → ((i : Slice) → AlikeBy (λ a. a) (p i) (q i))
      → (i : Slice) → AlikeBy (λ a. a) (d.cut X509Error A p i) (d.cut BerError A q i)
  pub many0_alike :
      (A : Type 0) (p : Parser X509Error A) (q : Parser BerError A)
      → ((i : Slice) → AlikeBy (λ a. a) (p i) (q i))
      → (i : Slice) → AlikeBy (λ a. a) (d.many0 X509Error A p i) (d.many0 BerError A q i)
  pub all_consuming_alike :
      (A : Type 0) (p : Parser X509Error A) (q : Parser BerError A)
      → ((i : Slice) → AlikeBy (λ a. a) (p i) (q i))
      → (i : Slice)
      → AlikeBy (λ a. a) (d.all_consuming X509Error A p i) (d.all_consuming BerError A q i)
  pub convert_alike : (e : NomErr BerError) → Alike (d.err_convert BerError X509Error der e) e

named-AlikeBy :
    {A B C : Type 0} (make : A → B) (wrap : B → C) (r : IResult X509Error A)
    (s : IResult BerError A)
    → AlikeBy (λ a. a) r s
    → AlikeBy wrap
        (r >>= λ (i, names). ok (i, make names))
        (s >>= λ (i, names). ok (i, wrap (make names)))
named-AlikeBy make wrap (ok (rem, a)) s e = rw e refl
named-AlikeBy make wrap (err e) s (f, k, h) = (f, k, rw h refl)

module _ (d : Der) (laws : ErrorBlind d) where
  name-AlikeBy : (i : Slice) → AlikeBy (λ a. a) (general_name_from_der d i) (parse_generalname d i)
  unfolding general_name_from_der
  name-AlikeBy i = elim (Result-cases (parse_generalname d i)) [
    | inl (e, k) ↦ rw (k) (e, laws.convert_alike e, refl)
    | inr ((rem, name), k) ↦ rw (k) refl
  ]

  names-AlikeBy :
      (i : Slice) → AlikeBy (λ a. a) (general_names_from_der d i) (parse_generalnames d i)
  unfolding general_names_from_der parse_generalnames
  names-AlikeBy =
      laws.all_consuming_alike _ _ _
        (laws.many0_alike _ _ _ (laws.complete_alike _ _ _ (laws.cut_alike _ _ _ name-AlikeBy)))

  pub subject-AlikeBy :
      (i : Slice)
      → AlikeBy subject_alternative_name
          (subject_alternative_name_from_der d i)
          (parse_subjectalternativename_ext d i)
  unfolding subject_alternative_name_from_der parse_subjectalternativename_ext
  subject-AlikeBy =
      laws.sequence_alike _ _ subject_alternative_name _ _
        (λ i hdr. named-AlikeBy _ subject_alternative_name _ _ (names-AlikeBy i))

  pub issuer-AlikeBy :
      (i : Slice)
      → AlikeBy issuer_alternative_name
          (issuer_alternative_name_from_der d i)
          (parse_issueralternativename_ext d i)
  unfolding issuer_alternative_name_from_der parse_issueralternativename_ext
  issuer-AlikeBy =
      laws.sequence_alike _ _ issuer_alternative_name _ _
        (λ i hdr. named-AlikeBy _ issuer_alternative_name _ _ (names-AlikeBy i))

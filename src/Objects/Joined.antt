-- ===== src/Objects/Joined.antt =====
-- The text of a relative distinguished name and of a name: their parts, joined.
use x509_parser.Asn1.{Oids}
use x509_parser.Error.{X509Error}
use x509_parser.Objects.{
  Naming, attribute_text, attribute_value_to_string, joined_from, name_loop, rdn_loop,
  x509name_to_string,
}
use x509_parser.Prelude.{
  All, List, List-cases, Text, [], ap, append-nil, append_assoc, append_nonempty, codes, false, inl,
  inr, is_empty, refl, subst, sym, ◌++◌, ◌∙◌, ◌∷◌, ◌≡◌, ◌≢◌, ◌⊎◌,
}
use x509_parser.Result.{
  Holds, Holds->>=, Holds-err, Holds-ok, Result, Result-cases, err, map_ok, ok, ◌>>=◌,
}
use x509_parser.X509.{AttributeTypeAndValue, RelativeDistinguishedName}

-- The texts of all items, or the first error.
abbrev pub texts_of :
    {A : Type 0} → (A → Result X509Error Text) → List A → Result X509Error (List Text)
texts_of text [] = ok []
texts_of text (x ∷ xs) = do t ← text x; ts ← texts_of text xs; ok (t ∷ ts)

-- Texts with a separator before each, and with one between each two.
abbrev pub sep_before : Text → List Text → Text
sep_before sep [] = []
sep_before sep (t ∷ ts) = sep ++ t ++ sep_before sep ts

abbrev pub sep_between : Text → List Text → Text
sep_between sep [] = []
sep_between sep (t ∷ ts) = t ++ sep_before sep ts

nonempty_append : (s t : Text) → is_empty s ≡ false → is_empty (s ++ t) ≡ false
nonempty_append [] t h = cc
nonempty_append (x ∷ s) t h = refl

-- A text that is not empty, where there is one.
abbrev HasText : Result X509Error Text → Type 0
HasText = Holds (λ t. is_empty t ≡ false)

module _ {A : Type 0} (text : A → Result X509Error Text) (sep : Text) where
  regroup :
      (acc t : Text) (r : Result X509Error (List Text))
      → map_ok (λ ts. acc ++ sep ++ t ++ sep_before sep ts) r
        ≡ map_ok (λ ts. acc ++ sep_before sep ts) (r >>= λ ts. ok (t ∷ ts))
  regroup acc t (ok ts) = ap ok (
      append_assoc (acc ++ sep) t (sep_before sep ts)
      ∙ append_assoc acc sep (t ++ sep_before sep ts)
      ∙ ap (λ s. acc ++ s) (sym (append_assoc sep t (sep_before sep ts))))
  regroup acc t (err e) = refl

  first_text :
      (t : Text) (r : Result X509Error (List Text))
      → map_ok (λ ts. t ++ sep_before sep ts) r ≡ map_ok (sep_between sep) (r >>= λ ts. ok (t ∷ ts))
  first_text t (ok ts) = refl
  first_text t (err e) = refl

  joined_from-sep_before :
      (acc : Text) (xs : List A)
      → is_empty acc ≡ false
      → joined_from text sep acc xs ≡ map_ok (λ ts. acc ++ sep_before sep ts) (texts_of text xs)
  unfolding joined_from
  joined_from-sep_before acc [] h = ap ok (sym (append-nil acc))
  joined_from-sep_before acc (x ∷ xs) h = elim (Result-cases (text x)) [
    | inl (e, k) ↦ rw (k) refl
    | inr (t, k) ↦
        let longer = nonempty_append (acc ++ sep) t (nonempty_append acc sep h) in
        rw (k, h)
          (joined_from-sep_before (acc ++ sep ++ t) xs longer ∙ regroup acc t (texts_of text xs))
  ]

  -- Where no text is empty, the fold puts the separator between each two.
  joined_from-sep_between :
      (xs : List A)
      → All (λ x. HasText (text x)) xs
      → joined_from text sep [] xs ≡ map_ok (sep_between sep) (texts_of text xs)
  unfolding joined_from
  joined_from-sep_between [] h = refl
  joined_from-sep_between (x ∷ xs) (h, hs) = elim (Result-cases (text x)) [
    | inl (e, k) ↦ rw (k) refl
    | inr (t, k) ↦ rw (k) (joined_from-sep_before t xs (h t k) ∙ first_text t (texts_of text xs))
  ]

  -- And the text of some items is not empty.
  joined_from-HasText :
      (x : A) (xs : List A)
      → All (λ y. HasText (text y)) (x ∷ xs)
      → HasText (joined_from text sep [] (x ∷ xs))
  joined_from-HasText x xs h =
      subst HasText (sym (joined_from-sep_between (x ∷ xs) h))
        (between (Result-cases (text x)) (Result-cases (texts_of text xs)))
    where
      between :
          (((e : X509Error) × text x ≡ err e) ⊎ ((t : Text) × text x ≡ ok t))
          → (((e : X509Error) × texts_of text xs ≡ err e)
              ⊎ ((ts : List Text) × texts_of text xs ≡ ok ts))
          → HasText (map_ok (sep_between sep) (texts_of text (x ∷ xs)))
      between (inl (e, k)) _ = rw (k) (Holds-err _ e)
      between (inr (t, k)) (inl (e, m)) = rw (k, m) (Holds-err _ e)
      between (inr (t, k)) (inr (ts, m)) =
          rw (k, m) (Holds-ok _ _ (nonempty_append t (sep_before sep ts) (h.0 t k)))

module _ (oids : Oids) (naming : Naming) where
  attribute_text-HasText :
      (attr : AttributeTypeAndValue) → HasText (attribute_text oids naming attr)
  unfolding attribute_text
  attribute_text-HasText attr =
      Holds->>= (λ t. is_empty t ≡ false) (λ _. Unit {0})
        (attribute_value_to_string oids naming attr.attr_value) _ (λ _ _. tt)
        (λ v _. Holds-ok (λ t. is_empty t ≡ false) _ (append_nonempty _ b'=' v))

  attributes-HasText :
      (attrs : List AttributeTypeAndValue) → All (λ a. HasText (attribute_text oids naming a)) attrs
  attributes-HasText [] = tt
  attributes-HasText (attr ∷ attrs) = (attribute_text-HasText attr, attributes-HasText attrs)

  -- The text of a relative distinguished name, by those of its attributes.
  abbrev pub rdn_text : RelativeDistinguishedName → Result X509Error Text
  rdn_text rdn = map_ok (sep_between (codes " + ")) (texts_of (attribute_text oids naming) rdn.set)

  -- The text of a relative distinguished name is that of its attributes, in order, with a plus
  -- sign between each two, and the error of the first attribute that has no text.
  pub rdn_loop-sep_between :
      (rdn : RelativeDistinguishedName) → rdn_loop oids naming [] rdn.set ≡ rdn_text rdn
  unfolding rdn_loop
  rdn_loop-sep_between rdn =
      joined_from-sep_between (attribute_text oids naming) (codes " + ") rdn.set
        (attributes-HasText rdn.set)

  rdn_loop-HasText :
      (rdn : RelativeDistinguishedName) → rdn.set ≢ [] → HasText (rdn_loop oids naming [] rdn.set)
  unfolding rdn_loop
  rdn_loop-HasText rdn h = elim (List-cases rdn.set) [
    | inl e ↦ absurd (h e)
    | inr (a, more, e) ↦ rw (e) (
        joined_from-HasText (attribute_text oids naming) (codes " + ") a more
          (attributes-HasText (a ∷ more)))
  ]

  rdns-HasText :
      (rdns : List RelativeDistinguishedName)
      → All (λ rdn. rdn.set ≢ []) rdns
      → All (λ rdn. HasText (rdn_loop oids naming [] rdn.set)) rdns
  rdns-HasText [] h = tt
  rdns-HasText (rdn ∷ rdns) (h, hs) = (rdn_loop-HasText rdn h, rdns-HasText rdns hs)

  same_texts :
      (rdns : List RelativeDistinguishedName)
      → texts_of (λ rdn. rdn_loop oids naming [] rdn.set) rdns ≡ texts_of rdn_text rdns
  same_texts [] = refl
  same_texts (rdn ∷ rdns) = rw (rdn_loop-sep_between rdn, same_texts rdns) refl

  -- The text of a name whose relative names all have an attribute is that of its relative names,
  -- in order, with a comma between each two, and the error of the first attribute that has no text.
  pub x509name_to_string-sep_between :
      (rdns : List RelativeDistinguishedName)
      → All (λ rdn. rdn.set ≢ []) rdns
      → x509name_to_string oids naming rdns
        ≡ map_ok (sep_between (codes ", ")) (texts_of rdn_text rdns)
  unfolding x509name_to_string name_loop
  x509name_to_string-sep_between rdns h =
      joined_from-sep_between (λ rdn. rdn_loop oids naming [] rdn.set) (codes ", ") rdns
        (rdns-HasText rdns h)
      ∙ ap (map_ok (sep_between (codes ", "))) (same_texts rdns)

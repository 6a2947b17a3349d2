-- ===== src/Request/Requested.antt =====
-- src/certification_request.rs: the extensions that a request asks for, where the parser of
-- src/cri_attributes.rs made its attributes.
use x509_parser.Asn1.{Oid, Oids, oid_eq}
use x509_parser.Der.{Der}
use x509_parser.Error.{X509Error}
use x509_parser.Extensions.{ParsedExtension, X509Extension}
use x509_parser.Extensions.Dispatch.{parse_extension_sequence}
use x509_parser.OidMap.{inserted_from, map_get}
use x509_parser.OidMap.Laws.{map_get-map_insert}
use x509_parser.Prelude.{
  All, Bool-cases, List, [], eq_of_list_eq, false, find, if◌then◌else◌, inl, inr, list_eq_refl, map,
  none, refl, some, subst, true, ◌↔◌, ◌∷◌, ◌≡◌, ◌≢◌, ◌⊎◌,
}
use x509_parser.Request.{
  ChallengePassword, ExtensionRequest, ParsedCriAttribute, X509CertificationRequest,
  X509CriAttribute, attribute_parsers, challenge, find_attribute, first_request, parse_attribute,
  parse_challenge_password, parse_challenge_password_attr, parse_extension_request,
  parse_extension_request_attr, requested, requested_extensions, unsupported_attribute,
}
use x509_parser.Result.{Parser, Result-cases, Slice, map_ok, ok}

-- The documented behaviour of nom's `map` for the values of attributes.
abbrev pub MapsAttributes : Der → Type 1
MapsAttributes d =
    (A : Type 0) (p : Parser X509Error A) (f : A → ParsedCriAttribute) (i : Slice)
    → d.nom_map X509Error A ParsedCriAttribute p f i ≡ map_ok (λ (rem, a). (rem, f a)) (p i)

parsed_attribute-cases :
    (p : ParsedCriAttribute)
    → ((request : ExtensionRequest) × (p ≡ requested request))
      ⊎ (((c : ChallengePassword) × (p ≡ challenge c)) ⊎ (p ≡ unsupported_attribute))
parsed_attribute-cases (requested request) = inl (request, refl)
parsed_attribute-cases (challenge c) = inr (inl (c, refl))
parsed_attribute-cases unsupported_attribute = inr (inr refl)

first_request-skip :
    (attr : X509CriAttribute) (attrs : List X509CriAttribute)
    → ((request : ExtensionRequest) → attr.parsed_attribute ≢ requested request)
    → first_request (attr ∷ attrs) ≡ first_request attrs
unfolding first_request
first_request-skip attr attrs h = elim (parsed_attribute-cases attr.parsed_attribute) [
  | inl (request, e) ↦ absurd (h request e)
  | inr (inl (c, e)) ↦ rw (e, first_request) refl
  | inr (inr e) ↦ rw (e, first_request) refl
]

first_request-requested :
    (attr : X509CriAttribute) (attrs : List X509CriAttribute) (request : ExtensionRequest)
    → attr.parsed_attribute ≡ requested request
    → first_request (attr ∷ attrs) ≡ some (map (λ ext. ext.parsed_extension) request.extensions)
unfolding first_request
first_request-requested attr attrs request h = rw (h, first_request) refl

oid_eq_flip : (a b : Oid) → oid_eq a b ≡ false → oid_eq b a ≡ false
oid_eq_flip a b h = elim (Bool-cases (oid_eq b a)) [
  | inr f ↦ f
  | inl t ↦ let e = eq_of_list_eq b a t in absurd (cc (list_eq_refl a, rw (e) at h))
]

module _ (d : Der) (oids : Oids) where
  -- The parser made the value of an attribute for its identifier.
  abbrev pub AttributeMade : X509CriAttribute → Type 0
  AttributeMade attr =
      (i rem : Slice) × (parse_attribute d oids i attr.oid ≡ ok (rem, attr.parsed_attribute))

  -- The attribute holds a list of extensions that the parser of extensions returned.
  abbrev pub HoldsExtensions : X509CriAttribute → List X509Extension → Type 0
  HoldsExtensions attr exts =
      (attr.parsed_attribute ≡ requested (record { extensions = exts }))
      × (i rem : Slice) × (parse_extension_sequence d oids true i ≡ ok (rem, exts))

  attribute_parser :
      (oid : Oid)
      → map_get oid (attribute_parsers d oids) ≡ (
          if oid_eq oids.challenge_password oid
          then some (parse_challenge_password_attr d oids)
          else if oid_eq oids.extension_request oid
          then some (parse_extension_request_attr d oids)
          else none)
  unfolding attribute_parsers inserted_from map_get
  attribute_parser oid =
      rw
        (
          map_get-map_insert oids.challenge_password oid,
          map_get-map_insert oids.extension_request oid,
        )
        refl

  module _ (maps : MapsAttributes d)
      (differ : oid_eq oids.challenge_password oids.extension_request ≡ false) where
    request_made :
        (i rem : Slice) (p : ParsedCriAttribute)
        → parse_attribute d oids i oids.extension_request ≡ ok (rem, p)
        → (exts : List X509Extension) × (p ≡ requested (record { extensions = exts }))
          × (parse_extension_sequence d oids true i ≡ ok (rem, exts))
    unfolding parse_attribute parse_extension_request
    request_made i rem p h =
        let table : map_get oids.extension_request (attribute_parsers d oids)
            ≡ some (parse_extension_request_attr d oids) =
          rw (attribute_parser oids.extension_request, differ, oid_eq, list_eq_refl) refl in
        let m = maps ExtensionRequest (parse_extension_request d oids) requested i in
        elim (Result-cases (parse_extension_sequence d oids true i)) [
          | inl (e, k) ↦ cc (rw (table, m, k, parse_attribute, parse_extension_request) at h)
          | inr ((r, exts), k) ↦
              let h' = rw (table, m, k, parse_attribute, parse_extension_request) at h in
              (exts, cc h', cc (k, h'))
        ]

    other_made :
        (attr : X509CriAttribute) (request : ExtensionRequest)
        → AttributeMade attr
        → oid_eq attr.oid oids.extension_request ≡ false
        → attr.parsed_attribute ≢ requested request
    unfolding parse_attribute
    other_made attr request (i, rem, h) other =
        let apart : oid_eq oids.extension_request attr.oid ≡ false =
          oid_eq_flip attr.oid oids.extension_request other in
        let m = maps ChallengePassword (parse_challenge_password d oids) challenge i in
        let table = attribute_parser attr.oid in
        elim (Bool-cases (oid_eq oids.challenge_password attr.oid)) [
          | inr f ↦ λ e. cc (e, rw (table, f, apart, parse_attribute) at h)
          | inl t ↦ elim (Result-cases (parse_challenge_password d oids i)) [
            | inl (_, k) ↦ λ e. cc (rw (table, t, m, k, parse_attribute) at h)
            | inr ((r, c), k) ↦ λ e. cc (e, rw (table, t, m, k, parse_attribute) at h)
          ]
        ]

    -- What the search for the identifier finds, and what `requested_extensions` makes of it.
    abbrev Search : List X509CriAttribute → Type 0
    Search attrs =
        ((find_attribute attrs oids.extension_request ≡ none) × (first_request attrs ≡ none))
        ⊎ ((attr : X509CriAttribute) × (exts : List X509Extension) × (find_attribute attrs
                oids.extension_request
              ≡ some attr)
            × HoldsExtensions attr exts
            × (first_request attrs ≡ some (map (λ ext. ext.parsed_extension) exts)))

    attributes-Search : (attrs : List X509CriAttribute) → All AttributeMade attrs → Search attrs
    unfolding find_attribute find first_request
    attributes-Search [] made = inl (refl, refl)
    attributes-Search (attr ∷ attrs) ((i, rem, h), made) =
        elim (Bool-cases (oid_eq attr.oid oids.extension_request)) [
          | inl t ↦
              let same = eq_of_list_eq attr.oid oids.extension_request t in
              let (exts, e, k) = request_made i rem attr.parsed_attribute (
                subst (λ z. parse_attribute d oids i z ≡ ok (rem, attr.parsed_attribute)) same h) in
              inr (
                attr,
                exts,
                rw (t, find) refl,
                (e, i, rem, k),
                first_request-requested attr attrs _ e,
              )
          | inr f ↦
              let skip_first =
                first_request-skip attr attrs (λ request. other_made attr request (i, rem, h) f) in
              rw (skip_first, f, find) (attributes-Search attrs made)
        ]

    -- The extensions that a request asks for, where the parser made its attributes: they are returned
    -- exactly if the search for the identifier of extension requests finds an attribute, and then
    -- as the contents, in order, of the list that the parser of extensions made for it. Nothing is
    -- returned exactly if the search finds nothing. The identifier differs from that of the
    -- challenge password, and nom's `map` applies its function to the value.
    pub requested_extensions-find_attribute :
        (csr : X509CertificationRequest) (contents : List ParsedExtension)
        → All AttributeMade csr.certification_request_info.attributes
        → ((requested_extensions csr ≡ some contents) ↔ (
            (attr : X509CriAttribute) × (exts : List X509Extension) × (find_attribute
                csr.certification_request_info.attributes oids.extension_request
              ≡ some attr)
            × HoldsExtensions attr exts
            × (contents ≡ map (λ ext. ext.parsed_extension) exts)))
          × ((requested_extensions csr ≡ none) ↔ (
              find_attribute csr.certification_request_info.attributes oids.extension_request
              ≡ none))
    unfolding requested_extensions
    requested_extensions-find_attribute csr contents made =
        elim (attributes-Search csr.certification_request_info.attributes made) [
          | inl (e, k) ↦ rw (e, k) ((λ h. cc, λ (attr, exts, h, _, _). cc), (λ h. refl, λ h. refl))
          | inr (attr, exts, e, holds, k) ↦
              rw (e, k)
                (
                  (
                    λ h. (attr, exts, refl, holds, cc h),
                    λ (attr1, exts1, h, holds1, c). cc (h, holds.0, holds1.0, c),
                  ),
                  (λ h. cc, λ h. cc),
                )
        ]

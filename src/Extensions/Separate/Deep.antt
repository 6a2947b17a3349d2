-- ===== src/Extensions/Separate/Deep.antt =====
-- The content of an extension parsed on its own, against deep parsing of the extension.
use x509_parser.Asn1.{Oid, Oids}
use x509_parser.Der.{Der}
use x509_parser.Error.{BerError, X509Error, X509Result, der}
use x509_parser.Extensions.{
  InhibitAnyPolicy, ParsedExtension, authority_info_access, authority_key_identifier,
  basic_constraints, crl_distribution_points, extended_key_usage, inhibit_any_policy,
  issuer_alternative_name, key_usage, name_constraints, ns_cert_type, parse_error,
  policy_constraints, policy_mappings, subject_alternative_name, subject_key_identifier,
}
use x509_parser.Extensions.Dispatch.{
  extension_parser_entries, extension_parsers, mapped, parse_extension, parse_inhibitanypolicy_ext,
}
use x509_parser.Extensions.Separate.{
  authority_info_access_from_der, authority_key_identifier_from_der, basic_constraints_from_der,
  converted, crl_distribution_points_from_der, extended_key_usage_from_der,
  inhibit_any_policy_from_der, issuer_alternative_name_from_der, key_identifier_from_der,
  key_usage_from_der, name_constraints_from_der, ns_cert_type_from_der, policy_constraints_from_der,
  policy_mappings_from_der, subject_alternative_name_from_der,
}
use x509_parser.Extensions.Separate.Alternative.{
  Alike, AlikeBy, ErrorBlind, issuer-AlikeBy, subject-AlikeBy,
}
use x509_parser.OidMap.Entries.{NoDuplicates, inserted_from-entry, keys}
use x509_parser.Prelude.{[], get_elem?, inl, inr, refl, some, ℕ, ◌≡◌}
use x509_parser.Result.{IResult, NomErr, Parser, Result-cases, Slice, err, map_ok, ok}

-- The documented behaviour of nom's `map`.
abbrev pub IsMap : Der → Type 1
IsMap d =
    (A B : Type 0) (p : Parser BerError A) (f : A → B) (i : Slice)
    → d.nom_map BerError A B p f i ≡ map_ok (λ (rem, a). (rem, f a)) (p i)

-- What deep parsing makes of an extension, in front of `orig_i`, by what its content gives on its
-- own: the value, or the parse error that the error on its own is converted from.
abbrev pub DeepAs :
    {T : Type 0}
    → Der
    → (T → ParsedExtension)
    → Slice
    → X509Result T
    → IResult BerError ParsedExtension
    → Type 0
DeepAs d wrap orig_i (ok (rem, v)) r = r ≡ ok (orig_i, wrap v)
DeepAs d wrap orig_i (err e) r =
    (b : NomErr BerError) × (d.err_convert BerError X509Error der b ≡ e)
    × (r ≡ ok (orig_i, parse_error b))

-- The same, where the error on its own and the one of the parse error are of one kind (incomplete
-- input, an error, or a failure) but may differ in what they say.
abbrev pub DeepLike :
    {T : Type 0}
    → (T → ParsedExtension)
    → Slice
    → X509Result T
    → IResult BerError ParsedExtension
    → Type 0
DeepLike wrap orig_i (ok (rem, v)) r = r ≡ ok (orig_i, wrap v)
DeepLike wrap orig_i (err e) r =
    (b : NomErr BerError) × Alike e b × (r ≡ ok (orig_i, parse_error b))

-- What `parse_extension` makes of the content.
after_alike :
    {T : Type 0} (wrap : T → ParsedExtension) (orig_i : Slice) (r : X509Result T)
    (s : IResult BerError ParsedExtension)
    → AlikeBy wrap r s
    → DeepLike wrap orig_i r
        (elim s [ ok (_, ext) ↦ ok (orig_i, ext) | err e ↦ ok (orig_i, parse_error e) ])
after_alike wrap orig_i (ok (rem, v)) s e = rw e refl
after_alike wrap orig_i (err e) s (b, k, h) = (b, k, rw h refl)

module _ (d : Der) (oids : Oids) where
  -- The constants of the registry that the table of parsers is filled with differ.
  abbrev pub Registered : Type 0
  Registered = NoDuplicates (keys (extension_parser_entries d oids))

  -- The parser that the table has at a number.
  deep_entry :
      {T : Type 0} (n : ℕ) (oid : Oid) (q : Parser BerError ParsedExtension) (p : Parser BerError T)
      (wrap : T → ParsedExtension)
      → get_elem? (extension_parser_entries d oids) n ≡ some (oid, q)
      → ((i : Slice) → q i ≡ map_ok (λ (rem, a). (rem, wrap a)) (p i))
      → Registered
      → (orig_i i : Slice)
      → DeepAs d wrap orig_i (converted d p i) (parse_extension d oids orig_i i oid)
  unfolding parse_extension extension_parsers
  deep_entry n oid q p wrap h maps reg orig_i i =
      let found = inserted_from-entry n [] (extension_parser_entries d oids) oid q h reg in
      elim (Result-cases (p i)) [
        | inl (e, k) ↦
            let result : parse_extension d oids orig_i i oid ≡ ok (orig_i, parse_error e) =
              rw (found, maps i, k, parse_extension) refl in
            rw (k) (e, refl, result)
        | inr ((rem, v), k) ↦ rw (k) (rw (found, maps i, k, parse_extension) refl)
      ]

  mapped_entry :
      {T : Type 0} (n : ℕ) (oid : Oid) (p : Parser BerError T) (wrap : T → ParsedExtension)
      → get_elem? (extension_parser_entries d oids) n ≡ some (oid, mapped d p wrap)
      → IsMap d
      → Registered
      → (orig_i i : Slice)
      → DeepAs d wrap orig_i (converted d p i) (parse_extension d oids orig_i i oid)
  mapped_entry n oid p wrap h maps = deep_entry n oid (mapped d p wrap) p wrap h (maps _ _ p wrap)

  alike_entry :
      {T : Type 0} (n : ℕ) (oid : Oid) (q : Parser BerError ParsedExtension)
      (p : Parser X509Error T) (wrap : T → ParsedExtension)
      → get_elem? (extension_parser_entries d oids) n ≡ some (oid, q)
      → ((i : Slice) → AlikeBy wrap (p i) (q i))
      → Registered
      → (orig_i i : Slice) → DeepLike wrap orig_i (p i) (parse_extension d oids orig_i i oid)
  unfolding parse_extension extension_parsers
  alike_entry n oid q p wrap h alike reg orig_i i =
      let found = inserted_from-entry n [] (extension_parser_entries d oids) oid q h reg in
      rw (found, parse_extension) (after_alike wrap orig_i (p i) (q i) (alike i))

  inhibit_entry :
      IsMap d
      → (i : Slice)
      → parse_inhibitanypolicy_ext d i
        ≡ map_ok
            (λ (rem, a). (rem, inhibit_any_policy a))
            (d.nom_map BerError ℕ InhibitAnyPolicy d.u32_from_der
              (λ n. record { skip_certs = n })
              i)
  unfolding parse_inhibitanypolicy_ext
  inhibit_entry maps i = elim (Result-cases (d.u32_from_der i)) [
    | inl (e, k) ↦ rw (maps _ _ d.u32_from_der _ i, k, parse_inhibitanypolicy_ext) refl
    | inr ((rem, n), k) ↦ rw (maps _ _ d.u32_from_der _ i, k, parse_inhibitanypolicy_ext) refl
  ]

  -- For the fourteen kinds of extension whose type has a `FromDer`, deep parsing of the extension is
  -- parsing of its content by that `FromDer`: the value is the same, or where there is none it is
  -- a parse error. For twelve kinds the error on its own is the conversion of that error; for the
  -- two alternative names the errors are of one kind (incomplete input, an error or a failure). It
  -- is assumed that nom's `map` applies its function, that what the combinators do does not depend
  -- on what an error says, and that the identifiers in the table differ.
  pub parse_extension-from_der :
      IsMap d
      → ErrorBlind d
      → Registered
      → (orig_i i : Slice)
      → DeepAs d subject_key_identifier orig_i
          (key_identifier_from_der d i)
          (parse_extension d oids orig_i i oids.subject_key_identifier)
        × DeepAs d key_usage orig_i
            (key_usage_from_der d i)
            (parse_extension d oids orig_i i oids.key_usage)
        × DeepAs d basic_constraints orig_i
            (basic_constraints_from_der d i)
            (parse_extension d oids orig_i i oids.basic_constraints)
        × DeepAs d name_constraints orig_i
            (name_constraints_from_der d i)
            (parse_extension d oids orig_i i oids.name_constraints)
        × DeepAs d policy_mappings orig_i
            (policy_mappings_from_der d i)
            (parse_extension d oids orig_i i oids.policy_mappings)
        × DeepAs d policy_constraints orig_i
            (policy_constraints_from_der d i)
            (parse_extension d oids orig_i i oids.policy_constraints)
        × DeepAs d extended_key_usage orig_i
            (extended_key_usage_from_der d i)
            (parse_extension d oids orig_i i oids.extended_key_usage)
        × DeepAs d crl_distribution_points orig_i
            (crl_distribution_points_from_der d i)
            (parse_extension d oids orig_i i oids.crl_distribution_points)
        × DeepAs d inhibit_any_policy orig_i
            (inhibit_any_policy_from_der d i)
            (parse_extension d oids orig_i i oids.inhibit_any_policy)
        × DeepAs d authority_info_access orig_i
            (authority_info_access_from_der d i)
            (parse_extension d oids orig_i i oids.authority_info_access)
        × DeepAs d authority_key_identifier orig_i
            (authority_key_identifier_from_der d i)
            (parse_extension d oids orig_i i oids.authority_key_identifier)
        × DeepAs d ns_cert_type orig_i
            (ns_cert_type_from_der d i)
            (parse_extension d oids orig_i i oids.cert_type)
        × DeepLike subject_alternative_name orig_i
            (subject_alternative_name_from_der d i)
            (parse_extension d oids orig_i i oids.subject_alt_name)
        × DeepLike issuer_alternative_name orig_i
            (issuer_alternative_name_from_der d i)
            (parse_extension d oids orig_i i oids.issuer_alt_name)
  unfolding extension_parser_entries key_identifier_from_der key_usage_from_der
      basic_constraints_from_der name_constraints_from_der policy_mappings_from_der
      policy_constraints_from_der extended_key_usage_from_der crl_distribution_points_from_der
      inhibit_any_policy_from_der authority_info_access_from_der authority_key_identifier_from_der
      ns_cert_type_from_der
  parse_extension-from_der maps blind reg orig_i i = (
    mapped_entry 0 _ _ _ refl maps reg orig_i i,
    mapped_entry 1 _ _ _ refl maps reg orig_i i,
    mapped_entry 4 _ _ _ refl maps reg orig_i i,
    mapped_entry 5 _ _ _ refl maps reg orig_i i,
    mapped_entry 7 _ _ _ refl maps reg orig_i i,
    mapped_entry 8 _ _ _ refl maps reg orig_i i,
    mapped_entry 9 _ _ _ refl maps reg orig_i i,
    mapped_entry 10 _ _ _ refl maps reg orig_i i,
    deep_entry 11 _ _ _ inhibit_any_policy refl (inhibit_entry maps) reg orig_i i,
    mapped_entry 12 _ _ _ refl maps reg orig_i i,
    mapped_entry 13 _ _ _ refl maps reg orig_i i,
    mapped_entry 15 _ _ _ refl maps reg orig_i i,
    alike_entry 2 _ _ _ _ refl (subject-AlikeBy d blind) reg orig_i i,
    alike_entry 3 _ _ _ _ refl (issuer-AlikeBy d blind) reg orig_i i,
  )

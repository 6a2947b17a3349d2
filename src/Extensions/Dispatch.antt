-- ===== src/Extensions/Dispatch.antt =====
-- src/extensions/mod.rs: the extension parser, the table of the parsers of known extensions and
-- the parsers of lists of extensions.
pub mod Shallow
use x509_parser.Asn1.{Oid, Oids}
use x509_parser.Der.{Der}
use x509_parser.Error.{BerError, X509Error, ber_value_error, invalid_extensions, to_nom}
use x509_parser.Extensions.{
  ParsedExtension, X509Extension, authority_info_access, authority_key_identifier,
  basic_constraints, certificate_policies, crl_distribution_points, crl_number, extended_key_usage,
  inhibit_any_policy, invalidity_date, issuer_alternative_name, key_usage, name_constraints,
  ns_cert_comment, ns_cert_type, parse_error, policy_constraints, policy_mappings, reason_code, sct,
  subject_alternative_name, subject_key_identifier, unparsed, unsupported_extension,
}
use x509_parser.Extensions.Contents.{
  parse_authorityinfoaccess, parse_authoritykeyidentifier, parse_basicconstraints,
  parse_crldistributionpoints, parse_generalnames, parse_keyidentifier, parse_keyusage,
  parse_nscerttype, parse_policyconstraints,
}
use x509_parser.Extensions.Names.{parse_nameconstraints}
use x509_parser.Extensions.Policies.{parse_certificatepolicies, parse_policymappings}
use x509_parser.Extensions.Sct.{parse_sct_list}
use x509_parser.Extensions.Usage.{parse_extendedkeyusage}
use x509_parser.OidMap.{inserted_from, map_get}
use x509_parser.Prelude.{
  Bool, List, [], false, if◌then◌else◌, is_empty, ltb, none, not, some, ℕ, ◌%◌, ◌==◌, ◌^◌, ◌∷◌,
}
use x509_parser.PublicKey.{parsed}
use x509_parser.Result.{IResult, Parser, Slice, err, error, map_err, ok, whole, ◌>>=◌}
use x509_parser.Utf8.{from_utf8}

module _ (d : Der) where
  -- `parse_subjectalternativename_ext`.
  unfoldable pub parse_subjectalternativename_ext : Parser BerError ParsedExtension
  parse_subjectalternativename_ext = d.sequence_g BerError ParsedExtension λ input _. do
    (i, names) ← parse_generalnames d input
    ok (i, subject_alternative_name (record { general_names = names }))

  -- `parse_issueralternativename_ext`.
  unfoldable pub parse_issueralternativename_ext : Parser BerError ParsedExtension
  parse_issueralternativename_ext = d.sequence_g BerError ParsedExtension λ input _. do
    (i, names) ← parse_generalnames d input
    ok (i, issuer_alternative_name (record { general_names = names }))

  unfoldable pub parse_inhibitanypolicy_ext : Parser BerError ParsedExtension
  parse_inhibitanypolicy_ext i = do
    (ret, skip_certs) ← d.u32_from_der i
    ok (ret, inhibit_any_policy (record { skip_certs = skip_certs }))

  unfoldable pub parse_nscomment_ext : Parser BerError ParsedExtension
  parse_nscomment_ext i = elim (d.parse_der_ia5string i) [
    | ok (i1, obj) ↦ map_err error (d.obj_str obj) >>= λ s. ok (i1, ns_cert_comment s)
    | err e ↦ elim (from_utf8 i.bytes) [ some s ↦ ok (whole [], ns_cert_comment s) | none ↦ err e ]
  ]

  unfoldable pub parse_reason_code : Parser BerError ParsedExtension
  parse_reason_code i = do
    (rest, obj) ← d.parse_der_enum i
    code ← map_err (λ _. error ber_value_error) (d.obj_u32 obj)
    if ltb 10 code
        then err (error ber_value_error)
        else ok (rest, reason_code (record { value = code % 2 ^ 8 }))

  unfoldable pub parse_invalidity_date : Parser BerError ParsedExtension
  parse_invalidity_date i = do
    (rest, t) ← d.generalized_time_from_der i
    dt ← map_err error (d.utc_datetime t)
    ok (rest, invalidity_date dt)

  unfoldable pub parse_crl_number : Parser BerError ParsedExtension
  parse_crl_number i = do
    (rest, num) ← d.map_res d.Obj ℕ d.parse_der_integer d.obj_biguint i
    ok (rest, crl_number num)

  -- `map(parser, ParsedExtension::..)`.
  abbrev pub mapped :
      {A : Type 0} → Parser BerError A → (A → ParsedExtension) → Parser BerError ParsedExtension
  mapped {A} p f = d.nom_map BerError A ParsedExtension p f

  -- The parsers of the table that only name the kind of what another parser returns.
  abbrev pub parse_keyidentifier_ext : Parser BerError ParsedExtension
  parse_keyidentifier_ext = mapped (parse_keyidentifier d) subject_key_identifier

  abbrev pub parse_keyusage_ext : Parser BerError ParsedExtension
  parse_keyusage_ext = mapped (parse_keyusage d) key_usage

  abbrev pub parse_basicconstraints_ext : Parser BerError ParsedExtension
  parse_basicconstraints_ext = mapped (parse_basicconstraints d) basic_constraints

  abbrev pub parse_nameconstraints_ext : Parser BerError ParsedExtension
  parse_nameconstraints_ext = mapped (parse_nameconstraints d) name_constraints

  abbrev pub parse_certificatepolicies_ext : Parser BerError ParsedExtension
  parse_certificatepolicies_ext = mapped (parse_certificatepolicies d) certificate_policies

  abbrev pub parse_policymappings_ext : Parser BerError ParsedExtension
  parse_policymappings_ext = mapped (parse_policymappings d) policy_mappings

  abbrev pub parse_policyconstraints_ext : Parser BerError ParsedExtension
  parse_policyconstraints_ext = mapped (parse_policyconstraints d) policy_constraints

  abbrev pub parse_extendedkeyusage_ext : Parser BerError ParsedExtension
  parse_extendedkeyusage_ext = mapped (parse_extendedkeyusage d) extended_key_usage

  abbrev pub parse_crldistributionpoints_ext : Parser BerError ParsedExtension
  parse_crldistributionpoints_ext = mapped (parse_crldistributionpoints d) crl_distribution_points

  abbrev pub parse_authorityinfoaccess_ext : Parser BerError ParsedExtension
  parse_authorityinfoaccess_ext = mapped (parse_authorityinfoaccess d) authority_info_access

  abbrev pub parse_authoritykeyidentifier_ext : Parser BerError ParsedExtension
  parse_authoritykeyidentifier_ext =
      mapped (parse_authoritykeyidentifier d) authority_key_identifier

  abbrev pub parse_sct_ext : Parser BerError ParsedExtension
  parse_sct_ext = mapped (parse_sct_list d) sct

  abbrev pub parse_nscerttype_ext : Parser BerError ParsedExtension
  parse_nscerttype_ext = mapped (parse_nscerttype d) ns_cert_type

  module _ (oids : Oids) where
    -- The entries that `EXTENSION_PARSERS` inserts, in order.
    unfoldable pub extension_parser_entries : List (Oid × Parser BerError ParsedExtension)
    extension_parser_entries =
        (oids.subject_key_identifier, parse_keyidentifier_ext)
        ∷ (oids.key_usage, parse_keyusage_ext)
        ∷ (oids.subject_alt_name, parse_subjectalternativename_ext)
        ∷ (oids.issuer_alt_name, parse_issueralternativename_ext)
        ∷ (oids.basic_constraints, parse_basicconstraints_ext)
        ∷ (oids.name_constraints, parse_nameconstraints_ext)
        ∷ (oids.certificate_policies, parse_certificatepolicies_ext)
        ∷ (oids.policy_mappings, parse_policymappings_ext)
        ∷ (oids.policy_constraints, parse_policyconstraints_ext)
        ∷ (oids.extended_key_usage, parse_extendedkeyusage_ext)
        ∷ (oids.crl_distribution_points, parse_crldistributionpoints_ext)
        ∷ (oids.inhibit_any_policy, parse_inhibitanypolicy_ext)
        ∷ (oids.authority_info_access, parse_authorityinfoaccess_ext)
        ∷ (oids.authority_key_identifier, parse_authoritykeyidentifier_ext)
        ∷ (oids.ct_list_sct, parse_sct_ext)
        ∷ (oids.cert_type, parse_nscerttype_ext)
        ∷ (oids.cert_comment, parse_nscomment_ext)
        ∷ (oids.crl_number, parse_crl_number)
        ∷ (oids.reason_code, parse_reason_code)
        ∷ (oids.invalidity_date, parse_invalidity_date)
        ∷ []

    -- `EXTENSION_PARSERS`.
    unfoldable pub extension_parsers : List (Oid × Parser BerError ParsedExtension)
    extension_parsers = inserted_from [] extension_parser_entries

    -- `parse_extension0`, which `parse_extension` calls: what follows the extension is `orig_i`.
    unfoldable pub parse_extension : Slice → Slice → Oid → IResult BerError ParsedExtension
    parse_extension orig_i i oid = elim (map_get oid extension_parsers) [
      | some parser ↦ elim (parser i) [
        | ok (_, ext) ↦ ok (orig_i, ext)
        | err e ↦ ok (orig_i, parse_error e)
      ]
      | none ↦ ok (orig_i, unsupported_extension oid)
    ]

    -- `der_read_critical`.
    unfoldable pub der_read_critical : Parser BerError Bool
    der_read_critical i = do
      (rem, obj) ← d.opt BerError d.Obj d.parse_ber_bool i
      ok (
        rem,
        elim obj [ none ↦ false | some o ↦ elim (d.obj_bool o) [ ok b ↦ b | err _ ↦ false ] ],
      )

    -- The body of the sequence that `X509ExtensionParser::parse` reads.
    unfoldable pub extension_content : Bool → Slice → IResult BerError X509Extension
    extension_content deep i = do
      (i1, oid) ← d.oid_from_der i
      (i2, critical) ← der_read_critical i1
      (i3, value) ← d.octets_from_der i2
      (i4, parsed) ← (if deep then parse_extension i3 value oid else ok (whole [], unparsed))
      ok (
        i4,
        record { oid = oid; critical = critical; value = value.bytes; parsed_extension = parsed },
      )

    -- `X509ExtensionParser::parse`, with the flag `deep_parse_extensions`.
    unfoldable pub extension_parse : Bool → Parser X509Error X509Extension
    extension_parse deep input =
        map_err (λ _. error invalid_extensions)
          (d.sequence_g BerError X509Extension (λ i _. extension_content deep i) input)

    -- `parse_extension_sequence`, and `parse_extension_envelope_sequence` where `deep` is false.
    unfoldable pub parse_extension_sequence : Bool → Parser X509Error (List X509Extension)
    parse_extension_sequence deep = d.sequence_g X509Error (List X509Extension) λ a _.
        d.all_consuming X509Error (List X509Extension)
          (d.many0 X509Error X509Extension
            (d.complete X509Error X509Extension (extension_parse deep)))
          a

    -- `parse_extensions`, and `parse_extensions_envelope` where `deep` is false.
    unfoldable pub parse_extensions : Bool → ℕ → Parser X509Error (List X509Extension)
    parse_extensions deep explicit_tag i =
        if is_empty i.bytes then ok (i, []) else elim (d.header_from_der i) [
          | ok (rem, hdr) ↦
              if not (hdr.tag == explicit_tag)
              then err (error invalid_extensions)
              else d.all_consuming X509Error (List X509Extension) (parse_extension_sequence deep)
                  rem
          | err _ ↦ err (to_nom invalid_extensions)
        ]

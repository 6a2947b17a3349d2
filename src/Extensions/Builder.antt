-- ===== src/Extensions/Builder.antt =====
-- src/extensions/mod.rs: an extension by its parts, the parser object with its option, and the parsers
-- of lists of extensions whose contents are left.
use x509_parser.Asn1.{Oid, Oids}
use x509_parser.Der.{Der}
use x509_parser.Error.{X509Error, invalid_extensions, to_nom}
use x509_parser.Extensions.{
  AccessDescription, AuthorityInfoAccess, CrlDistributionPoint, CrlDistributionPoints, GeneralName,
  ParsedExtension, PolicyMapping, X509Extension,
}
use x509_parser.Extensions.Dispatch.{extension_parse, parse_extension_sequence, parse_extensions}
use x509_parser.Prelude.{
  Bool, Bytes, List, [], false, if◌then◌else◌, is_empty, not, refl, true, ℕ, ◌==◌, ◌≡◌,
}
use x509_parser.Result.{Parser, Slice, err, error, ok}

-- `X509Extension::new`.
unfoldable pub extension_new : Oid → Bool → Bytes → ParsedExtension → X509Extension
extension_new oid critical value content = record {
  oid = oid;
  critical = critical;
  value = value;
  parsed_extension = content;
}

-- `X509Extension::parsed_extension`.
unfoldable pub extension_parsed : X509Extension → ParsedExtension
extension_parsed ext = ext.parsed_extension

-- `AccessDescription::new`.
unfoldable pub access_description_new : Oid → GeneralName → AccessDescription
access_description_new access_method access_location = record {
  access_method = access_method;
  access_location = access_location;
}

-- `AuthorityInfoAccess::iter`.
unfoldable pub access_iter : AuthorityInfoAccess → List AccessDescription
access_iter aia = aia.accessdescs

-- `Deref for CRLDistributionPoints`.
unfoldable pub points_deref : CrlDistributionPoints → List CrlDistributionPoint
points_deref cdp = cdp.points

-- `PolicyMapping::new`.
unfoldable pub policy_mapping_new : Oid → Oid → PolicyMapping
policy_mapping_new issuer subject = record {
  issuer_domain_policy = issuer;
  subject_domain_policy = subject;
}

pub record X509ExtensionParser : Type 0 where
  pub deep_parse_extensions : Bool

unfoldable pub extension_parser : X509ExtensionParser
extension_parser = record { deep_parse_extensions = true }

unfoldable pub extension_parser_with : X509ExtensionParser → Bool → X509ExtensionParser
extension_parser_with self deep = record { deep_parse_extensions = deep }

module _ (d : Der) (oids : Oids) where
  -- `X509Extension::from_der`.
  unfoldable pub extension_from_der : Parser X509Error X509Extension
  unfolding extension_parser
  extension_from_der = extension_parse d oids extension_parser.deep_parse_extensions

  unfoldable pub parse_extension_envelope_sequence : Parser X509Error (List X509Extension)
  unfolding extension_parser extension_parser_with
  parse_extension_envelope_sequence =
      let parser = extension_parser_with extension_parser false in
      d.sequence_g X509Error (List X509Extension) λ a _.
        d.all_consuming X509Error (List X509Extension)
          (d.many0 X509Error X509Extension (
            d.complete X509Error X509Extension
              (extension_parse d oids parser.deep_parse_extensions)))
          a

  unfoldable pub parse_extensions_envelope : ℕ → Parser X509Error (List X509Extension)
  parse_extensions_envelope explicit_tag i =
      if is_empty i.bytes then ok (i, []) else elim (d.header_from_der i) [
        | ok (rem, hdr) ↦
            if not (hdr.tag == explicit_tag)
            then err (error invalid_extensions)
            else d.all_consuming X509Error (List X509Extension) parse_extension_envelope_sequence
                rem
        | err _ ↦ err (to_nom invalid_extensions)
      ]

  -- They are the parsers of Dispatch with their flag cleared.
  envelope_sequence_shallow :
      (i : Slice) → parse_extension_envelope_sequence i ≡ parse_extension_sequence d oids false i
  unfolding parse_extension_envelope_sequence parse_extension_sequence
  envelope_sequence_shallow i = refl

  extensions_envelope_shallow :
      (tag : ℕ) (i : Slice) → parse_extensions_envelope tag i ≡ parse_extensions d oids false tag i
  unfolding parse_extensions_envelope parse_extensions parse_extension_envelope_sequence
      parse_extension_sequence
  extensions_envelope_shallow tag i = refl

-- ===== src/Programs/Extensions.antt =====
-- examples/print-cert.rs: the printing of an extension.
use x509_parser.Asn1.{Oid}
use x509_parser.Console.{Script, each, println, put, when_some, ◌>>◌}
use x509_parser.Extensions.{
  AuthorityKeyIdentifier, CrlDistributionPoint, GeneralName, ParsedExtension, X509Extension,
  authority_key_identifier, basic_constraints, crl_distribution_points, directory_name, dns_name,
  edi_party_name, ip_address, key_usage, ns_cert_type, other_name, registered_id, rfc822_name,
  subject_alternative_name, subject_key_identifier, uri, x400_address,
}
use x509_parser.Extensions.Display.{general_name_display}
use x509_parser.Extensions.Flags.{key_usage_display, ns_cert_type_display, reason_flags_display}
use x509_parser.Extensions.Separate.{key_identifier_lower_hex}
use x509_parser.Format.{bool_text, bytes_debug, decimal, ipv4_text}
use x509_parser.Objects.{name_display}
use x509_parser.Prelude.{Bytes, List, Text, [], codes, if◌then◌else◌, length, ◌++◌, ◌==◌}
use x509_parser.Programs.{Host, format_oid}
use x509_parser.Utils.{format_serial}

module _ (h : Host) where
  unfoldable pub generalname_to_string : GeneralName → Text
  generalname_to_string (dns_name name) = codes "DNSName:" ++ name
  generalname_to_string (directory_name n) = codes "DirName:" ++ name_display h.oids h.naming n
  generalname_to_string (edi_party_name obj) = codes "EDIPartyName:" ++ h.any_debug obj
  generalname_to_string (ip_address n) = codes "IPAddress:" ++ bytes_debug n
  generalname_to_string (other_name oid n) =
      codes "OtherName:" ++ h.shows.oid oid ++ codes ", " ++ bytes_debug n
  generalname_to_string (rfc822_name n) = codes "RFC822Name:" ++ n
  generalname_to_string (registered_id oid) = codes "RegisteredID:" ++ h.shows.oid oid
  generalname_to_string (uri n) = codes "URI:" ++ n
  generalname_to_string (x400_address obj) = codes "X400Address:" ++ h.any_debug obj

  -- The arm of an `AuthorityKeyIdentifier`.
  unfoldable pub print_authority : AuthorityKeyIdentifier → Script
  print_authority aki = do
    println (codes "      X509v3 Authority Key Identifier")
    when_some aki.key_identifier
        λ key_id. println (codes "        Key Identifier: " ++ key_identifier_lower_hex key_id)
    when_some aki.authority_cert_issuer λ issuer.
        each
          (λ name. println (
            codes "        Cert Issuer: " ++ general_name_display h.oids h.naming h.shows.oid name))
          issuer
    when_some aki.authority_cert_serial
        λ serial. println (codes "        Cert Serial: " ++ format_serial serial)

  -- The names of a `crl_issuer`.
  unfoldable pub print_crl_issuer : List GeneralName → Script
  print_crl_issuer crl_issuer = do
    put (codes "        CRL Issuer: ")
    each (λ gn. put (generalname_to_string gn ++ codes " ")) crl_issuer
    println []

  -- The body of the loop over the points of `CRLDistributionPoints`.
  unfoldable pub print_distribution_point : CrlDistributionPoint → Script
  print_distribution_point point = do
    when_some point.distribution_point
        λ name. println (codes "        Full Name: " ++ h.point_name_debug name)
    when_some point.reasons
        λ reasons. println (codes "        Reasons: " ++ reason_flags_display reasons)
    when_some point.crl_issuer print_crl_issuer
    println []

  -- `match b.len()` on an address.
  unfoldable pub address_text : Bytes → Text
  address_text b =
      if length b == 4
      then ipv4_text b
      else if length b == 16
      then h.ipv6_text b
      else codes "invalid (len=" ++ decimal (length b) ++ codes ")"

  -- The text of one name of a `SubjectAlternativeName`.
  unfoldable pub alternative_name_text : GeneralName → Text
  alternative_name_text (dns_name s) = codes "DNS:" ++ s
  alternative_name_text (ip_address b) = codes "IP Address:" ++ address_text b
  alternative_name_text name = h.general_name_debug name

  -- The `match` on the parsed extension.
  unfoldable pub print_parsed_extension : ParsedExtension → Script
  print_parsed_extension (authority_key_identifier aki) = print_authority aki
  print_parsed_extension (basic_constraints bc) =
      println (codes "      X509v3 CA: " ++ bool_text bc.ca)
  print_parsed_extension (crl_distribution_points cdp) = do
    println (codes "      X509v3 CRL Distribution Points:")
    each print_distribution_point cdp.points
  print_parsed_extension (key_usage ku) =
      println (codes "      X509v3 Key Usage: " ++ key_usage_display ku)
  print_parsed_extension (ns_cert_type ty) =
      println (codes "      Netscape Cert Type: " ++ ns_cert_type_display ty)
  print_parsed_extension (subject_alternative_name san) =
      each (λ name. println (codes "      X509v3 SAN: " ++ alternative_name_text name))
        san.general_names
  print_parsed_extension (subject_key_identifier id) =
      println (codes "      X509v3 Subject Key Identifier: " ++ key_identifier_lower_hex id)
  print_parsed_extension x = println (codes "      " ++ h.parsed_debug x)

  unfoldable pub print_x509_extension : Oid → X509Extension → Script
  print_x509_extension oid ext = do
    println (
        codes "    [crit:"
        ++ bool_text ext.critical
        ++ codes " l:"
        ++ decimal (length ext.value)
        ++ codes "] "
        ++ format_oid h oid
        ++ codes ": ")
    print_parsed_extension ext.parsed_extension

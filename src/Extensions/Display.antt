-- ===== src/Extensions/Display.antt =====
-- src/extensions/generalname.rs: the printing of a `GeneralName`.
use x509_parser.Asn1.{Oid, Oids}
use x509_parser.Extensions.{
  GeneralName, directory_name, dns_name, edi_party_name, ip_address, other_name, registered_id,
  rfc822_name, uri, x400_address,
}
use x509_parser.Objects.{Naming, name_display}
use x509_parser.Prelude.{Text, codes, ◌++◌}
use x509_parser.Utils.{format_serial}

-- The words around the printed content.
abbrev tagged : Text → Text → Text
tagged kind content = kind ++ codes "(" ++ content ++ codes ")"

-- `Display for GeneralName`, over the printing of an identifier.
unfoldable pub general_name_display : Oids → Naming → (Oid → Text) → GeneralName → Text
general_name_display oids naming show (other_name oid value) =
    tagged (codes "OtherName") (show oid ++ codes ", [...]")
general_name_display oids naming show (rfc822_name s) = tagged (codes "RFC822Name") s
general_name_display oids naming show (dns_name s) = tagged (codes "DNSName") s
general_name_display oids naming show (x400_address value) =
    tagged (codes "X400Address") (codes "<unparsed>")
general_name_display oids naming show (directory_name dn) =
    tagged (codes "DirectoryName") (name_display oids naming dn)
general_name_display oids naming show (edi_party_name value) =
    tagged (codes "EDIPartyName") (codes "<unparsed>")
general_name_display oids naming show (uri s) = tagged (codes "URI") s
general_name_display oids naming show (ip_address b) = tagged (codes "IPAddress") (format_serial b)
general_name_display oids naming show (registered_id oid) = tagged (codes "RegisteredID") (show oid)

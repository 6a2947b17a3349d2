-- ===== src/Programs.antt =====
-- The programs of examples/, and what both of them do. A program is what it writes and how it
-- ends; its arguments are the names of the files.
pub mod Rows
pub mod Algorithms
pub mod Keys
pub mod PrintCert
pub mod PrintCrl
pub mod Panics
pub mod Extensions
use x509_parser.Asn1.{Any, Oid, Oids}
use x509_parser.Console.{Script, nothing, println, put, ◌>>◌}
use x509_parser.Der.{Der}
use x509_parser.Error.{BerError, X509Error}
use x509_parser.Extensions.{DistributionPointName, GeneralName, ParsedExtension}
use x509_parser.Objects.{Naming, oid2sn}
use x509_parser.Prelude.{
  Bool, Bytes, Option, Text, codes, if◌then◌else◌, length, ltb, none, some, take, ℕ,
}
use x509_parser.Result.{NomErr}
use x509_parser.Time.{Asn1Time}
use x509_parser.Validate.Structure.{Shows}
use x509_parser.Verify.{Ring}
use x509_parser.X509.{ReasonCode, X509Version}

-- What the programs take from other crates and from the system: the parameters of the library,
-- the printing of what other crates define or derive, the clock, which is read at one instant, and
-- the files.
pub record Host : Type 1 where
  pub der : Der
  pub oids : Oids
  pub naming : Naming
  pub ring : Ring
  pub shows : Shows
  -- `==` on `Any`
  pub any_eq : Any → Any → Bool
  -- The derived `{:?}`
  pub any_debug : Any → Text
  pub general_name_debug : GeneralName → Text
  pub point_name_debug : DistributionPointName → Text
  pub parsed_debug : ParsedExtension → Text
  -- `{}` and `{:?}` of a `Tag`
  pub tag_text : ℕ → Text
  pub tag_debug : ℕ → Text
  pub time_text : Asn1Time → Text
  -- `{}` of the types that `newtype_enum!` prints
  pub version_text : X509Version → Text
  pub reason_text : ReasonCode → Text
  -- nom's `HexDisplay::to_hex(16)`
  pub to_hex : Bytes → Text
  pub ipv6_text : Bytes → Text
  pub ber_error_text : BerError → Text
  pub kind_debug : ℕ → Text
  pub io_error_text : Text
  -- `{}` of nom's `Err`, which debug-prints the error
  pub nom_error_text : NomErr X509Error → Text
  -- `der_parser::parse_der`: how many bytes it leaves, and `{:?}` of the object
  pub parse_der : Bytes → Option (ℕ × Text)
  pub base64_decode : Text → Option Bytes
  pub now : Asn1Time
  -- `std::fs::read`
  pub read : Text → Option Bytes

module _ (h : Host) where
  -- `&bytes[..m]` for the minimum `m` of both lengths is what `take` gives.
  unfoldable pub print_hex_dump : Bytes → ℕ → Script
  print_hex_dump bytes max_len = do
    put (h.to_hex (take max_len bytes))
    if ltb max_len (length bytes) then println (codes "... <continued>") else nothing

  unfoldable pub format_oid : Oid → Text
  unfolding oid2sn
  format_oid oid = elim (oid2sn h.oids h.naming oid) [ some s ↦ s | none ↦ h.shows.oid oid ]

-- ===== src/Programs/Keys.antt =====
-- examples/print-cert.rs: the printing of a public key.
use x509_parser.Console.{Script, abort, each, eprintln, println, ◌>>◌}
use x509_parser.Error.{X509Error}
use x509_parser.Format.{decimal, lower_hex}
use x509_parser.Prelude.{Bytes, Option, Text, codes, length, none, some, ℕ, ◌*◌, ◌++◌}
use x509_parser.Programs.{Host, print_hex_dump}
use x509_parser.Programs.Algorithms.{print_x509_digest_algorithm}
use x509_parser.Programs.Rows.{format_number_to_hex_with_colon}
use x509_parser.PublicKey.{
  PublicKey, RsaPublicKey, dsa, ec, ec_key_size, gost_r3410, gost_r3410_2012, parsed, rsa,
  rsa_key_size, try_exponent, unknown,
}
use x509_parser.Result.{Result, err, ok}
use x509_parser.X509.{SubjectPublicKeyInfo}

module _ (h : Host) where
  -- The loop over the rows of a number.
  unfoldable pub print_rows : Text → Bytes → Script
  unfolding format_number_to_hex_with_colon
  print_rows indent b = elim (format_number_to_hex_with_colon b 16) [
    | some rows ↦ each (λ l. println (indent ++ l)) rows
    | none ↦ abort
  ]

  -- The heading and the rows of a key that is a number.
  unfoldable pub print_number_key : Text → Bytes → Script
  unfolding print_rows
  print_number_key name y = do
    println
        (codes "    " ++ name ++ codes " Public Key: (" ++ decimal (8 * length y) ++ codes " bit)")
    print_rows (codes "        ") y

  -- The exponent, or its bytes where it is no number.
  unfoldable pub print_exponent : RsaPublicKey → Result X509Error ℕ → Script
  print_exponent key (ok e) =
      println (codes "    exponent: 0x" ++ lower_hex e ++ codes " (" ++ decimal e ++ codes ")")
  print_exponent key (err _) = do
    println (codes "    exponent: <INVALID>:")
    print_hex_dump h key.exponent 32

  -- The arm of an RSA key.
  unfoldable pub print_rsa_key : RsaPublicKey → Script
  unfolding print_rows try_exponent print_exponent
  print_rsa_key key = do
    println (codes "    RSA Public Key: (" ++ decimal (rsa_key_size key.modulus) ++ codes " bit)")
    print_rows (codes "        ") key.modulus
    print_exponent key (try_exponent key)

  -- What `parse_der` makes of an unknown key.
  unfoldable pub print_object : Option (ℕ × Text) → Script
  print_object (some (left, res)) = do
    eprintln (codes "rem: " ++ decimal left ++ codes " bytes")
    eprintln res
  print_object none = eprintln (codes "      <Could not parse key as DER>")

  -- The `match` on the key.
  unfoldable pub print_key : Result X509Error PublicKey → Script
  unfolding print_rows print_number_key print_rsa_key print_object
  print_key (ok (rsa key)) = print_rsa_key key
  print_key (ok (ec point)) = do
    println (codes "    EC Public Key: (" ++ decimal (ec_key_size point.point) ++ codes " bit)")
    print_rows (codes "        ") point.point
  print_key (ok (dsa y)) = print_number_key (codes "DSA") y
  print_key (ok (gost_r3410 y)) = print_number_key (codes "GOST R 34.10-94") y
  print_key (ok (gost_r3410_2012 y)) = print_number_key (codes "GOST R 34.10-2012") y
  print_key (ok (unknown b)) = do
    println (codes "    Unknown key type")
    print_hex_dump h b 256
    print_object (h.parse_der b)
  print_key (err _) = println (codes "    INVALID PUBLIC KEY")

  unfoldable pub print_x509_ski : SubjectPublicKeyInfo → Script
  unfolding print_key
  print_x509_ski public_key = do
    println (codes "    Public Key Algorithm:")
    print_x509_digest_algorithm h public_key.algorithm 6
    print_key (parsed h.der h.oids public_key)

-- ===== src/Programs/Algorithms.antt =====
-- examples/print-cert.rs: the printing of algorithms.
use x509_parser.Asn1.{Any, tag_oid}
use x509_parser.Console.{Program, Script, abort, eprintln, println, pure, put, ◌>>=◌, ◌>>◌}
use x509_parser.Error.{X509Error}
use x509_parser.Error.Display.{x509_error_display}
use x509_parser.Format.{decimal, spaces}
use x509_parser.Prelude.{Option, Text, codes, if◌then◌else◌, none, some, ℕ, ◌++◌, ◌+◌, ◌==◌}
use x509_parser.Programs.{Host, format_oid, print_hex_dump}
use x509_parser.Result.{Result, err, ok}
use x509_parser.SignatureAlgorithm.{
  MaskGenAlgorithm, SignatureAlgorithm, dsa_x957, ecdsa, ed25519, hash_oid_of, mask_gen_of,
  p_source_of, rsa_pkcs1, rsaaes_oaep, rsassa_pss, salt_length_of, signature_algorithm_of,
}
use x509_parser.X509.{AlgorithmIdentifier}

-- A line behind an indent.
abbrev pub indented : ℕ → Text → Script
indented level s = println (spaces level ++ s)

module _ (h : Host) where
  -- The text of a parameter: `as_oid().unwrap()` where its tag is that of an identifier.
  unfoldable pub parameter_text : Any → Program Text
  parameter_text parameter =
      if parameter.tag == tag_oid
      then elim (h.der.any_as_oid parameter) [ ok oid ↦ pure (format_oid h oid) | err _ ↦ abort ]
      else pure (h.tag_text parameter.tag)

  unfoldable pub print_x509_digest_algorithm : AlgorithmIdentifier → ℕ → Script
  unfolding parameter_text
  print_x509_digest_algorithm alg level = do
    indented level (codes "Oid: " ++ format_oid h alg.algorithm)
    elim alg.parameters [
      | none ↦ indented level (codes "Parameter: <ABSENT>")
      | some parameter ↦ do
        s ← parameter_text parameter
        indented level (codes "Parameter: <PRESENT> " ++ s)
        print_hex_dump h parameter.content 32
    ]

  unfoldable pub print_mask_gen : Result X509Error MaskGenAlgorithm → Script
  print_mask_gen (ok mask_gen) =
      println (format_oid h mask_gen.mgf ++ codes "/" ++ format_oid h mask_gen.hash)
  print_mask_gen (err _) = println (codes "INVALID")

  -- The two lines that the parameters of RSASSA-PSS and of RSAES-OAEP begin with.
  unfoldable pub print_hash_and_mask :
      ℕ → Option AlgorithmIdentifier → Option AlgorithmIdentifier → Script
  unfolding print_mask_gen
  print_hash_and_mask indent hash_alg mask_alg = do
    indented indent (codes "Hash Algorithm: " ++ format_oid h (hash_oid_of h.oids hash_alg))
    put (spaces indent ++ codes "Mask Generation Function: ")
    print_mask_gen (mask_gen_of h.der h.oids mask_alg)

  -- The `match` on the algorithm.
  unfoldable pub print_algorithm : SignatureAlgorithm → ℕ → Script
  unfolding print_hash_and_mask
  print_algorithm dsa_x957 indent = println (codes "DSA")
  print_algorithm ecdsa indent = println (codes "ECDSA")
  print_algorithm ed25519 indent = println (codes "ED25519")
  print_algorithm rsa_pkcs1 indent = println (codes "RSA")
  print_algorithm (rsassa_pss params) indent = do
    println (codes "RSASSA-PSS")
    print_hash_and_mask (indent + 2) params.hash_alg params.mask_gen_algorithm
    indented (indent + 2) (codes "Salt Length: " ++ decimal (salt_length_of params))
  print_algorithm (rsaaes_oaep params) indent = do
    println (codes "RSAAES-OAEP")
    print_hash_and_mask (indent + 2) params.hash_alg params.mask_gen_alg
    indented (indent + 2) (codes "pSourceFunc: " ++ format_oid h (p_source_of params).algorithm)

  unfoldable pub print_x509_signature_algorithm : AlgorithmIdentifier → ℕ → Script
  unfolding print_algorithm print_x509_digest_algorithm
  print_x509_signature_algorithm signature_algorithm indent =
      elim (signature_algorithm_of h.der h.oids signature_algorithm) [
        | ok sig_alg ↦ do put (codes "  Signature Algorithm: "); print_algorithm sig_alg indent
        | err e ↦ do
          eprintln (
              codes "Could not parse signature algorithm: "
              ++ x509_error_display h.ber_error_text h.kind_debug e)
          println (codes "  Signature Algorithm:")
          print_x509_digest_algorithm signature_algorithm indent
      ]

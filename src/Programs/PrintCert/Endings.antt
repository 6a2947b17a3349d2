-- ===== src/Programs/PrintCert/Endings.antt =====
-- How the functions of examples/print-cert.rs end.
use x509_parser.Asn1.{Oid}
use x509_parser.Console.{End, Script, each, println, put, returned, when_some, ◌>>◌}
use x509_parser.Console.Laws.{>>-Ends, each-Ends, if-Ends, when_some-Ends}
use x509_parser.Error.{X509Error}
use x509_parser.Extensions.{
  AuthorityKeyIdentifier, CrlDistributionPoint, GeneralName, ParsedExtension, X509Extension,
  authority_key_identifier, crl_distribution_points, subject_alternative_name,
}
use x509_parser.Prelude.{
  Bytes, List, Option, Text, [], codes, length, ltb, map, none, some, ℕ, ◌++◌, ◌+◌,
}
use x509_parser.Programs.{Host, print_hex_dump}
use x509_parser.Programs.Algorithms.{print_algorithm, print_hash_and_mask, print_mask_gen}
use x509_parser.Programs.Extensions.{
  generalname_to_string, print_authority, print_crl_issuer, print_distribution_point,
  print_parsed_extension, print_x509_extension,
}
use x509_parser.Programs.Keys.{
  print_exponent, print_key, print_number_key, print_object, print_rows, print_rsa_key,
}
use x509_parser.Programs.Rows.{chunks, format_number_to_hex_with_colon, row_text}
use x509_parser.PublicKey.{
  PublicKey, RsaPublicKey, dsa, ec, gost_r3410, gost_r3410_2012, rsa, try_exponent, unknown,
}
use x509_parser.Result.{Result, err, ok}
use x509_parser.SignatureAlgorithm.{
  MaskGenAlgorithm, SignatureAlgorithm, dsa_x957, ecdsa, ed25519, mask_gen_of, rsa_pkcs1,
  rsaaes_oaep, rsassa_pss,
}
use x509_parser.X509.{AlgorithmIdentifier}

-- A property of ends that a returned value has. What the two parts that may panic are assumed to
-- have of it, the program has.
module _ (h : Host) (P : End (Unit {0}) → Type 0) (done : P (returned tt)) where
  pub sequence_ends : (p q : Script) → P p.1 → P q.1 → P (p >> q).1
  sequence_ends = >>-Ends P done

  pub hex_dump-Ends : (bytes : Bytes) (n : ℕ) → P (print_hex_dump h bytes n).1
  unfolding print_hex_dump
  hex_dump-Ends bytes n = if-Ends P done (ltb n (length bytes)) _ _ done done

  crl_issuer-Ends : (issuer : List GeneralName) → P (print_crl_issuer h issuer).1
  unfolding print_crl_issuer
  crl_issuer-Ends issuer =
      sequence_ends (each (λ gn. put (generalname_to_string h gn ++ codes " ")) issuer) (println [])
        (each-Ends P done _ issuer (λ x. done)) done

  distribution_point-Ends : (point : CrlDistributionPoint) → P (print_distribution_point h point).1
  unfolding print_distribution_point
  distribution_point-Ends point =
      sequence_ends (when_some point.distribution_point _) _
        (when_some-Ends P done point.distribution_point _ (λ x. done))
        (sequence_ends (when_some point.reasons _) _
          (when_some-Ends P done point.reasons _ (λ x. done))
          (sequence_ends (when_some point.crl_issuer (print_crl_issuer h)) _
            (when_some-Ends P done point.crl_issuer (print_crl_issuer h) crl_issuer-Ends) done))

  authority-Ends : (aki : AuthorityKeyIdentifier) → P (print_authority h aki).1
  unfolding print_authority
  authority-Ends aki =
      sequence_ends (when_some aki.key_identifier _) _
        (when_some-Ends P done aki.key_identifier _ (λ x. done))
        (sequence_ends (when_some aki.authority_cert_issuer _) _
          (when_some-Ends P done aki.authority_cert_issuer _
            (λ issuer. each-Ends P done _ issuer (λ x. done)))
          (when_some-Ends P done aki.authority_cert_serial _ (λ x. done)))

  parsed_extension-Ends : (ext : ParsedExtension) → P (print_parsed_extension h ext).1
  unfolding print_parsed_extension
  parsed_extension-Ends (authority_key_identifier aki) = authority-Ends aki
  parsed_extension-Ends (crl_distribution_points cdp) =
      each-Ends P done _ cdp.points distribution_point-Ends
  parsed_extension-Ends (subject_alternative_name san) =
      each-Ends P done _ san.general_names (λ x. done)
  parsed_extension-Ends _ = done

  pub extension-Ends : (oid : Oid) (ext : X509Extension) → P (print_x509_extension h oid ext).1
  unfolding print_x509_extension
  extension-Ends oid ext = parsed_extension-Ends ext.parsed_extension

  pub rows-Ends : (indent : Text) (b : Bytes) → P (print_rows h indent b).1
  unfolding print_rows format_number_to_hex_with_colon
  rows-Ends indent b = each-Ends P done _ (map row_text (chunks 16 b)) (λ l. done)

  exponent-Ends : (key : RsaPublicKey) (r : Result X509Error ℕ) → P (print_exponent h key r).1
  unfolding print_exponent
  exponent-Ends key (ok e) = done
  exponent-Ends key (err e) = hex_dump-Ends key.exponent 32

  pub key-Ends : (r : Result X509Error PublicKey) → P (print_key h r).1
  unfolding print_key print_number_key print_rsa_key
  key-Ends (ok (rsa key)) =
      sequence_ends (print_rows h (codes "        ") key.modulus) _
        (rows-Ends (codes "        ") key.modulus) (exponent-Ends key (try_exponent key))
  key-Ends (ok (ec point)) = rows-Ends (codes "        ") point.point
  key-Ends (ok (dsa y)) = rows-Ends (codes "        ") y
  key-Ends (ok (gost_r3410 y)) = rows-Ends (codes "        ") y
  key-Ends (ok (gost_r3410_2012 y)) = rows-Ends (codes "        ") y
  key-Ends (ok (unknown b)) =
      sequence_ends (print_hex_dump h b 256) _ (hex_dump-Ends b 256) (object (h.parse_der b))
    where
      object : (found : Option (ℕ × Text)) → P (print_object h found).1
      object none = done
      object (some x) = done
  key-Ends (err e) = done

  mask_gen-Ends : (r : Result X509Error MaskGenAlgorithm) → P (print_mask_gen h r).1
  unfolding print_mask_gen
  mask_gen-Ends (ok mask_gen) = done
  mask_gen-Ends (err e) = done

  hash_and_mask-Ends :
      (indent : ℕ) (hash_alg mask_alg : Option AlgorithmIdentifier)
      → P (print_hash_and_mask h indent hash_alg mask_alg).1
  unfolding print_hash_and_mask
  hash_and_mask-Ends indent hash_alg mask_alg = mask_gen-Ends (mask_gen_of h.der h.oids mask_alg)

  pub algorithm-Ends : (alg : SignatureAlgorithm) (indent : ℕ) → P (print_algorithm h alg indent).1
  unfolding print_algorithm
  algorithm-Ends (rsassa_pss params) indent =
      sequence_ends (print_hash_and_mask h (indent + 2) params.hash_alg params.mask_gen_algorithm) _
        (hash_and_mask-Ends (indent + 2) params.hash_alg params.mask_gen_algorithm) done
  algorithm-Ends (rsaaes_oaep params) indent =
      sequence_ends (print_hash_and_mask h (indent + 2) params.hash_alg params.mask_gen_alg) _
        (hash_and_mask-Ends (indent + 2) params.hash_alg params.mask_gen_alg) done
  algorithm-Ends rsa_pkcs1 indent = done
  algorithm-Ends dsa_x957 indent = done
  algorithm-Ends ecdsa indent = done
  algorithm-Ends ed25519 indent = done

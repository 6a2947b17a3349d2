-- ===== src/Programs/PrintCert/Outcome.antt =====
-- How examples/print-cert.rs ends.
use x509_parser.Asn1.{Any, tag_oid}
use x509_parser.Certificate.{X509Certificate}
use x509_parser.Console.{End, aborted, each, each_from, returned}
use x509_parser.Console.Laws.{each-Ends, if-Ends}
use x509_parser.Error.{PemError}
use x509_parser.Pem.{Pem}
use x509_parser.Pem.Rest.{later}
use x509_parser.Prelude.{
  All, Bool-cases, Bytes, List, Option-cases, Text, [], codes, if◌then◌else◌, inl, inr, ltb, none,
  refl, some, suc, ℕ, ◌==◌, ◌∷◌, ◌≡◌, ◌⊎◌,
}
use x509_parser.Programs.{Host, format_oid}
use x509_parser.Programs.Algorithms.{
  parameter_text, print_x509_digest_algorithm, print_x509_signature_algorithm,
}
use x509_parser.Programs.Extensions.{print_x509_extension}
use x509_parser.Programs.Keys.{print_rows, print_x509_ski}
use x509_parser.Programs.PrintCert.{
  handle_certificate, handle_item, print_fields, print_validation, print_verification,
  print_x509_info, validated,
}
use x509_parser.Programs.PrintCert.Endings.{
  algorithm-Ends, extension-Ends, hex_dump-Ends, key-Ends, rows-Ends, sequence_ends,
}
use x509_parser.PublicKey.{parsed}
use x509_parser.Result.{Result, Result-cases, Slice, err, is_ok, ok, whole}
use x509_parser.Root.{parse_x509_certificate}
use x509_parser.SignatureAlgorithm.{signature_algorithm_of}
use x509_parser.Validate.Logger.{VecLogger}
use x509_parser.Validate.Steps.{Run, panicked, running}
use x509_parser.Verify.{certificate_verify}
use x509_parser.X509.{AlgorithmIdentifier, SubjectPublicKeyInfo}
use x509_parser.X509.Equality.{name_eq}

-- The decoded bodies among the items of the iterator.
abbrev pub bodies_of : List (Result PemError Pem) → List Bytes
bodies_of [] = []
bodies_of (ok pem ∷ items) = pem.contents ∷ bodies_of items
bodies_of (err e ∷ items) = bodies_of items

-- What the three parts that may panic have of a property of ends that a returned value has, the
-- handling of a certificate has.
module _ (h : Host) (P : End (Unit {0}) → Type 0) (done : P (returned tt)) where
  signature_algorithm-Ends :
      (alg : AlgorithmIdentifier) (indent : ℕ)
      → P (print_x509_digest_algorithm h alg indent).1
      → P (print_x509_signature_algorithm h alg indent).1
  unfolding print_x509_signature_algorithm
  signature_algorithm-Ends alg indent digest =
      elim (Result-cases (signature_algorithm_of h.der h.oids alg)) [
        | inl (e, k) ↦ rw (k, print_x509_signature_algorithm) digest
        | inr (sig_alg, k) ↦
            rw (k, print_x509_signature_algorithm) (algorithm-Ends h P done sig_alg indent)
      ]

  ski-Ends :
      (public_key : SubjectPublicKeyInfo)
      → P (print_x509_digest_algorithm h public_key.algorithm 6).1
      → P (print_x509_ski h public_key).1
  unfolding print_x509_ski
  ski-Ends public_key digest =
      sequence_ends h P done (print_x509_digest_algorithm h public_key.algorithm 6) _ digest
        (key-Ends h P done (parsed h.der h.oids public_key))

  -- The printing of the algorithms of a key and of a signature, and of what the validators leave.
  abbrev pub PartsEnd : X509Certificate → Type 0
  PartsEnd x509 =
      P (print_x509_digest_algorithm h x509.tbs_certificate.subject_pki.algorithm 6).1
      × P (print_x509_digest_algorithm h x509.signature_algorithm 4).1
      × P (print_validation h (validated h x509)).1

  fields-Ends : (x509 : X509Certificate) → PartsEnd x509 → P (print_fields h x509).1
  unfolding print_fields
  fields-Ends x509 parts =
      let tbs = x509.tbs_certificate in
      sequence_ends h P done (if ltb tbs.version.value 3 then _ else _) _
        (if-Ends P done (ltb tbs.version.value 3) _ _ done done)
        (sequence_ends h P done (print_x509_ski h tbs.subject_pki) _
          (ski-Ends tbs.subject_pki parts.0)
          (sequence_ends h P done (print_x509_signature_algorithm h x509.signature_algorithm 4) _
            (signature_algorithm-Ends x509.signature_algorithm 4 parts.1)
            (sequence_ends h P done (print_rows h (codes "      ") x509.signature_value.content) _
              (rows-Ends h P done (codes "      ") x509.signature_value.content)
              (sequence_ends h P done
                (each (λ ext. print_x509_extension h ext.oid ext) tbs.extensions) _
                (each-Ends P done _ tbs.extensions (λ ext. extension-Ends h P done ext.oid ext))
                done))))

  verification-Ends : (x509 : X509Certificate) → P (print_verification h x509).1
  unfolding print_verification
  verification-Ends x509 =
      let same = name_eq h.any_eq x509.tbs_certificate.subject x509.tbs_certificate.issuer in
      if-Ends P done same _ _
        (if-Ends P done (is_ok (certificate_verify h.der h.oids h.ring x509 none)) _ _ done
          (if-Ends P done same _ _ done done))
        done

  info-Ends : (x509 : X509Certificate) → PartsEnd x509 → P (print_x509_info h x509).1
  unfolding print_x509_info
  info-Ends x509 parts = sequence_ends h P done (print_fields h x509) _ (fields-Ends x509 parts) (
      sequence_ends h P done (print_validation h (validated h x509)) _ parts.2
        (verification-Ends x509))

  -- The parts of the certificate that is parsed of some bytes, if one is.
  abbrev pub BytesEnd : Bytes → Type 0
  BytesEnd bytes =
      (rem : Slice) (x509 : X509Certificate)
      → parse_x509_certificate h.der h.oids (whole bytes) ≡ ok (rem, x509)
      → PartsEnd x509

  pub certificate-Ends :
      (file_name : Text) (bytes : Bytes)
      → BytesEnd bytes
      → P (handle_certificate h file_name bytes).1
  unfolding handle_certificate
  certificate-Ends file_name bytes parts =
      elim (Result-cases (parse_x509_certificate h.der h.oids (whole bytes))) [
        | inl (e, k) ↦ rw (k, handle_certificate) done
        | inr ((rem, x509), k) ↦ rw (k, handle_certificate) (info-Ends x509 (parts rem x509 k))
      ]

  pub items-Ends :
      (file_name : Text) (n : ℕ) (items : List (Result PemError Pem))
      → All BytesEnd (bodies_of items)
      → P (each_from (handle_item h file_name) n items).1
  unfolding each_from handle_item
  items-Ends file_name n [] parts = done
  items-Ends file_name n (ok pem ∷ items) (here, later) =
      sequence_ends h P done (handle_item h file_name n (ok pem)) _
        (certificate-Ends file_name pem.contents here) (items-Ends file_name (suc n) items later)
  items-Ends file_name n (err e ∷ items) parts = items-Ends file_name (suc n) items parts

module _ (h : Host) (P : End (Unit {0}) → Type 0) (done : P (returned tt)) where
  parameter_text-cases :
      (parameter : Any)
      → ((s : Text) × ((parameter_text h parameter).1 ≡ returned s))
        ⊎ ((parameter_text h parameter).1 ≡ aborted)
  unfolding parameter_text
  parameter_text-cases parameter = elim (Bool-cases (parameter.tag == tag_oid)) [
    | inr other ↦ inl (h.tag_text parameter.tag, rw other refl)
    | inl is_oid ↦ elim (Result-cases (h.der.any_as_oid parameter)) [
      | inl (e, k) ↦ inr (rw (is_oid, k, parameter_text) refl)
      | inr (oid, k) ↦ inl (format_oid h oid, rw (is_oid, k, parameter_text) refl)
    ]
  ]

  -- The printing of an algorithm panics only where the text of its parameter does.
  pub digest-Ends :
      (alg : AlgorithmIdentifier) (level : ℕ)
      → ((parameter : Any)
          → alg.parameters ≡ some parameter
          → (parameter_text h parameter).1 ≡ aborted
          → P aborted)
      → P (print_x509_digest_algorithm h alg level).1
  unfolding print_x509_digest_algorithm
  digest-Ends alg level stuck = elim (Option-cases alg.parameters) [
    | inl k ↦ rw (k, print_x509_digest_algorithm) done
    | inr (parameter, k) ↦ elim (parameter_text-cases parameter) [
      | inl (s, m) ↦
          rw (k, m, print_x509_digest_algorithm) (hex_dump-Ends h P done parameter.content 32)
      | inr m ↦ rw (k, m, print_x509_digest_algorithm) (stuck parameter k m)
    ]
  ]

  -- The printing of what the validators leave panics only where they do.
  pub validation-Ends :
      (run : Run VecLogger) → (run ≡ panicked → P aborted) → P (print_validation h run).1
  unfolding print_validation
  validation-Ends panicked stuck = stuck refl
  validation-Ends (running valid logger) stuck =
      sequence_ends h P done (each _ logger.warnings) _
        (each-Ends P done _ logger.warnings (λ x. done))
        (sequence_ends h P done (each _ logger.errors) _
          (each-Ends P done _ logger.errors (λ x. done)) done)

-- ===== src/Programs/PrintCert/Files.antt =====
-- examples/print-cert.rs gets through all its files.
use x509_parser.Asn1.{Any, Oid, tag_oid}
use x509_parser.Certificate.{X509Certificate}
use x509_parser.Console.{End, aborted, returned}
use x509_parser.Console.Laws.{Returns, each-Returns}
use x509_parser.Pem.{iter_from_buffer}
use x509_parser.Pem.Progress.{drain, drain_ends}
use x509_parser.Prelude.{
  ==_iff, All, Bool, Bool-cases, Bytes, List, Text, [], arith, concat, false, if◌then◌else◌, inl,
  inr, leb, length, map, none, refl, some, suc, ◌&&◌, ◌==◌, ◌∷◌, ◌≡◌, ◌≤◌,
}
use x509_parser.Programs.{Host}
use x509_parser.Programs.Algorithms.{parameter_text}
use x509_parser.Programs.PrintCert.{
  handle_data, handle_file, print_cert_main, probably_der, validated,
}
use x509_parser.Programs.PrintCert.Blocks.{item_loop-each_from}
use x509_parser.Programs.PrintCert.Outcome.{
  BytesEnd, PartsEnd, bodies_of, certificate-Ends, digest-Ends, items-Ends, validation-Ends,
}
use x509_parser.PublicKey.{parsed}
use x509_parser.Result.{Slice, ok, whole}
use x509_parser.Root.{parse_x509_certificate}
use x509_parser.Validate.Combined.{chain-Verdict}
use x509_parser.Validate.Logger.{VecLogger, empty_logger, vec_logger}
use x509_parser.Validate.Steps.{panicked}
use x509_parser.Validate.Structure.Verdict.{IsIndexable}
use x509_parser.X509.{AlgorithmIdentifier}

-- An identifier can be read from the parameter of an algorithm, where it has the tag of one.
abbrev pub ReadsOid : Host → AlgorithmIdentifier → Type 0
ReadsOid h alg =
    (parameter : Any)
    → alg.parameters ≡ some parameter
    → parameter.tag ≡ tag_oid
    → (oid : Oid) × (h.der.any_as_oid parameter ≡ ok oid)

-- A certificate on which the program does not panic: its RSA key, if it has one, has a modulus and
-- an exponent, and the parameters of its two algorithms are not malformed identifiers.
pub record IsPrintable (h : Host) (x509 : X509Certificate) : Type 0 where
  pub key_indexable : IsIndexable (parsed h.der h.oids x509.tbs_certificate.subject_pki)
  pub key_algorithm : ReadsOid h x509.tbs_certificate.subject_pki.algorithm
  pub signature_algorithm : ReadsOid h x509.signature_algorithm

-- The test of the program for DER.
abbrev pub takes_for_der : Bytes → Bool
takes_for_der (b0 ∷ b1 ∷ bs) = b0 == 0x30 && leb 0x81 b1 && leb b1 0x83
takes_for_der _ = false

-- The bytes that the program takes for certificates in a file: the file, if it may be DER, and
-- otherwise the decoded bodies of its PEM blocks.
abbrev pub bodies_in : Host → Bytes → List Bytes
bodies_in h content =
    let r = iter_from_buffer content in
    if takes_for_der content
    then content ∷ []
    else elim (drain h.base64_decode (suc (length r.lines)) r) [
      | some items ↦ bodies_of items
      | none ↦ []
    ]

-- The name of a file that can be read and has two bytes, and in which every certificate that can be
-- parsed is printable.
abbrev pub IsReadable : Host → Text → Type 0
IsReadable h name =
    (content : Bytes) × (h.read name ≡ some content)
    × (2 ≤ length content)
    × All
        (λ bytes.
          (rem : Slice) (x509 : X509Certificate)
          → parse_x509_certificate h.der h.oids (whole bytes) ≡ ok (rem, x509)
          → IsPrintable h x509)
        (bodies_in h content)

module _ (h : Host) where
  parameter_read :
      (alg : AlgorithmIdentifier) (parameter : Any)
      → ReadsOid h alg
      → alg.parameters ≡ some parameter
      → (parameter_text h parameter).1 ≡ aborted
      → aborted ≡ returned tt
  unfolding parameter_text
  parameter_read alg parameter reads k stuck = elim (Bool-cases (parameter.tag == tag_oid)) [
    | inr other ↦ cc (rw (other, parameter_text) at stuck)
    | inl is_oid ↦
        let (oid, m) = reads parameter k ((==_iff parameter.tag tag_oid).0 is_oid) in
        cc (rw (is_oid, m, parameter_text) at stuck)
  ]

  validated_runs :
      (x509 : X509Certificate)
      → IsIndexable (parsed h.der h.oids x509.tbs_certificate.subject_pki)
      → validated h x509 ≡ panicked
      → aborted ≡ returned tt
  unfolding validated
  validated_runs x509 indexable stuck =
      let (_, _, e) = chain-Verdict h.der h.oids h.shows x509 indexable in
      let (_, _, ended) = e VecLogger vec_logger empty_logger in cc (rw (ended, validated) at stuck)

  abbrev Ended : End (Unit {0}) → Type 0
  Ended x = x ≡ returned tt

  printable_parts : (x509 : X509Certificate) → IsPrintable h x509 → PartsEnd h Ended refl x509
  printable_parts x509 w = (
    digest-Ends h Ended refl x509.tbs_certificate.subject_pki.algorithm 6 (λ parameter.
        parameter_read x509.tbs_certificate.subject_pki.algorithm parameter w.key_algorithm),
    digest-Ends h Ended refl x509.signature_algorithm 4
        (λ parameter. parameter_read x509.signature_algorithm parameter w.signature_algorithm),
    validation-Ends h Ended refl (validated h x509) (validated_runs x509 w.key_indexable),
  )

  abbrev AllPrintable : List Bytes → Type 0
  AllPrintable = All λ bytes.
      (rem : Slice) (x509 : X509Certificate)
      → parse_x509_certificate h.der h.oids (whole bytes) ≡ ok (rem, x509)
      → IsPrintable h x509

  bodies-BytesEnd : (bodies : List Bytes) → AllPrintable bodies → All (BytesEnd h Ended refl) bodies
  bodies-BytesEnd [] w = tt
  bodies-BytesEnd (bytes ∷ bodies) (w, ws) =
      (λ rem x509 e. printable_parts x509 (w rem x509 e), bodies-BytesEnd bodies ws)

  data-Returns :
      (name : Text) (content : Bytes)
      → 2 ≤ length content
      → AllPrintable (bodies_in h content)
      → Returns (handle_data h name content)
  unfolding handle_data probably_der
  data-Returns name [] two w = absurd (omega arith)
  data-Returns name (b ∷ []) two w = absurd (omega arith)
  data-Returns name (b0 ∷ b1 ∷ bs) two w =
      let content = b0 ∷ b1 ∷ bs in
      elim (Bool-cases (takes_for_der content)) [
        | inl t ↦
            let one : AllPrintable (content ∷ []) = rw (t) at w in
            rw (t)
              (certificate-Ends h Ended refl name content (bodies-BytesEnd (content ∷ []) one).0)
        | inr f ↦
            let r = iter_from_buffer content in
            let (items, e, _) = drain_ends h.base64_decode (suc (length r.lines)) r (omega arith) in
            let some_items : AllPrintable (bodies_of items) = rw (f, e) at w in
            rw (f, item_loop-each_from h (suc (length r.lines)) name 0 r items e)
              (items-Ends h Ended refl name 0 items (bodies-BytesEnd (bodies_of items) some_items))
      ]

  files-Returns :
      (names : List Text) → All (IsReadable h) names → All (λ x. Returns (handle_file h x)) names
  unfolding handle_file
  files-Returns [] r = tt
  files-Returns (name ∷ names) ((content, k, two, w), r) =
      (rw (k, handle_file) (data-Returns name content two w), files-Returns names r)

  -- If every file can be read and has at least two bytes, and each certificate that can be parsed
  -- in it has no RSA key without a modulus or exponent and no malformed identifier as the parameter
  -- of its key's or its signature's algorithm, the program returns Ok, and has written, file by
  -- file in order, all that it writes for each of them. Neither bytes that are no certificate, nor
  -- a certificate that is not valid, nor a bad PEM block stops it.
  pub print_cert_main-Returns :
      (names : List Text)
      → All (IsReadable h) names
      → print_cert_main h names ≡ (concat (map (λ name. (handle_file h name).0) names), returned tt)
  unfolding print_cert_main
  print_cert_main-Returns names r = each-Returns (handle_file h) names (files-Returns names r)

-- ===== src/Certificate/Envelope.antt =====
-- A certificate parsed with and without deep parsing of its extensions.
use x509_parser.Asn1.{Header, Oid, Oids}
use x509_parser.Certificate.{TbsCertificate, X509Certificate}
use x509_parser.Certificate.Parse.{
  certificate_parse, tbs_content, tbs_parse, unique_id_parse, validity_from_der,
}
use x509_parser.Der.{Der}
use x509_parser.Error.{X509Error, invalid_issuer_uid, invalid_subject_uid}
use x509_parser.Extensions.{X509Extension, unparsed}
use x509_parser.Extensions.Dispatch.{
  extension_content, extension_parse, parse_extension_sequence, parse_extensions,
}
use x509_parser.Extensions.Dispatch.Shallow.{envelope, extension_content-envelope}
use x509_parser.Prelude.{
  Bool, Bool-cases, Bytes, ap, false, inl, inr, is_empty, map, refl, sym, true, ℕ, ◌==◌, ◌∙◌, ◌≡◌,
}
use x509_parser.Result.{IResult, Parser, Result-cases, Slice, error, map_err, map_ok, ok, ◌>>=◌}
use x509_parser.Result.Views.{
  >>=-SameValue, >>=-SameView, SameValue, SameView, map_err-SameView, map_ok-map_ok, on_value,
  value_of_view,
}
use x509_parser.X509.Parse.{
  consumed, name_from_der, parse_serial, parse_signature_value, spki_from_der,
  version_from_der_tagged_0,
}

-- An extension whose content is not parsed.
abbrev pub envelope_only : X509Extension → X509Extension
envelope_only ext = record ext { parsed_extension = unparsed }

abbrev pub tbs_envelope : TbsCertificate → TbsCertificate
tbs_envelope tbs = record tbs { extensions = map envelope_only tbs.extensions }

abbrev pub certificate_envelope : X509Certificate → X509Certificate
certificate_envelope cert = record cert { tbs_certificate = tbs_envelope cert.tbs_certificate }

-- The documented behaviour of the combinators: what they make of a parser depends on what the
-- parser makes of a slice, and the content of a sequence is what its parser returns, whatever the
-- parser leaves of it.
pub record Pointwise (d : Der) : Type 1 where
  pub sequence :
      (E A B : Type 0) (h : A → B) (f g : Slice → Header → IResult E A)
      → ((i : Slice) (hdr : Header) → SameValue h (f i hdr) (g i hdr))
      → (i : Slice) → SameView h (d.sequence_g E A f i) (d.sequence_g E A g i)
  pub complete :
      (E A B : Type 0) (h : A → B) (p q : Parser E A)
      → ((i : Slice) → SameView h (p i) (q i))
      → (i : Slice) → SameView h (d.complete E A p i) (d.complete E A q i)
  pub all_consuming :
      (E A B : Type 0) (h : A → B) (p q : Parser E A)
      → ((i : Slice) → SameView h (p i) (q i))
      → (i : Slice) → SameView h (d.all_consuming E A p i) (d.all_consuming E A q i)
  pub many0 :
      (E A B : Type 0) (h : A → B) (p q : Parser E A)
      → ((i : Slice) → SameView h (p i) (q i))
      → (i : Slice) → SameView (map h) (d.many0 E A p i) (d.many0 E A q i)

module _ (d : Der) (oids : Oids) (laws : Pointwise d) where
  content_of : Oid × Bool × Bytes → X509Extension
  content_of (oid, critical, value) = record {
    oid = oid;
    critical = critical;
    value = value;
    parsed_extension = unparsed;
  }

  content-SameValue :
      (i : Slice)
      → SameValue envelope_only (extension_content d oids true i) (extension_content d oids false i)
  unfolding content_of
  content-SameValue i =
      sym (map_ok-map_ok content_of envelope (extension_content d oids true i))
      ∙ ap (map_ok content_of) (extension_content-envelope d oids i)
      ∙ map_ok-map_ok content_of envelope (extension_content d oids false i)

  extension-SameView :
      (i : Slice)
      → SameView envelope_only (extension_parse d oids true i) (extension_parse d oids false i)
  unfolding extension_parse
  extension-SameView i =
      map_err-SameView envelope_only _ _ _
        (laws.sequence _ _ _ envelope_only _ _ (λ j _. content-SameValue j) i)

  sequence-SameView :
      (i : Slice)
      → SameView
          (map envelope_only)
          (parse_extension_sequence d oids true i)
          (parse_extension_sequence d oids false i)
  unfolding parse_extension_sequence
  sequence-SameView i =
      laws.sequence _ _ _ (map envelope_only) _ _
        (λ j _. value_of_view (map envelope_only) _ _ (
          laws.all_consuming _ _ _ (map envelope_only) _ _
            (laws.many0 _ _ _ envelope_only _ _
              (laws.complete _ _ _ envelope_only _ _ extension-SameView))
            j))
        i

  extensions-SameView :
      (tag : ℕ) (i : Slice)
      → SameView
          (map envelope_only)
          (parse_extensions d oids true tag i)
          (parse_extensions d oids false tag i)
  unfolding parse_extensions
  extensions-SameView tag i = elim (Bool-cases (is_empty i.bytes)) [
    | inl e ↦ rw (e, parse_extensions) refl
    | inr e ↦ elim (Result-cases (d.header_from_der i)) [
      | inl (f, k) ↦ rw (e, k, parse_extensions) refl
      | inr ((rem, hdr), k) ↦ elim (Bool-cases (hdr.tag == tag)) [
        | inl t ↦
            rw (e, k, t, parse_extensions)
              (laws.all_consuming _ _ _ (map envelope_only) _ _ sequence-SameView rem)
        | inr t ↦ rw (e, k, t, parse_extensions) refl
      ]
    ]
  ]

  tbs_content-SameValue :
      (start_i i : Slice)
      → SameValue tbs_envelope
          (tbs_content d oids true start_i i)
          (tbs_content d oids false start_i i)
  unfolding tbs_content
  tbs_content-SameValue start_i i =
      >>=-SameValue tbs_envelope (version_from_der_tagged_0 d i) _ _ λ (i1, version).
        >>=-SameValue tbs_envelope (parse_serial d i1) _ _ λ (i2, serial).
          >>=-SameValue tbs_envelope (d.algorithm_from_der i2) _ _ λ (i3, signature).
            >>=-SameValue tbs_envelope (name_from_der d i3) _ _ λ (i4, issuer).
              >>=-SameValue tbs_envelope (validity_from_der d i4) _ _ λ (i5, validity).
                >>=-SameValue tbs_envelope (name_from_der d i5) _ _ λ (i6, subject).
                  >>=-SameValue tbs_envelope (spki_from_der d i6) _ _ λ (i7, subject_pki).
                    >>=-SameValue tbs_envelope
                      (map_err (λ _. error invalid_issuer_uid) (unique_id_parse d 1 i7)) _ _
                      λ (i8, issuer_uid).
                        >>=-SameValue tbs_envelope
                          (map_err (λ _. error invalid_subject_uid) (unique_id_parse d 2 i8)) _ _
                          λ (i9, subject_uid).
                            >>=-SameView (map envelope_only) tbs_envelope _ _ _
                              (λ (i10, extensions). ok (record {
                                version = version;
                                serial = serial.1;
                                signature = signature;
                                issuer = issuer;
                                validity = validity;
                                subject = subject;
                                subject_pki = subject_pki;
                                issuer_uid = issuer_uid;
                                subject_uid = subject_uid;
                                extensions = extensions;
                                raw = consumed start_i i10;
                                raw_serial = serial.0;
                              }))
                              (λ _. refl) (extensions-SameView 3 i9)

  tbs-SameView :
      (i : Slice) → SameView tbs_envelope (tbs_parse d oids true i) (tbs_parse d oids false i)
  unfolding tbs_parse
  tbs-SameView i = laws.sequence _ _ _ tbs_envelope _ _ (λ j _. tbs_content-SameValue i j) i

  -- What is parsed after the signed part.
  abbrev certificate_after : Slice × TbsCertificate → IResult X509Error X509Certificate
  certificate_after (i1, tbs) = do
    (i2, signature_algorithm) ← d.algorithm_from_der i1
    (i3, signature_value) ← parse_signature_value d i2
    ok (
      i3,
      record {
        tbs_certificate = tbs;
        signature_algorithm = signature_algorithm;
        signature_value = signature_value;
      },
    )

  certificate_after-view :
      (x : Slice × TbsCertificate)
      → map_ok (λ y. certificate_envelope y.1) (certificate_after x)
        ≡ map_ok (λ y. y.1) (certificate_after (on_value tbs_envelope x))
  certificate_after-view (i1, tbs) = elim (Result-cases (d.algorithm_from_der i1)) [
    | inl (e, k) ↦ rw (k) refl
    | inr ((i2, a), k) ↦ elim (Result-cases (parse_signature_value d i2)) [
      | inl (e, m) ↦ rw (k, m) refl
      | inr ((i3, v), m) ↦ rw (k, m) refl
    ]
  ]

  -- Deep parsing of a certificate fails exactly where parsing without it does, with the same error;
  -- where they succeed they leave the same rest, and their certificates differ at most in the
  -- parsed contents of the extensions. It is assumed that what the combinators make of a parser
  -- depends only on what the parser makes of each slice.
  pub certificate_parse-SameView :
      (i : Slice)
      → SameView certificate_envelope
          (certificate_parse d oids true i)
          (certificate_parse d oids false i)
  unfolding certificate_parse
  certificate_parse-SameView i =
      laws.sequence _ _ _ certificate_envelope _ _
        (λ j _.
          >>=-SameView tbs_envelope certificate_envelope _ _ _
            (λ x. map_ok (λ y. y.1) (certificate_after x)) certificate_after-view (tbs-SameView j))
        i

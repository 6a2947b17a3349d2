-- ===== src/SignatureAlgorithm/Family.antt =====
-- Which algorithms `SignatureAlgorithm::try_from` can return.
use x509_parser.Asn1.{Oid, Oids, oid_eq, starts_with}
use x509_parser.Der.{Der}
use x509_parser.Error.{invalid_signature_value}
use x509_parser.Prelude.{eq_of_list_eq, false, refl, subst, sym, true, ◌∙◌, ◌≡◌, ◌≢◌}
use x509_parser.Result.{Holds->>=, Holds-err, Holds-if, Holds-ok, ok}
use x509_parser.SignatureAlgorithm.{
  SignatureAlgorithm, ansi_x962_signatures, dsa_x957, ecdsa, ed25519, pkcs1, rsa_pkcs1, rsaaes_oaep,
  rsaes_oaep, rsassa_pss, signature_algorithm_of, x957_algorithms,
}
use x509_parser.X509.{AlgorithmIdentifier}

-- The identifier of RSAES-OAEP is a child of PKCS #1.
oaep_is_pkcs1 : (o : Oid) → oid_eq o rsaes_oaep ≡ true → starts_with o pkcs1 ≡ true
unfolding starts_with
oaep_is_pkcs1 o h =
    subst (λ z. starts_with z pkcs1 ≡ true) (sym (eq_of_list_eq o rsaes_oaep h)) refl

true_ne_false : true ≢ false
true_ne_false h = cc

-- What the returned algorithm says of the identifier.
abbrev pub FamilyOf : Oids → Oid → SignatureAlgorithm → Type 0
FamilyOf oids o rsa_pkcs1 = (starts_with o pkcs1 ≡ true) × (oid_eq o oids.rsassa_pss ≡ false)
FamilyOf oids o (rsassa_pss _) = (starts_with o pkcs1 ≡ true) × (oid_eq o oids.rsassa_pss ≡ true)
FamilyOf oids o (rsaaes_oaep _) = ⊥
FamilyOf oids o dsa_x957 = starts_with o x957_algorithms ≡ true
FamilyOf oids o ecdsa = starts_with o ansi_x962_signatures ≡ true
FamilyOf oids o ed25519 = oid_eq o oids.sig_ed25519 ≡ true

-- If `SignatureAlgorithm::try_from` returns an algorithm, the identifier is of its family; and
-- RSAES-OAEP, whose identifier the first test takes, is never returned.
pub signature_algorithm_of-FamilyOf :
    (d : Der) (oids : Oids) (value : AlgorithmIdentifier) (alg : SignatureAlgorithm)
    → signature_algorithm_of d oids value ≡ ok alg
    → FamilyOf oids value.algorithm alg
unfolding signature_algorithm_of
signature_algorithm_of-FamilyOf d oids value =
    let P = FamilyOf oids value.algorithm in
    Holds-if P (starts_with value.algorithm pkcs1)
      (λ p.
        Holds-if P (oid_eq value.algorithm oids.rsassa_pss)
          (λ q.
            Holds->>= P (λ _. Unit {0}) _ _ (λ _ _. tt)
              (λ params _. Holds-ok P (rsassa_pss params) (p, q)))
          (λ q. Holds-ok P rsa_pkcs1 (p, q)))
      (λ n. Holds-if P (starts_with value.algorithm ansi_x962_signatures) (Holds-ok P ecdsa) (λ _.
        Holds-if P (starts_with value.algorithm x957_algorithms) (Holds-ok P dsa_x957) (λ _.
          Holds-if P (oid_eq value.algorithm oids.sig_ed25519) (Holds-ok P ed25519) (λ _.
            Holds-if P (oid_eq value.algorithm rsaes_oaep)
              (λ q. elim (true_ne_false (sym (oaep_is_pkcs1 value.algorithm q) ∙ n)) [ ])
              (λ _. Holds-err P invalid_signature_value)))))

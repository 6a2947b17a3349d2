-- ===== src/Validate/Pedantic/Outcome.antt =====
-- The result of the extension validator, on any logger.
use x509_parser.Asn1.{Oid, oid_eq}
use x509_parser.Extensions.{
  GeneralName, KeyUsage, ParsedExtension, X509Extension, authority_key_identifier,
  certificate_policies, dns_name, key_usage, rfc822_name, subject_alternative_name,
}
use x509_parser.OidMap.{set_contains, set_insert}
use x509_parser.Prelude.{
  Bool, Bool-cases, List, Text, [], all, ap, arith, codes, false, inl, inr, map, not, refl, true,
  ◌&&◌, ◌||◌, ◌∙◌, ◌∷◌, ◌≡◌,
}
use x509_parser.Validate.Logger.{Logger, VecLogger, empty_logger, vec_logger}
use x509_parser.Validate.Pedantic.{
  distinct_step, extension_step, extensions_validator, must_not_critical, should_critical,
  should_not_critical,
}
use x509_parser.Validate.Steps.{
  Step, after, err_if, fail_if, for_each, running, skip, validate, warn_if, ◌⨾◌,
}
use x509_parser.Validate.Structure.{san_name_step}

-- The step ends, and it clears `res` exactly if `good` is false.
abbrev Yields : Step → Bool → Type 1
Yields s good =
    (L : Type 0) (l : Logger L) (res : Bool) (log : L)
    → (log' : L) × (s L l res log ≡ running (res && good) log')

and_true : (b : Bool) → b ≡ (b && true)
and_true b = ground arith

and_false : (b : Bool) → false ≡ (b && false)
and_false b = ground arith

skip-Yields : Yields skip true
unfolding skip
skip-Yields L l res log = (log, ap (λ b. running b log) (and_true res))

warn_if-Yields : (test : Bool) (message : Text) → Yields (warn_if test message) true
unfolding warn_if
warn_if-Yields true message L l res log =
    (l.warn message log, ap (λ b. running b (l.warn message log)) (and_true res))
warn_if-Yields false message L l res log = (log, ap (λ b. running b log) (and_true res))

err_if-Yields : (test : Bool) (message : Text) → Yields (err_if test message) true
unfolding err_if
err_if-Yields true message L l res log =
    (l.err message log, ap (λ b. running b (l.err message log)) (and_true res))
err_if-Yields false message L l res log = (log, ap (λ b. running b log) (and_true res))

fail_if-Yields : (test : Bool) (message : Text) → Yields (fail_if test message) (not test)
unfolding fail_if
fail_if-Yields true message L l res log =
    (l.err message log, ap (λ b. running b (l.err message log)) (and_false res))
fail_if-Yields false message L l res log = (log, ap (λ b. running b log) (and_true res))

and_assoc : (a b c : Bool) → ((a && b) && c) ≡ (a && (b && c))
and_assoc a b c = ground arith

⨾-Yields : (s t : Step) (a b : Bool) → Yields s a → Yields t b → Yields (s ⨾ t) (a && b)
unfolding ◌⨾◌
⨾-Yields s t a b hs ht L l res log =
    let (log1, e1) = hs L l res log in
    let (log2, e2) = ht L l (res && a) log1 in
    (log2, ap (λ r. after r (t L l)) e1 ∙ e2 ∙ ap (λ c. running c log2) (and_assoc res a b))

for_each-Yields :
    {A : Type 0} (body : A → Step) (good : A → Bool)
    → ((x : A) → Yields (body x) (good x))
    → (xs : List A) → Yields (for_each body xs) (all good xs)
unfolding for_each all
for_each-Yields body good h [] L l res log = (log, ap (λ b. running b log) (and_true res))
for_each-Yields body good h (x ∷ xs) L l res log =
    let (log1, e1) = h x L l res log in
    let (log2, e2) = for_each-Yields body good h xs L l (res && good x) log1 in
    (
      log2,
      ap (λ r. after r (for_each body xs L l)) e1
          ∙ e2
          ∙ ap (λ c. running c log2) (and_assoc res (good x) (all good xs)),
    )

-- No identifier stands twice in the list.
abbrev pub no_duplicate : List Oid → Bool
no_duplicate [] = true
no_duplicate (o ∷ os) = all (λ k. not (oid_eq o k)) os && no_duplicate os

module _ {A : Type 0} (key : A → Oid) where
  -- The result of the loop from the set `m`.
  fresh : List Oid → List A → Bool
  fresh m [] = true
  fresh m (x ∷ xs) = not (set_contains (key x) m) && fresh (set_insert (key x) m).1 xs

  distinct_step-Yields :
      (message : Oid → Text) (m : List Oid) (xs : List A)
      → Yields (distinct_step key message m xs) (fresh m xs)
  unfolding distinct_step fresh
  distinct_step-Yields message m [] = skip-Yields
  distinct_step-Yields message m (x ∷ xs) =
      ⨾-Yields _ _ _ _ (fail_if-Yields _ _)
        (distinct_step-Yields message (set_insert (key x) m).1 xs)

split_and : (a b c d : Bool) → (not (a || b) && (c && d)) ≡ ((not a && c) && (not b && d))
split_and a b c d = ground arith

and_swap : (a b c : Bool) → ((a && b) && c) ≡ (b && (a && c))
and_swap a b c = ground arith

all_split :
    (o : Oid) (m os : List Oid)
    → all (λ k. not (set_contains k (o ∷ m))) os
      ≡ (all (λ k. not (oid_eq o k)) os && all (λ k. not (set_contains k m)) os)
unfolding all set_contains
all_split o m [] = refl
all_split o m (k ∷ os) =
    ap (λ z. not (oid_eq o k || set_contains k m) && z) (all_split o m os)
    ∙ split_and (oid_eq o k) (set_contains k m) _ _

module _ {A : Type 0} (key : A → Oid) where
  fresh_lem :
      (m : List Oid) (xs : List A)
      → fresh key m xs
        ≡ (all (λ k. not (set_contains k m)) (map key xs) && no_duplicate (map key xs))
  unfolding fresh all set_insert
  fresh_lem m [] = refl
  fresh_lem m (x ∷ xs) = elim (Bool-cases (set_contains (key x) m)) [
    | inl p ↦ rw (p)
    | inr n ↦
        let others = map key xs in
        let known = all (λ k. not (set_contains k m)) others in
        rw (n, set_insert)
          (fresh_lem (key x ∷ m) xs
            ∙ ap (λ z. z && no_duplicate others) (all_split (key x) m others)
            ∙ and_swap (all (λ k. not (oid_eq (key x) k)) others) known (no_duplicate others))
  ]

  all_outside : (os : List Oid) → all (λ k. not (set_contains k [])) os ≡ true
  unfolding all set_contains
  all_outside [] = refl
  all_outside (o ∷ os) = all_outside os

  no_duplicate_step-Yields :
      (message : Oid → Text) (xs : List A)
      → Yields (distinct_step key message [] xs) (no_duplicate (map key xs))
  no_duplicate_step-Yields message xs =
      let e : fresh key [] xs ≡ no_duplicate (map key xs) =
        fresh_lem [] xs ∙ ap (λ z. z && no_duplicate (map key xs)) (all_outside (map key xs)) in
      λ L l res log.
        let (log', p) = distinct_step-Yields key message [] xs L l res log in
        (log', p ∙ ap (λ z. running (res && z) log') e)

-- No policy stands twice in the certificate policies.
abbrev pub distinct_policies : ParsedExtension → Bool
distinct_policies (certificate_policies policies) = no_duplicate (map (λ p. p.policy_id) policies)
distinct_policies _ = true

san_name_step-Yields : (name : GeneralName) → Yields (san_name_step name) true
unfolding san_name_step
san_name_step-Yields (dns_name s) = warn_if-Yields _ _
san_name_step-Yields (rfc822_name s) = warn_if-Yields _ _
san_name_step-Yields _ = skip-Yields

all-true : {A : Type 0} (xs : List A) → all (λ x. true) xs ≡ true
unfolding all
all-true [] = refl
all-true (x ∷ xs) = all-true xs

sans-Yields : (names : List GeneralName) → Yields (for_each san_name_step names) true
sans-Yields names L l res log =
    let (log', p) =
      for_each-Yields san_name_step (λ n. true) san_name_step-Yields names L l res log in
    (log', p ∙ ap (λ z. running (res && z) log') (all-true names))

extension_step-Yields :
    (show_oid : Oid → Text) (critical : Bool) (p : ParsedExtension)
    → Yields (extension_step show_oid critical p) (distinct_policies p)
unfolding extension_step must_not_critical should_critical should_not_critical
extension_step-Yields show_oid critical (authority_key_identifier aki) =
    ⨾-Yields _ _ true true (err_if-Yields _ _) (warn_if-Yields _ _)
extension_step-Yields show_oid critical (certificate_policies policies) =
    no_duplicate_step-Yields (λ p. p.policy_id) _ policies
extension_step-Yields show_oid critical (key_usage ku) =
    ⨾-Yields _ _ true true (warn_if-Yields _ _) (err_if-Yields _ _)
extension_step-Yields show_oid critical (subject_alternative_name san) =
    ⨾-Yields _ _ true true (warn_if-Yields _ _) (sans-Yields san.general_names)
extension_step-Yields show_oid critical _ = skip-Yields

-- On every logger the extension validator ends, and it returns true exactly if no identifier
-- stands twice among the extensions, and no policy twice in any certificate policies.
pub extensions_validator_result :
    (show_oid : Oid → Text) (L : Type 0) (l : Logger L) (exts : List X509Extension) (log : L)
    → (log' : L) × (extensions_validator show_oid L l exts log
        ≡ running
            (no_duplicate (map (λ ext. ext.oid) exts)
              && all (λ ext. distinct_policies ext.parsed_extension) exts)
            log')
unfolding extensions_validator validate
extensions_validator_result show_oid L l exts log =
    ⨾-Yields _ _ _ _ (no_duplicate_step-Yields (λ ext. ext.oid) _ exts)
      (for_each-Yields _ (λ ext. distinct_policies ext.parsed_extension)
        (λ ext. extension_step-Yields show_oid ext.critical ext.parsed_extension) exts)
      L l true log

-- An extension with a key usage of no flags is reported as an error, and the validator returns
-- true all the same.
pub extensions_validator_key_usage :
    (show_oid : Oid → Text) (ext : X509Extension) (ku : KeyUsage)
    → ext.parsed_extension ≡ key_usage ku
    → ku.flags ≡ 0
    → extensions_validator show_oid VecLogger vec_logger (ext ∷ []) empty_logger
      ≡ running true
          (record { warnings = []; errors = codes "KeyUsage: all flags are set to 0" ∷ [] })
unfolding extensions_validator validate ◌⨾◌ distinct_step skip fail_if for_each extension_step
    should_critical warn_if err_if vec_logger set_contains
extensions_validator_key_usage show_oid ext ku p z = rw (p, z)

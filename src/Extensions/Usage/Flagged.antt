-- ===== src/Extensions/Usage/Flagged.antt =====
-- The flags that the loop of `parse_extendedkeyusage` sets.
use x509_parser.Asn1.{Oid, oid_eq}
use x509_parser.Der.{Der}
use x509_parser.Extensions.{ExtendedKeyUsage}
use x509_parser.Extensions.Usage.{
  any_extended_key_usage, key_purpose, no_usage, parse_extendedkeyusage, usage_loop, usage_step,
}
use x509_parser.Extensions.Usage.Others.{has_flag, others-NoDuplicates, usage_loop_others}
use x509_parser.Extensions.Usage.Tracked.{Tracks, usage_loop-get}
use x509_parser.OidMap.{set_contains}
use x509_parser.OidMap.Entries.{NoDuplicates}
use x509_parser.Prelude.{
  Bool-cases, List, [], eq_of_list_eq, inl, inr, list_eq, not, refl, subst, sym, true, ◌&&◌, ◌≡◌,
}
use x509_parser.Result.{Slice, ok}

-- Each flag is set exactly where its identifier is in the list, and the other usages are the
-- identifiers of the list that have no flag, each once.
pub record Flagged (eku : ExtendedKeyUsage) (seq : List Oid) : Type 0 where
  pub any_lem : eku.any_usage ≡ set_contains any_extended_key_usage seq
  pub server_lem : eku.server_auth ≡ set_contains (key_purpose 1) seq
  pub client_lem : eku.client_auth ≡ set_contains (key_purpose 2) seq
  pub code_lem : eku.code_signing ≡ set_contains (key_purpose 3) seq
  pub email_lem : eku.email_protection ≡ set_contains (key_purpose 4) seq
  pub time_lem : eku.time_stamping ≡ set_contains (key_purpose 8) seq
  pub ocsp_lem : eku.ocsp_signing ≡ set_contains (key_purpose 9) seq
  pub others_lem : (k : Oid) → set_contains k eku.others ≡ (set_contains k seq && not (has_flag k))
  pub others_once : NoDuplicates eku.others

-- What one step does to all flags.
abbrev AllTrack : ExtendedKeyUsage → Oid → Type 0
AllTrack eku z =
    Tracks (λ e. e.any_usage) any_extended_key_usage eku z
    × Tracks (λ e. e.server_auth) (key_purpose 1) eku z
    × Tracks (λ e. e.client_auth) (key_purpose 2) eku z
    × Tracks (λ e. e.code_signing) (key_purpose 3) eku z
    × Tracks (λ e. e.email_protection) (key_purpose 4) eku z
    × Tracks (λ e. e.time_stamping) (key_purpose 8) eku z
    × Tracks (λ e. e.ocsp_signing) (key_purpose 9) eku z

-- At an identifier that is named, every test is decided.
at_name : (eku : ExtendedKeyUsage) (k z : Oid) → AllTrack eku k → oid_eq z k ≡ true → AllTrack eku z
at_name eku k z t q = subst (AllTrack eku) (sym (eq_of_list_eq z k q)) t

usage_step-AllTrack : (eku : ExtendedKeyUsage) (z : Oid) → AllTrack eku z
unfolding usage_step list_eq
usage_step-AllTrack eku z = elim (Bool-cases (oid_eq z any_extended_key_usage)) [
  | inl q ↦ at_name eku any_extended_key_usage z (refl, refl, refl, refl, refl, refl, refl) q
  | inr n0 ↦ elim (Bool-cases (oid_eq z (key_purpose 1))) [
    | inl q ↦ at_name eku (key_purpose 1) z (refl, refl, refl, refl, refl, refl, refl) q
    | inr n1 ↦ elim (Bool-cases (oid_eq z (key_purpose 2))) [
      | inl q ↦ at_name eku (key_purpose 2) z (refl, refl, refl, refl, refl, refl, refl) q
      | inr n2 ↦ elim (Bool-cases (oid_eq z (key_purpose 3))) [
        | inl q ↦ at_name eku (key_purpose 3) z (refl, refl, refl, refl, refl, refl, refl) q
        | inr n3 ↦ elim (Bool-cases (oid_eq z (key_purpose 4))) [
          | inl q ↦ at_name eku (key_purpose 4) z (refl, refl, refl, refl, refl, refl, refl) q
          | inr n4 ↦ elim (Bool-cases (oid_eq z (key_purpose 8))) [
            | inl q ↦ at_name eku (key_purpose 8) z (refl, refl, refl, refl, refl, refl, refl) q
            | inr n8 ↦ elim (Bool-cases (oid_eq z (key_purpose 9))) [
              | inl q ↦ at_name eku (key_purpose 9) z (refl, refl, refl, refl, refl, refl, refl) q
              | inr n9 ↦
                  rw (n0, n1, n2, n3, n4, n8, n9, usage_step)
                    (refl, refl, refl, refl, refl, refl, refl)
            ]
          ]
        ]
      ]
    ]
  ]
]

usage_loop-Flagged : (seq : List Oid) → Flagged (usage_loop [] no_usage seq) seq
unfolding set_contains
usage_loop-Flagged seq =
    let step = usage_step-AllTrack in
    record {
      any_lem =
          usage_loop-get (λ e. e.any_usage) any_extended_key_usage (λ e z. (step e z).0) [] no_usage
            seq refl;
      server_lem =
          usage_loop-get (λ e. e.server_auth) (key_purpose 1) (λ e z. (step e z).1) [] no_usage seq
            refl;
      client_lem =
          usage_loop-get (λ e. e.client_auth) (key_purpose 2) (λ e z. (step e z).2) [] no_usage seq
            refl;
      code_lem =
          usage_loop-get (λ e. e.code_signing) (key_purpose 3) (λ e z. (step e z).3) [] no_usage seq
            refl;
      email_lem =
          usage_loop-get (λ e. e.email_protection) (key_purpose 4) (λ e z. (step e z).4) [] no_usage
            seq refl;
      time_lem =
          usage_loop-get (λ e. e.time_stamping) (key_purpose 8) (λ e z. (step e z).5) [] no_usage
            seq refl;
      ocsp_lem =
          usage_loop-get (λ e. e.ocsp_signing) (key_purpose 9) (λ e z. (step e z).6) [] no_usage seq
            refl;
      others_lem = λ k. usage_loop_others k seq;
      others_once = others-NoDuplicates seq;
    }

-- If a list of identifiers can be read, the parser of the extended key usages returns usages in
-- which each of the seven flags is set exactly where its identifier occurs in the list, however
-- often it occurs, and the other usages are the identifiers of the list that have no flag, each
-- once.
pub parse_extendedkeyusage-Flagged :
    (d : Der) (i ret : Slice) (seq : List Oid)
    → d.oids_from_der i ≡ ok (ret, seq)
    → (eku : ExtendedKeyUsage) × (parse_extendedkeyusage d i ≡ ok (ret, eku)) × Flagged eku seq
unfolding parse_extendedkeyusage
parse_extendedkeyusage-Flagged d i ret seq h =
    (usage_loop [] no_usage seq, rw (h, parse_extendedkeyusage) refl, usage_loop-Flagged seq)

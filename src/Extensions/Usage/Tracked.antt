-- ===== src/Extensions/Usage/Tracked.antt =====
-- What the loop of `parse_extendedkeyusage` makes of something that its step tracks.
use x509_parser.Asn1.{Oid, oid_eq}
use x509_parser.Extensions.{ExtendedKeyUsage}
use x509_parser.Extensions.Usage.{usage_loop, usage_step}
use x509_parser.OidMap.{set_contains}
use x509_parser.Prelude.{
  Bool, Bool-cases, List, [], ap, eq_of_list_eq, false, inl, inr, refl, subst, sym, true, ◌||◌, ◌∙◌,
  ◌∷◌, ◌≡◌,
}

or_false : (b : Bool) → b || false ≡ b
or_false true = refl
or_false false = refl

or_swap : (a b c : Bool) → ((a || b) || c) ≡ (b || (a || c))
or_swap true true c = refl
or_swap true false c = refl
or_swap false b c = refl

-- A flag that one step of the loop sets where the identifier is `k`, and else keeps.
abbrev pub Tracks : (ExtendedKeyUsage → Bool) → Oid → ExtendedKeyUsage → Oid → Type 0
Tracks get k eku z = get (usage_step eku z) ≡ (oid_eq z k || get eku)

module _ (get : ExtendedKeyUsage → Bool) (k : Oid)
    (tracked : (eku : ExtendedKeyUsage) (z : Oid) → Tracks get k eku z) where
  pub usage_loop-get :
      (seen : List Oid) (eku : ExtendedKeyUsage) (seq : List Oid)
      → get eku ≡ set_contains k seen
      → get (usage_loop seen eku seq) ≡ (get eku || set_contains k seq)
  unfolding usage_loop set_contains
  usage_loop-get seen eku [] h = sym (or_false (get eku))
  usage_loop-get seen eku (oid ∷ seq) h = elim (Bool-cases (set_contains oid seen)) [
    | inl p ↦
        rw (p, usage_loop)
          (usage_loop-get seen eku seq h ∙ elim (Bool-cases (oid_eq oid k)) [
            | inl q ↦
                let e = subst (λ z. set_contains z seen ≡ true) (eq_of_list_eq oid k q) p in
                rw (q) (rw (h) (rw (e) refl))
            | inr n ↦ rw (n) refl
          ])
    | inr n ↦
        let t = tracked eku oid in
        rw (n, usage_loop)
          (usage_loop-get (oid ∷ seen) (usage_step eku oid) seq (t ∙ ap (λ b. oid_eq oid k || b) h)
            ∙ (ap (λ b. b || set_contains k seq) t
                ∙ or_swap (oid_eq oid k) (get eku) (set_contains k seq)))
  ]

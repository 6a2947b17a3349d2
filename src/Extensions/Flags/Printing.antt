-- ===== src/Extensions/Flags/Printing.antt =====
-- The printed flags are the names of the set bits, in order, separated by commas.
use x509_parser.Bits.{bit}
use x509_parser.Extensions.{KeyUsage, NsCertType, ReasonFlags}
use x509_parser.Extensions.Flags.{
  indexed_text, key_usage_display, key_usage_flags, ns_cert_type_display, ns_cert_type_flags,
  reason_flags, reason_flags_display, shifted_text, with_comma,
}
use x509_parser.Prelude.{
  Bool-cases, List, Text, [], ap, append-nil, append_assoc, arith, false, if◌then◌else◌, inl, inr,
  refl, suc, sym, true, ℕ, ◌++◌, ◌/◌, ◌==◌, ◌^◌, ◌∙◌, ◌∷◌, ◌≡◌,
}
use x509_parser.Utils.{pop}
use native.Mathlib.Nat.{div-div-eq-div-mul, pow-suc}

-- The names whose bits are set, from bit `idx` on.
abbrev pub set_names : ℕ → ℕ → List Text → List Text
set_names flags idx [] = []
set_names flags idx (s ∷ names) =
    let rest = set_names flags (suc idx) names in if bit flags idx == 1 then s ∷ rest else rest

abbrev pub comma_separated : List Text → Text
comma_separated [] = []
comma_separated (s ∷ []) = s
comma_separated (s ∷ t ∷ names) = with_comma s ++ comma_separated (t ∷ names)

abbrev each_with_comma : List Text → Text
each_with_comma [] = []
each_with_comma (s ∷ names) = with_comma s ++ each_with_comma names

indexed_text_lem :
    (flags idx : ℕ) (names : List Text) (acc : Text)
    → indexed_text flags idx names acc ≡ acc ++ each_with_comma (set_names flags idx names)
unfolding indexed_text
indexed_text_lem flags idx [] acc = sym (append-nil acc)
indexed_text_lem flags idx (s ∷ names) acc = elim (Bool-cases (bit flags idx == 1)) [
  | inl p ↦
      let q : (bit flags idx == 0) ≡ false = ground arith in
      rw (q, p)
        (indexed_text_lem flags (suc idx) names (acc ++ with_comma s)
          ∙ append_assoc acc (with_comma s) _)
  | inr n ↦
      let q : (bit flags idx == 0) ≡ true = ground arith in
      rw (q, n) (indexed_text_lem flags (suc idx) names acc)
]

shifted-indexed :
    (flags idx : ℕ) (names : List Text) (s : Text)
    → shifted_text (flags / 2 ^ idx) names s ≡ indexed_text flags idx names s
unfolding indexed_text shifted_text
shifted-indexed flags idx [] s = refl
shifted-indexed flags idx (t ∷ names) s =
    let e : flags / 2 ^ idx / 2 ≡ flags / 2 ^ suc idx =
      div-div-eq-div-mul flags (2 ^ idx) 2 ∙ ap (λ z. flags / z) (sym (pow-suc 2 idx)) in
    rw e (shifted-indexed flags (suc idx) names _)

pop-concat : (s : Text) (c : ℕ) → pop (s ++ c ∷ []) ≡ s
unfolding pop
pop-concat [] c = refl
pop-concat (d ∷ []) c = refl
pop-concat (d ∷ e ∷ s) c = ap (◌∷◌ d) (pop-concat (e ∷ s) c)

each_with_comma_lem :
    (s : Text) (names : List Text)
    → each_with_comma (s ∷ names) ≡ (comma_separated (s ∷ names) ++ b',' ∷ []) ++ b' ' ∷ []
each_with_comma_lem s [] = simp (append-nil, append_assoc)
each_with_comma_lem s (t ∷ names) =
    ap (λ z. with_comma s ++ z) (each_with_comma_lem t names) ∙ simp append_assoc

-- Without its last comma and space, the text is comma separated.
pop-each_with_comma :
    (names : List Text) → pop (pop (each_with_comma names)) ≡ comma_separated names
unfolding pop
pop-each_with_comma [] = refl
pop-each_with_comma (s ∷ names) =
    ap (λ z. pop (pop z)) (each_with_comma_lem s names)
    ∙ ap pop (pop-concat (comma_separated (s ∷ names) ++ b',' ∷ []) b' ')
    ∙ pop-concat (comma_separated (s ∷ names)) b','

popped :
    (flags : ℕ) (names : List Text)
    → pop (pop (indexed_text flags 0 names [])) ≡ comma_separated (set_names flags 0 names)
popped flags names =
    ap (λ z. pop (pop z)) (indexed_text_lem flags 0 names [])
    ∙ pop-each_with_comma (set_names flags 0 names)

popped_shifted :
    (flags : ℕ) (names : List Text)
    → pop (pop (shifted_text flags names [])) ≡ comma_separated (set_names flags 0 names)
popped_shifted flags names =
    let joined : flags ≡ flags / 2 ^ 0 = omega arith in
    ap (λ z. pop (pop (shifted_text z names []))) joined
    ∙ ap (λ z. pop (pop z)) (shifted-indexed flags 0 names [])
    ∙ popped flags names

-- Each of the three kinds of flags prints as the names of its set bits, in order, separated by
-- commas: the fold over indices of the key usage, and the shifting loops of the other two.
pub flags_display :
    (ku : KeyUsage) (ns : NsCertType) (r : ReasonFlags)
    → (key_usage_display ku ≡ comma_separated (set_names ku.flags 0 key_usage_flags))
      × (ns_cert_type_display ns ≡ comma_separated (set_names ns.flags 0 ns_cert_type_flags))
      × (reason_flags_display r ≡ comma_separated (set_names r.flags 0 reason_flags))
unfolding key_usage_display ns_cert_type_display reason_flags_display
flags_display ku ns r = (
  popped ku.flags key_usage_flags,
  popped_shifted ns.flags ns_cert_type_flags,
  popped_shifted r.flags reason_flags,
)

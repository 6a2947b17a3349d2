-- ===== src/Pem/Lines.antt =====
-- The lines of a buffer, and what is left of it after some of them.
use x509_parser.Prelude.{
  Bool-cases, Bytes, List, [], ap, arith, concat, inl, inr, onto_first, refl, split_lines, ℕ, ◌==◌,
  ◌∙◌, ◌∷◌, ◌≡◌,
}

concat-onto_first : (b : ℕ) (ls : List Bytes) → concat (onto_first b ls) ≡ b ∷ concat ls
unfolding onto_first
concat-onto_first b [] = refl
concat-onto_first b (l ∷ ls) = refl

pub concat-split_lines : (bs : Bytes) → concat (split_lines bs) ≡ bs
unfolding split_lines
concat-split_lines [] = refl
concat-split_lines (b ∷ bs) = elim (Bool-cases (b == b'\n')) [
  | inl h ↦ rw (h, split_lines) (ap (λ xs. b ∷ xs) (concat-split_lines bs))
  | inr h ↦
      rw (h, split_lines)
        (concat-onto_first b (split_lines bs) ∙ ap (λ xs. b ∷ xs) (concat-split_lines bs))
]

-- Lines that are those of their own text: only the last one may have no end of line.
abbrev pub Split : List Bytes → Type 0
Split ls = split_lines (concat ls) ≡ ls

pub split_lines-Split : (bs : Bytes) → Split (split_lines bs)
split_lines-Split bs = ap split_lines (concat-split_lines bs)

onto_first-tail :
    (b : ℕ) (ls : List Bytes) (l : Bytes) (ms : List Bytes)
    → ((l' : Bytes) (ns : List Bytes) → ls ≡ l' ∷ ns → Split ns)
    → onto_first b ls ≡ l ∷ ms
    → Split ms
unfolding onto_first split_lines
onto_first-tail b [] l ms f h = ground arith
onto_first-tail b (p ∷ ps) l ms f h = ground (arith, f p ps refl)

split_lines-tail : (bs l : Bytes) (ls : List Bytes) → split_lines bs ≡ l ∷ ls → Split ls
unfolding split_lines
split_lines-tail [] l ls h = cc
split_lines-tail (b ∷ bs) l ls h = elim (Bool-cases (b == b'\n')) [
  | inl k ↦
      let e : (b ∷ []) ∷ split_lines bs ≡ l ∷ ls = rw (k, split_lines) at h in
      ground (arith, split_lines-Split bs)
  | inr k ↦ onto_first-tail b (split_lines bs) l ls (split_lines-tail bs) (rw (k, split_lines) at h)
]

pub Split-tail : (l : Bytes) (ls : List Bytes) → Split (l ∷ ls) → Split ls
Split-tail l ls h = split_lines-tail (concat (l ∷ ls)) l ls h

-- ===== src/Pem/Printed.antt =====
-- The text of PEM blocks, as lines, and how each kind of line is read.
use x509_parser.Pem.{begin_mark, dashes, end_mark, header_label, line_text}
use x509_parser.Prelude.{
  All, Bool-cases, Bytes, List, Text, [], ap, arith, concat, false, inl, inr, is_whitespace, length,
  map, onto_first, onto_trimmed, refl, split, split_from, split_lines, str_starts_with,
  strip_prefix, suc, trim_end, zero, ℕ, ◌++◌, ◌-◌, ◌<◌, ◌==◌, ◌∙◌, ◌∷◌, ◌≡◌, ◌≢◌,
}
use x509_parser.Result.{ok}
use x509_parser.Utf8.{from_utf8_ascii}

-- A character of a line of text, and one of a line of a block's body.
abbrev pub Plain : ℕ → Type 0
Plain c = (c < 0x80) × (c ≢ b'\n')

abbrev pub Dashless : ℕ → Type 0
Dashless c = c ≢ b'-'

abbrev pub Coded : ℕ → Type 0
Coded c = Plain c × Dashless c × (is_whitespace c ≡ false)

abbrev pub print_line : Text → Bytes
print_line t = t ++ b'\n' ∷ []

pub print_line_ascii : (t : Text) → All Plain t → All (λ c. c < 0x80) (print_line t)
print_line_ascii [] h = (omega arith, tt)
print_line_ascii (c ∷ t) (h, k) = (h.0, print_line_ascii t k)

pub line_text-print_line : (t : Text) → All Plain t → line_text (print_line t) ≡ ok (print_line t)
unfolding line_text
line_text-print_line t h =
    rw (from_utf8_ascii (print_line t) (print_line_ascii t h), line_text) refl

-- A line of text in front of a buffer is its first line.
pub split_lines-print_line :
    (t : Text) (rest : Bytes)
    → All Plain t
    → split_lines (print_line t ++ rest) ≡ print_line t ∷ split_lines rest
unfolding split_lines onto_first
split_lines-print_line [] rest h = refl
split_lines-print_line (c ∷ t) rest (h, k) = ground (arith, split_lines-print_line t rest k)

-- The lines of a printed text are the lines that were printed.
pub split_lines-print :
    (ts : List Text)
    → All (All Plain) ts
    → split_lines (concat (map print_line ts)) ≡ map print_line ts
unfolding split_lines
split_lines-print [] h = refl
split_lines-print (t ∷ ts) (h, k) =
    split_lines-print_line t (concat (map print_line ts)) h
    ∙ ap (λ ls. print_line t ∷ ls) (split_lines-print ts k)

pub trim_end-print_line : (t : Text) → All Coded t → trim_end (print_line t) ≡ t
unfolding trim_end onto_trimmed is_whitespace
trim_end-print_line [] h = refl
trim_end-print_line (c ∷ []) ((p, d, w), k) = rw (w) refl
trim_end-print_line (c ∷ d ∷ t) (h, k) = rw (trim_end-print_line (d ∷ t) k) refl

pub body_starts_no_end : (t : Text) → All Coded t → str_starts_with end_mark (print_line t) ≡ false
unfolding str_starts_with
body_starts_no_end [] h = refl
body_starts_no_end (c ∷ t) ((p, d, w), k) = ground arith

eq_dash : (c : ℕ) → Dashless c → (c == b'-') ≡ false
eq_dash c h = ground arith

Dashless-piece :
    (u : Text) (tail : Text)
    → All Dashless u
    → split_from dashes 0 (u ++ dashes ++ tail) ≡ u ∷ split_from dashes 0 tail
unfolding split_from str_starts_with onto_first
Dashless-piece [] tail h = refl
Dashless-piece (c ∷ u) tail (h, k) =
    rw (eq_dash c h, split_from, str_starts_with) (ap (onto_first c) (Dashless-piece u tail k))

Dashless-only : (u : Text) → All Dashless u → split u (b'-' ∷ []) ≡ u ∷ []
unfolding split split_from str_starts_with onto_first
Dashless-only [] h = refl
Dashless-only (c ∷ u) (h, k) =
    rw (eq_dash c h, split_from, str_starts_with) (ap (onto_first c) (Dashless-only u k))

abbrev Pieces : List Text → Type 0
Pieces ts = (p : Text) × (ps : List Text) × (ts ≡ p ∷ ps)

onto_first-Pieces : (c : ℕ) (ts : List Text) → Pieces (onto_first c ts)
unfolding onto_first
onto_first-Pieces c [] = (c ∷ [], [], refl)
onto_first-Pieces c (t ∷ ts) = (c ∷ t, ts, refl)

split_from-Pieces : (sep : Text) (k : ℕ) (s : Text) → Pieces (split_from sep k s)
unfolding split_from
split_from-Pieces sep k [] = ([], [], refl)
split_from-Pieces sep (suc k) (c ∷ s) = split_from-Pieces sep k s
split_from-Pieces sep zero (c ∷ s) = elim (Bool-cases (str_starts_with sep (c ∷ s))) [
  | inl h ↦ rw (h, split_from) ([], split_from sep (length sep - 1) s, refl)
  | inr h ↦ rw (h, split_from) (onto_first-Pieces c (split_from sep 0 s))
]

pub header_label-print :
    (label tail : Text)
    → All Dashless label
    → header_label (begin_mark ++ label ++ dashes ++ tail) ≡ ok label
unfolding header_label split strip_prefix onto_first str_starts_with
header_label-print label tail h =
    let (p, ps, e) = split_from-Pieces dashes 0 tail in
    rw (Dashless-piece label tail h, e, Dashless-only label h) refl

dashed_piece :
    (front : Text) (c : ℕ) (rest tail : Text)
    → All Dashless front
    → All Dashless (c ∷ rest)
    → split_from dashes 0 ((front ++ b'-' ∷ c ∷ rest) ++ dashes ++ tail)
      ≡ (front ++ b'-' ∷ c ∷ rest) ∷ split_from dashes 0 tail
unfolding split_from str_starts_with onto_first
dashed_piece [] c rest tail h k =
    rw (eq_dash c k.0, split_from, str_starts_with)
      (ap (onto_first b'-') (Dashless-piece (c ∷ rest) tail k))
dashed_piece (b ∷ front) c rest tail (h, m) k =
    rw (eq_dash b h, split_from, str_starts_with)
      (ap (onto_first b) (dashed_piece front c rest tail m k))

dashed_first :
    (front rest : Text)
    → All Dashless front
    → split (front ++ b'-' ∷ rest) (b'-' ∷ []) ≡ front ∷ split rest (b'-' ∷ [])
unfolding split split_from str_starts_with onto_first
dashed_first [] rest h = refl
dashed_first (b ∷ front) rest (h, m) =
    rw (eq_dash b h, split_from, str_starts_with) (ap (onto_first b) (dashed_first front rest m))

-- A label that has one dash, with something after it, is cut at the dash.
pub header_label_cut :
    (front : Text) (c : ℕ) (rest tail : Text)
    → All Dashless front
    → All Dashless (c ∷ rest)
    → header_label (begin_mark ++ (front ++ b'-' ∷ c ∷ rest) ++ dashes ++ tail) ≡ ok front
unfolding header_label split strip_prefix onto_first str_starts_with
header_label_cut front c rest tail h k =
    let (p, ps, e) = split_from-Pieces dashes 0 tail in
    rw (dashed_piece front c rest tail h k, e, dashed_first front (c ∷ rest) h) refl

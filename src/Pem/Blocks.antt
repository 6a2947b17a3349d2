-- ===== src/Pem/Blocks.antt =====
-- PEM blocks as text, and how the two loops of `Pem::read` go over their lines.
use x509_parser.Pem.{Reader, begin_loop, begin_mark, body_loop, dashes, end_mark}
use x509_parser.Pem.Ends.{Ignored}
use x509_parser.Pem.Printed.{
  Coded, Dashless, Plain, body_starts_no_end, header_label-print, line_text-print_line, print_line,
  trim_end-print_line,
}
use x509_parser.Prelude.{
  All, All-append, Bytes, List, Text, [], ap, append-nil, append_assoc, arith, concat, false,
  length, map, refl, str_starts_with, ℕ, ◌++◌, ◌+◌, ◌∙◌, ◌∷◌, ◌≡◌,
}
use x509_parser.Result.{ok}

-- A block, with the lines of text before it and what its last line says after its mark.
pub record Block : Type 0 where
  pub before : List Text
  pub label : Text
  pub body : List Text
  pub ending : Text

abbrev pub Skipped : Text → Type 0
Skipped t = All Plain t × (str_starts_with begin_mark (print_line t) ≡ false)

pub record Printable (b : Block) : Type 0 where
  pub before_skipped : All Skipped b.before
  pub label_plain : All Plain b.label
  pub label_dashless : All Dashless b.label
  pub body_coded : All (All Coded) b.body
  pub ending_plain : All Plain b.ending

abbrev pub header_line : Block → Text
header_line b = begin_mark ++ b.label ++ dashes

abbrev pub end_line : Block → Text
end_line b = end_mark ++ b.ending

abbrev pub block_lines : Block → List Text
block_lines b = b.before ++ header_line b ∷ (b.body ++ end_line b ∷ [])

-- Blocks, and the lines of text after them.
abbrev pub file_lines : List Block → List Text → List Text
file_lines [] trailer = trailer
file_lines (b ∷ bs) trailer = block_lines b ++ file_lines bs trailer

abbrev pub print : List Block → List Text → Bytes
print bs trailer = concat (map print_line (file_lines bs trailer))

abbrev pub reader : ℕ → List Bytes → Reader
reader p ls = record { position = p; lines = ls }

begin-Plain : All Plain begin_mark
begin-Plain = ground arith

dashes-Plain : All Plain dashes
dashes-Plain = ground arith

end-Plain : All Plain end_mark
end-Plain = ground arith

header-Plain : (b : Block) → Printable b → All Plain (header_line b)
header-Plain b w =
    All-append Plain (begin_mark ++ b.label) dashes
      (All-append Plain begin_mark b.label begin-Plain w.label_plain) dashes-Plain

end_line-Plain : (b : Block) → Printable b → All Plain (end_line b)
end_line-Plain b w = All-append Plain end_mark b.ending end-Plain w.ending_plain

begin_loop-header :
    (b : Block) (p : ℕ) (ls : List Bytes)
    → Printable b
    → (q : ℕ) × (begin_loop p (print_line (header_line b) ∷ ls) ≡ (ok b.label, reader q ls))
unfolding begin_loop str_starts_with
begin_loop-header b p ls w =
    let plain = line_text-print_line (header_line b) (header-Plain b w) in
    let label = header_label-print b.label (b'\n' ∷ []) w.label_dashless in
    let q = p + length (print_line (header_line b)) in
    (q, rw (plain, begin_loop) (ap (λ v. (v, reader q ls)) label))

pub begin_loop-Skipped :
    (ts : List Text) (b : Block) (p : ℕ) (ls : List Bytes)
    → All Skipped ts
    → Printable b
    → (q : ℕ) × (begin_loop p (map print_line ts ++ print_line (header_line b) ∷ ls)
        ≡ (ok b.label, reader q ls))
unfolding begin_loop
begin_loop-Skipped [] b p ls s w = begin_loop-header b p ls w
begin_loop-Skipped (t ∷ ts) b p ls ((plain, skip), s) w =
    let (q, e) = begin_loop-Skipped ts b (p + length (print_line t)) ls s w in
    (q, rw (line_text-print_line t plain, skip, begin_loop) e)

body_loop-end :
    (b : Block) (s : Text) (p : ℕ) (ls : List Bytes)
    → Printable b
    → (q : ℕ) × (body_loop s p (print_line (end_line b) ∷ ls) ≡ (ok s, reader q ls))
unfolding body_loop str_starts_with
body_loop-end b s p ls w = (
  p + length (print_line (end_line b)),
  rw (line_text-print_line (end_line b) (end_line-Plain b w), body_loop) refl,
)

Coded-Plain : (t : Text) → All Coded t → All Plain t
Coded-Plain [] h = tt
Coded-Plain (c ∷ t) (h, k) = (h.0, Coded-Plain t k)

pub body_loop-body :
    (ts : List Text) (b : Block) (s : Text) (p : ℕ) (ls : List Bytes)
    → All (All Coded) ts
    → Printable b
    → (q : ℕ) × (body_loop s p (map print_line ts ++ print_line (end_line b) ∷ ls)
        ≡ (ok (s ++ concat ts), reader q ls))
unfolding body_loop
body_loop-body [] b s p ls c w = rw (append-nil s) (body_loop-end b s p ls w)
body_loop-body (t ∷ ts) b s p ls (c, cs) w =
    let (q, e) = body_loop-body ts b (s ++ t) (p + length (print_line t)) ls cs w in
    (
      q,
      rw
          (
            line_text-print_line t (Coded-Plain t c),
            body_starts_no_end t c,
            trim_end-print_line t c,
            body_loop,
          )
          (e ∙ ap (λ x. (ok x, reader q ls)) (append_assoc s t (concat ts))),
    )

pub Skipped-Ignored : (ts : List Text) → All Skipped ts → All Ignored (map print_line ts)
Skipped-Ignored [] s = tt
Skipped-Ignored (t ∷ ts) ((plain, skip), s) =
    ((print_line t, line_text-print_line t plain, skip), Skipped-Ignored ts s)

Skipped-Plain : (ts : List Text) → All Skipped ts → All (All Plain) ts
Skipped-Plain [] s = tt
Skipped-Plain (t ∷ ts) (s, ss) = (s.0, Skipped-Plain ts ss)

lines-Plain : (ts : List Text) → All (All Coded) ts → All (All Plain) ts
lines-Plain [] s = tt
lines-Plain (t ∷ ts) (s, ss) = (Coded-Plain t s, lines-Plain ts ss)

block-Plain : (b : Block) → Printable b → All (All Plain) (block_lines b)
block-Plain b w =
    All-append (All Plain) b.before (header_line b ∷ (b.body ++ end_line b ∷ []))
      (Skipped-Plain b.before w.before_skipped)
      (
        header-Plain b w,
        All-append (All Plain) b.body (end_line b ∷ []) (lines-Plain b.body w.body_coded)
            (end_line-Plain b w, tt),
      )

pub file-Plain :
    (bs : List Block) (trailer : List Text)
    → All Printable bs
    → All Skipped trailer
    → All (All Plain) (file_lines bs trailer)
file-Plain [] trailer w s = Skipped-Plain trailer s
file-Plain (b ∷ bs) trailer (w, ws) s =
    All-append (All Plain) (block_lines b) (file_lines bs trailer) (block-Plain b w)
      (file-Plain bs trailer ws s)

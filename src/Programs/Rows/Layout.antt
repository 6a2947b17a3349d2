-- ===== src/Programs/Rows/Layout.antt =====
-- The rows hold all bytes in order, and all rows but the last are full.
use x509_parser.Bits.Laws.{AllBytes}
use x509_parser.Prelude.{
  Bytes, List, Text, [], ap, append_assoc, ap₂, arith, concat, drop, length, map, refl, some, suc,
  sym, take, take-append-drop, zero, ℕ, ◌*◌, ◌++◌, ◌-◌, ◌<◌, ◌∙◌, ◌∷◌, ◌≡◌, ◌≤◌,
}
use x509_parser.Programs.Rows.{chunks, chunks_from, format_number_to_hex_with_colon, row_text}
use x509_parser.Utils.{hex_colon, pop}
use x509_parser.Utils.Serial.{foldl-hexed, hexed, read_serial, read_serial-pop}

-- Every text but the last has three characters for each of `size` bytes, and the last has from
-- one byte to `size`.
abbrev pub IsLaidOut : ℕ → List Text → Type 0
IsLaidOut size [] = Unit
IsLaidOut size (r ∷ []) = (3 ≤ length r) × (length r ≤ 3 * size)
IsLaidOut size (r ∷ s ∷ rows) = (length r ≡ 3 * size) × IsLaidOut size (s ∷ rows)

row_text-hexed : (bs : Bytes) → row_text bs ≡ hexed bs
unfolding row_text
row_text-hexed bs = foldl-hexed [] bs

length-hexed : (bs : Bytes) → length (hexed bs) ≡ 3 * length bs
unfolding hexed hex_colon
length-hexed [] = omega arith
length-hexed (b ∷ bs) = omega (arith, length-hexed bs)

hexed-append : (bs cs : Bytes) → hexed (bs ++ cs) ≡ hexed bs ++ hexed cs
unfolding hexed
hexed-append [] cs = refl
hexed-append (b ∷ bs) cs =
    rw (hexed-append bs cs) (sym (append_assoc (hex_colon b) (hexed bs) (hexed cs)))

length-take : (n : ℕ) (bs : Bytes) → n ≤ length bs → length (take n bs) ≡ n
length-take zero bs h = omega arith
length-take (suc n) [] h = absurd (omega arith)
length-take (suc n) (b ∷ bs) h = omega (arith, length-take n bs (omega arith))

length-take_le : (n : ℕ) (bs : Bytes) → (length (take n bs) ≤ n) × (length (take n bs) ≤ length bs)
length-take_le zero bs = (omega arith, omega arith)
length-take_le (suc n) [] = (omega arith, omega arith)
length-take_le (suc n) (b ∷ bs) = let (p, q) = length-take_le n bs in (omega arith, omega arith)

length-drop : (n : ℕ) (bs : Bytes) → length (drop n bs) ≡ length bs - n
length-drop zero bs = omega arith
length-drop (suc n) [] = omega arith
length-drop (suc n) (b ∷ bs) = omega (arith, length-drop n bs)

-- With as many rounds as bytes, no byte is left.
concat-chunks_from :
    (rounds size : ℕ) (bs : Bytes)
    → length bs ≤ rounds
    → concat (map row_text (chunks_from rounds (suc size) bs)) ≡ hexed bs
unfolding chunks_from hexed
concat-chunks_from zero size [] h = refl
concat-chunks_from zero size (b ∷ bs) h = absurd (omega arith)
concat-chunks_from (suc rounds) size [] h = refl
concat-chunks_from (suc rounds) size (b ∷ bs) h =
    let r = b ∷ take size bs in
    let rest = drop size bs in
    ap₂ ◌++◌ (row_text-hexed r)
      (concat-chunks_from rounds size rest (omega (arith, length-drop size bs)))
    ∙ sym (hexed-append r rest)
    ∙ ap hexed (ap (λ z. b ∷ z) (take-append-drop size bs))

length-row_text : (bs : Bytes) → length (row_text bs) ≡ 3 * length bs
length-row_text bs = ap length (row_text-hexed bs) ∙ length-hexed bs

-- A row in front of the rows of what follows it.
row_before :
    (rounds size : ℕ) (r : Text) (rest : Bytes)
    → (3 ≤ length r) × (length r ≤ 3 * suc size)
    → (1 ≤ length rest → length r ≡ 3 * suc size)
    → IsLaidOut (suc size) (map row_text (chunks_from rounds (suc size) rest))
    → IsLaidOut (suc size) (r ∷ map row_text (chunks_from rounds (suc size) rest))
unfolding chunks_from
row_before zero size r rest h full k = h
row_before (suc rounds) size r [] h full k = h
row_before (suc rounds) size r (c ∷ cs) h full k = (full (omega arith), k)

chunks_from-IsLaidOut :
    (rounds size : ℕ) (bs : Bytes)
    → IsLaidOut (suc size) (map row_text (chunks_from rounds (suc size) bs))
unfolding chunks_from
chunks_from-IsLaidOut zero size bs = tt
chunks_from-IsLaidOut (suc rounds) size [] = tt
chunks_from-IsLaidOut (suc rounds) size (b ∷ bs) =
    let row = length-row_text (b ∷ take size bs) in
    let bounds = length-take_le size bs in
    row_before rounds size (row_text (b ∷ take size bs)) (drop size bs) (omega arith, omega arith)
      (λ some_left. full (omega (arith, length-drop size bs)) row)
      (chunks_from-IsLaidOut rounds size (drop size bs))
  where
    full :
        size ≤ length bs
        → length (row_text (b ∷ take size bs)) ≡ 3 * length (b ∷ take size bs)
        → length (row_text (b ∷ take size bs)) ≡ 3 * suc size
    full h row = omega (arith, length-take size bs h)

-- For a row size that is not zero, the function that formats bytes returns rows. All rows but the
-- last have three characters for each of `row_size` bytes, and the last has from one byte to
-- `row_size`; and reading all rows in order, without the last colon, gives the bytes back.
pub format_number_to_hex_with_colon-IsLaidOut :
    (b : Bytes) (row_size : ℕ)
    → AllBytes b
    → 0 < row_size
    → (rows : List Text) × (format_number_to_hex_with_colon b row_size ≡ some rows)
      × IsLaidOut row_size rows
      × (read_serial (pop (concat rows)) ≡ b)
unfolding format_number_to_hex_with_colon chunks
format_number_to_hex_with_colon-IsLaidOut b zero a h = absurd (omega arith)
format_number_to_hex_with_colon-IsLaidOut b (suc n) a h = (
  map row_text (chunks_from (length b) (suc n) b),
  refl,
  chunks_from-IsLaidOut (length b) n b,
  ap (λ s. read_serial (pop s)) (concat-chunks_from (length b) n b (omega arith))
      ∙ read_serial-pop b a,
)

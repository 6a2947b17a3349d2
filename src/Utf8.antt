-- ===== src/Utf8.antt =====
-- `std::str::from_utf8`.
use x509_parser.Prelude.{
  All, Bytes, Option, Text, [], arith, if◌then◌else◌, leb, ltb, none, refl, some, ℕ, ◌&&◌, ◌*◌,
  ◌++◌, ◌+◌, ◌-◌, ◌<◌, ◌==◌, ◌∷◌, ◌≡◌, ◌≤◌,
}

-- The decoder between two bytes: how many are still to come, the range of the next one, and the
-- value read so far.
record Decoder : Type 0 where
  need : ℕ
  low : ℕ
  high : ℕ
  value : ℕ

abbrev start : Decoder
start = record { need = 0; low = 0x80; high = 0xbf; value = 0 }

abbrev expect : ℕ → ℕ → ℕ → ℕ → Option (Text × Decoder)
expect need low high value =
    some ([], record { need = need; low = low; high = high; value = value })

lead : ℕ → Option (Text × Decoder)
lead b =
    if ltb b 0x80
    then some (b ∷ [], start)
    else if ltb b 0xc2
    then none
    else if ltb b 0xe0
    then expect 1 0x80 0xbf (b - 0xc0)
    else if b == 0xe0
    then expect 2 0xa0 0xbf 0
    else if b == 0xed
    then expect 2 0x80 0x9f 0xd
    else if ltb b 0xf0
    then expect 2 0x80 0xbf (b - 0xe0)
    else if b == 0xf0
    then expect 3 0x90 0xbf 0
    else if ltb b 0xf4
    then expect 3 0x80 0xbf (b - 0xf0)
    else if b == 0xf4
    then expect 3 0x80 0x8f 4
    else none

continuation : Decoder → ℕ → Option (Text × Decoder)
continuation s b =
    let value = s.value * 64 + (b - 0x80) in
    if leb s.low b && leb b s.high
    then (if s.need == 1 then some (value ∷ [], start) else expect (s.need - 1) 0x80 0xbf value)
    else none

next : Decoder → ℕ → Option (Text × Decoder)
next s b = if s.need == 0 then lead b else continuation s b

decode : Decoder → Bytes → Option Text
decode s [] = if s.need == 0 then some [] else none
decode s (b ∷ bs) = elim (next s b) [
  | none ↦ none
  | some (out, s') ↦ elim (decode s' bs) [ none ↦ none | some rest ↦ some (out ++ rest) ]
]

unfoldable pub from_utf8 : Bytes → Option Text
unfolding decode next lead continuation
from_utf8 bytes = decode start bytes

from_utf8_test :
    from_utf8 (0xc3 ∷ 0xa9 ∷ 0x41 ∷ 0xe2 ∷ 0x82 ∷ 0xac ∷ []) ≡ some (0xe9 ∷ 0x41 ∷ 0x20ac ∷ [])
unfolding from_utf8
from_utf8_test = refl

decode_ascii : (bs : Bytes) → All (λ b. b < 0x80) bs → decode start bs ≡ some bs
unfolding decode next lead
decode_ascii [] h = refl
decode_ascii (b ∷ bs) (small, rest) = ground (arith, decode_ascii bs rest)

-- ASCII bytes are the text with the same numbers.
pub from_utf8_ascii : (bs : Bytes) → All (λ b. b < 0x80) bs → from_utf8 bs ≡ some bs
unfolding from_utf8
from_utf8_ascii bs h = decode_ascii bs h

-- A continuation byte after a character of one byte is no UTF-8.
pub from_utf8_continuation :
    (a b : ℕ) (bs : Bytes) → a < 0x80 → 0x80 ≤ b → b < 0xc2 → from_utf8 (a ∷ b ∷ bs) ≡ none
unfolding from_utf8 decode next lead
from_utf8_continuation a b bs ha low high = ground arith

-- ===== src/Utils/Serial.antt =====
-- `format_serial` loses nothing: the bytes can be read back from the text.
use x509_parser.Bits.Laws.{AllBytes}
use x509_parser.Prelude.{
  Bytes, Text, [], ap, append-nil, append_assoc, ap₂, arith, foldl, if◌then◌else◌, ltb, refl, sym,
  ℕ, ◌%◌, ◌*◌, ◌++◌, ◌+◌, ◌-◌, ◌/◌, ◌<◌, ◌∙◌, ◌∷◌, ◌≡◌,
}
use x509_parser.Utils.{format_serial, hex_colon, hex_digit, pop}

-- The value of a lower-case hex digit.
abbrev pub digit_value : ℕ → ℕ
digit_value c = if ltb c 97 then c - 48 else c - 87

-- The bytes of pairs of digits, each pair separated by one character.
unfoldable pub read_serial : Text → Bytes
read_serial (h ∷ l ∷ []) = (digit_value h * 16 + digit_value l) ∷ []
read_serial (h ∷ l ∷ c ∷ s) = (digit_value h * 16 + digit_value l) ∷ read_serial s
read_serial _ = []

digit_value-hex_digit : (d : ℕ) → d < 16 → digit_value (hex_digit d) ≡ d
unfolding hex_digit
digit_value-hex_digit d h = ground arith

byte_read :
    (b : ℕ) → b < 256 → digit_value (hex_digit (b / 16)) * 16 + digit_value (hex_digit (b % 16)) ≡ b
byte_read b h =
    let high = digit_value-hex_digit (b / 16) (omega arith) in
    let low = digit_value-hex_digit (b % 16) (omega arith) in rw (high, low) (omega arith)

-- The text before its last separator is dropped.
unfoldable pub hexed : Bytes → Text
hexed [] = []
hexed (b ∷ bs) = hex_colon b ++ hexed bs

pub foldl-hexed :
    (acc : Text) (bs : Bytes) → foldl (λ a b. a ++ hex_colon b) acc bs ≡ acc ++ hexed bs
unfolding hexed
foldl-hexed acc [] = sym (append-nil acc)
foldl-hexed acc (b ∷ bs) =
    foldl-hexed (acc ++ hex_colon b) bs ∙ append_assoc acc (hex_colon b) (hexed bs)

pub read_serial-pop : (bs : Bytes) → AllBytes bs → read_serial (pop (hexed bs)) ≡ bs
unfolding hexed hex_colon pop read_serial
read_serial-pop [] a = refl
read_serial-pop (b ∷ []) a = ap (λ x. x ∷ []) (byte_read b a.0)
read_serial-pop (b ∷ c ∷ bs) a = ap₂ ◌∷◌ (byte_read b a.0) (read_serial-pop (c ∷ bs) a.1)

-- Reading the text of a serial number back gives its bytes.
pub read_serial-format_serial : (bs : Bytes) → AllBytes bs → read_serial (format_serial bs) ≡ bs
unfolding format_serial
read_serial-format_serial bs a =
    ap (λ s. read_serial (pop s)) (foldl-hexed [] bs) ∙ read_serial-pop bs a

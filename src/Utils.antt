-- ===== src/Utils.antt =====
-- src/utils.rs: the colon-separated hex form of a serial number.
pub mod Serial
use x509_parser.Prelude.{
  Bytes, Text, [], codes, foldl, if◌then◌else◌, ltb, refl, ℕ, ◌%◌, ◌++◌, ◌+◌, ◌-◌, ◌/◌, ◌∷◌, ◌≡◌,
}

-- One digit of `{:02x}`.
unfoldable pub hex_digit : ℕ → ℕ
hex_digit d = if ltb d 10 then b'0' + d else b'a' + (d - 10)

-- `format!("{:02x}:", b)` for a byte.
unfoldable pub hex_colon : ℕ → Text
hex_colon b = hex_digit (b / 16) ∷ hex_digit (b % 16) ∷ b':' ∷ []

-- `String::pop`, with the character that it removes dropped.
unfoldable pub pop : Text → Text
pop [] = []
pop (c ∷ []) = []
pop (c ∷ d ∷ s) = c ∷ pop (d ∷ s)

unfoldable pub format_serial : Bytes → Text
unfolding hex_colon hex_digit pop
format_serial i = pop (foldl (λ a b. a ++ hex_colon b) [] i)

format_serial_test : format_serial (1 ∷ 2 ∷ 3 ∷ 4 ∷ 0xff ∷ []) ≡ codes "01:02:03:04:ff"
unfolding format_serial
format_serial_test = refl

-- ===== src/Format.antt =====
-- What the macro `format!` of the standard library makes of numbers, flags and bytes.
use x509_parser.Prelude.{
  Bool, Bytes, Text, [], codes, false, if◌then◌else◌, ltb, refl, suc, true, zero, ℕ, ◌%◌, ◌++◌, ◌/◌,
  ◌∷◌, ◌≡◌,
}
use x509_parser.Utils.{hex_digit}

-- The digits of a number in a base, in front of others; there are no more digits than rounds.
unfoldable pub digits_onto : ℕ → ℕ → ℕ → Text → Text
unfolding hex_digit
digits_onto base zero n acc = acc
digits_onto base (suc rounds) n acc =
    let more = digits_onto base rounds (n / base) (hex_digit (n % base) ∷ acc) in
    if ltb n base then hex_digit n ∷ acc else more

-- `{}` of an unsigned integer.
unfoldable pub decimal : ℕ → Text
unfolding digits_onto
decimal n = digits_onto 10 (suc n) n []

-- `{:x}` of an unsigned integer.
unfoldable pub lower_hex : ℕ → Text
unfolding digits_onto
lower_hex n = digits_onto 16 (suc n) n []

-- `{}` of a `bool`.
unfoldable pub bool_text : Bool → Text
bool_text true = codes "true"
bool_text false = codes "false"

-- `{:indent$}` of the empty text.
unfoldable pub spaces : ℕ → Text
spaces zero = []
spaces (suc n) = b' ' ∷ spaces n

-- The decimal numbers of bytes, with a text between each two.
unfoldable pub numbers_between : Text → Bytes → Text
unfolding decimal
numbers_between sep [] = []
numbers_between sep (b ∷ []) = decimal b
numbers_between sep (b ∷ c ∷ bs) = decimal b ++ sep ++ numbers_between sep (c ∷ bs)

-- `{:?}` of a slice of bytes.
unfoldable pub bytes_debug : Bytes → Text
unfolding numbers_between
bytes_debug bs = codes "[" ++ numbers_between (codes ", ") bs ++ codes "]"

-- `{}` of an `Ipv4Addr`.
unfoldable pub ipv4_text : Bytes → Text
unfolding numbers_between
ipv4_text bs = numbers_between (codes ".") bs

format_test :
    decimal 1234 ++ lower_hex 65537 ++ bytes_debug (7 ∷ 10 ∷ []) ≡ codes "123410001[7, 10]"
unfolding decimal lower_hex bytes_debug
format_test = refl

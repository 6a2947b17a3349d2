-- ===== src/Programs/Rows.antt =====
-- examples/print-cert.rs: bytes as rows of hexadecimal digits.
pub mod Layout
use x509_parser.Prelude.{
  Bytes, List, Option, Text, [], drop, foldl, length, map, none, some, suc, take, zero, ℕ, ◌++◌,
  ◌∷◌,
}
use x509_parser.Utils.{hex_colon, hex_digit}

-- `slice::chunks`, in as many rounds as there are bytes at most.
unfoldable pub chunks_from : ℕ → ℕ → Bytes → List Bytes
chunks_from zero size bs = []
chunks_from (suc rounds) size [] = []
chunks_from (suc rounds) size (b ∷ bs) =
    take size (b ∷ bs) ∷ chunks_from rounds size (drop size (b ∷ bs))

unfoldable pub chunks : ℕ → Bytes → List Bytes
unfolding chunks_from
chunks size bs = chunks_from (length bs) size bs

-- The `fold` over a row.
unfoldable pub row_text : Bytes → Text
unfolding hex_colon hex_digit
row_text r = foldl (λ a b. a ++ hex_colon b) [] r

-- A division by the size of a row, and `chunks`, panic on zero.
unfoldable pub format_number_to_hex_with_colon : Bytes → ℕ → Option (List Text)
unfolding chunks row_text
format_number_to_hex_with_colon b zero = none
format_number_to_hex_with_colon b (suc n) = some (map row_text (chunks (suc n) b))

-- ===== src/Prelude/Strings.antt =====
-- The operations of Rust's `str` that the code calls, on texts as lists of code points.
use Prim.Native.Nat.{ℕ, zero, suc, ◌-◌}
use mathlib.Core.Bool.{Bool, true, false, ◌&&◌, ◌||◌}
use mathlib.Core.List.{List, [], ◌∷◌}
use mathlib.Core.Option.{Option, none, some}
use x509_parser.Prelude.Chars.{Text}
use x509_parser.Prelude.Lists.{length}
use x509_parser.Prelude.Tests.{◌==◌, leb, if◌then◌else◌}

-- `str::strip_prefix`.
unfoldable pub strip_prefix : Text → Text → Option Text
strip_prefix [] s = some s
strip_prefix (p ∷ ps) [] = none
strip_prefix (p ∷ ps) (c ∷ cs) = elim (c == p) [ true ↦ strip_prefix ps cs | false ↦ none ]

-- `str::str_starts_with`.
unfoldable pub str_starts_with : Text → Text → Bool
str_starts_with [] s = true
str_starts_with (p ∷ ps) [] = false
str_starts_with (p ∷ ps) (c ∷ cs) = elim (c == p) [ true ↦ str_starts_with ps cs | false ↦ false ]

-- A character in front of the first piece.
unfoldable pub onto_first : ℕ → List Text → List Text
onto_first c [] = (c ∷ []) ∷ []
onto_first c (piece ∷ pieces) = (c ∷ piece) ∷ pieces

-- `str::split`, where the characters of a separator that are still to pass are counted.
unfoldable pub split_from : Text → ℕ → Text → List Text
unfolding onto_first str_starts_with
split_from sep k [] = [] ∷ []
split_from sep (suc k) (c ∷ cs) = split_from sep k cs
split_from sep zero (c ∷ cs) = elim (str_starts_with sep (c ∷ cs)) [
  | true ↦ [] ∷ split_from sep (length sep - 1) cs
  | false ↦ onto_first c (split_from sep 0 cs)
]

unfoldable pub split : Text → Text → List Text
unfolding split_from
split s sep = split_from sep 0 s

-- `char::is_whitespace`: the property `White_Space` of Unicode.
unfoldable pub is_whitespace : ℕ → Bool
is_whitespace c =
    leb 9 c && leb c 13
    || c == 0x20
    || c == 0x85
    || c == 0xa0
    || c == 0x1680
    || leb 0x2000 c && leb c 0x200a
    || c == 0x2028
    || c == 0x2029
    || c == 0x202f
    || c == 0x205f
    || c == 0x3000

-- A character in front of a text whose trailing spaces are gone.
unfoldable pub onto_trimmed : ℕ → Text → Text
onto_trimmed c [] = if is_whitespace c then [] else c ∷ []
onto_trimmed c (d ∷ ds) = c ∷ d ∷ ds

-- `str::trim_end`.
unfoldable pub trim_end : Text → Text
unfolding onto_trimmed is_whitespace
trim_end [] = []
trim_end (c ∷ cs) = onto_trimmed c (trim_end cs)

-- The lines of a buffer, each with its end of line, as `BufRead::read_line` reads them one by one.
unfoldable pub split_lines : List ℕ → List (List ℕ)
unfolding onto_first
split_lines [] = []
split_lines (b ∷ bs) = elim (b == b'\n') [
  | true ↦ (b ∷ []) ∷ split_lines bs
  | false ↦ onto_first b (split_lines bs)
]

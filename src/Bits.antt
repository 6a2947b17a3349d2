-- ===== src/Bits.antt =====
-- Bits of machine integers: `&`, `|`, `>>`, `<<` and `u8::reverse_bits`.
pub mod Laws
use x509_parser.Prelude.{
  Bool, Bytes, [], bit_and, bit_or, false, foldl, ltb, not, reverse, suc, true, zero, ℕ, ◌%◌, ◌*◌,
  ◌+◌, ◌-◌, ◌/◌, ◌==◌, ◌^◌, ◌∷◌,
}

-- `(x >> i) & 1`.
abbrev pub bit : ℕ → ℕ → ℕ
bit x i = (x / 2 ^ i) % 2

-- `x & 0x80 != 0` for a byte.
unfoldable pub msb_set : ℕ → Bool
msb_set x = not (bit_and x 0x80 == 0)

reverse_loop : ℕ → ℕ → ℕ → ℕ
reverse_loop zero x acc = acc
reverse_loop (suc n) x acc = reverse_loop n (x / 2) (acc * 2 + x % 2)

-- `u8::reverse_bits`.
unfoldable pub reverse_bits : ℕ → ℕ
unfolding reverse_loop
reverse_bits x = reverse_loop 8 x 0

-- `data.iter().rev().fold(0, |acc, x| acc << 8 | (x.reverse_bits() as u16))`, on a `u16`.
unfoldable pub u16_flags : Bytes → ℕ
u16_flags content =
    foldl (λ acc x. bit_or (acc * 2 ^ 8 % 2 ^ 16) (reverse_bits x)) 0 (reverse content)

-- Bit `i` of a BIT STRING, whose first bit is the highest of the first byte; 0 beyond its end.
unfoldable pub string_bit : Bytes → ℕ → ℕ
string_bit [] i = 0
string_bit (b ∷ bs) i = elim (ltb i 8) [ true ↦ bit b (7 - i) | false ↦ string_bit bs (i - 8) ]

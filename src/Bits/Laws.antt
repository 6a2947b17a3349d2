-- ===== src/Bits/Laws.antt =====
-- `u16_flags` against the bits of the BIT STRING that it reads.
use x509_parser.Bits.{bit, reverse_bits, string_bit, u16_flags}
use x509_parser.Prelude.{
  ==_iff, All, Bool, Bytes, List, [], all, ap, arith, bit_or, dec_lt, false, foldl, ltb, refl,
  reverse, suc, sym, true, zero, ℕ, ◌%◌, ◌&&◌, ◌*◌, ◌+◌, ◌-◌, ◌/◌, ◌<◌, ◌==◌, ◌^◌, ◌∙◌, ◌∷◌, ◌≡◌,
  ◌≤◌,
}
use Prim.Native.Nat.{max, digits, bit_or-bitwise}
use mathlib.Core.List.{reverse-cons, foldl-append}

-- `k` zero digits after those of `a`.
abbrev shifted : ℕ → ℕ → ℕ
shifted zero a = a
shifted (suc k) a = shifted k a * 2

-- `|` by its digits, with enough fuel.
abbrev or_by : ℕ → ℕ → ℕ → ℕ
or_by = digits (λ b. b) max

or_by-zero : (n x : ℕ) → x ≤ n → or_by n x 0 ≡ x
or_by-zero zero x h = omega arith
or_by-zero (suc n) zero h = refl
or_by-zero (suc n) (suc x) h = let e = or_by-zero n (suc x / 2) (omega arith) in omega (arith, e)

-- Numbers whose digits do not overlap are added.
or_by-add : (k n x a b : ℕ) → x ≡ shifted k a → b < shifted k 1 → x ≤ n → or_by n x b ≡ x + b
or_by-add zero n x a b e lt h = let z : b ≡ 0 = omega arith in rw z (or_by-zero n x h ∙ omega arith)
or_by-add (suc k) zero x a b e lt h = omega arith
or_by-add (suc k) (suc n) zero a b e lt h = omega arith
or_by-add (suc k) (suc n) (suc x) a b e lt h =
    let r = or_by-add k n (suc x / 2) a (b / 2) (omega arith) (omega arith) (omega arith) in
    omega (arith, r)

-- Where the low eight digits of `a` are 0, `|` adds a byte.
bit_or-add : (a b : ℕ) → b < 256 → bit_or (a * 256) b ≡ a * 256 + b
bit_or-add a b h =
    bit_or-bitwise (a * 256) b ∙ or_by-add 8 (a * 256) (a * 256) a b (omega arith) h (omega arith)

-- The numbers below a bound, and a test that holds of them all.
upto : ℕ → List ℕ
upto zero = []
upto (suc n) = n ∷ upto n

all-upto : (p : ℕ → Bool) (x n : ℕ) → x < n → all p (upto n) ≡ true → p x ≡ true
unfolding all upto
all-upto p x zero lt t = absurd (omega arith)
all-upto p x (suc n) lt t = ground (arith, all-upto p x n)

-- A reversed byte is a byte, and its bits are those of the byte from the other end.
reverse_bits_table :
    all
      (λ x. ltb (reverse_bits x) 256 && all (λ i. bit (reverse_bits x) i == bit x (7 - i)) (upto 8))
      (upto 256)
    ≡ true
unfolding all upto reverse_bits
reverse_bits_table = refl

reverse_bits-lt : (x : ℕ) → x < 256 → reverse_bits x < 256
reverse_bits-lt x h = let t = all-upto _ x 256 h reverse_bits_table in ground arith

bit-reverse_bits : (x i : ℕ) → x < 256 → i < 8 → bit (reverse_bits x) i ≡ bit x (7 - i)
bit-reverse_bits x i h hi =
    let t = all-upto _ x 256 h reverse_bits_table in
    let p = λ (k : ℕ). bit (reverse_bits x) k == bit x (7 - k) in
    (==_iff _ _).0 (all-upto p i 8 hi (and_right (ltb (reverse_bits x) 256) (all p (upto 8)) t))
  where
    and_right : (a b : Bool) → (a && b) ≡ true → b ≡ true
    and_right true b h = h
    and_right false b h = cc

-- The bits of a number from its two bytes.
bit_low : (k r i : ℕ) → i < 8 → bit (k * 256 + r) i ≡ bit r i
bit_low k r zero h = omega arith
bit_low k r (suc zero) h = omega arith
bit_low k r (suc (suc zero)) h = omega arith
bit_low k r (suc (suc (suc zero))) h = omega arith
bit_low k r (suc (suc (suc (suc zero)))) h = omega arith
bit_low k r (suc (suc (suc (suc (suc zero))))) h = omega arith
bit_low k r (suc (suc (suc (suc (suc (suc zero)))))) h = omega arith
bit_low k r (suc (suc (suc (suc (suc (suc (suc zero))))))) h = omega arith
bit_low k r (suc (suc (suc (suc (suc (suc (suc (suc n)))))))) h = absurd (omega arith)

bit_high : (k r i : ℕ) → r < 256 → i < 8 → bit (k * 256 % 2 ^ 16 + r) (i + 8) ≡ bit k i
bit_high k r zero b h = omega arith
bit_high k r (suc zero) b h = omega arith
bit_high k r (suc (suc zero)) b h = omega arith
bit_high k r (suc (suc (suc zero))) b h = omega arith
bit_high k r (suc (suc (suc (suc zero)))) b h = omega arith
bit_high k r (suc (suc (suc (suc (suc zero))))) b h = omega arith
bit_high k r (suc (suc (suc (suc (suc (suc zero)))))) b h = omega arith
bit_high k r (suc (suc (suc (suc (suc (suc (suc zero))))))) b h = omega arith
bit_high k r (suc (suc (suc (suc (suc (suc (suc (suc n)))))))) b h = absurd (omega arith)

u16_flags_cons :
    (b : ℕ) (bs : Bytes)
    → b < 256
    → u16_flags (b ∷ bs) ≡ u16_flags bs * 256 % 2 ^ 16 + reverse_bits b
unfolding u16_flags
u16_flags_cons b bs h =
    let f = λ (acc x : ℕ). bit_or (acc * 2 ^ 8 % 2 ^ 16) (reverse_bits x) in
    let k = u16_flags bs in
    let shift : k * 2 ^ 8 % 2 ^ 16 ≡ k % 256 * 256 = omega arith in
    ap (foldl f 0) (reverse-cons b bs)
    ∙ foldl-append f 0 (reverse bs) (b ∷ [])
    ∙ ap (λ z. bit_or z (reverse_bits b)) shift
    ∙ bit_or-add (k % 256) (reverse_bits b) (reverse_bits-lt b h)
    ∙ omega arith

-- A byte string.
abbrev pub AllBytes : Bytes → Type 0
AllBytes = All (λ b. b < 256)

string_bit_low : (b : ℕ) (bs : Bytes) (i : ℕ) → i < 8 → string_bit (b ∷ bs) i ≡ bit b (7 - i)
unfolding string_bit
string_bit_low b bs i h = ground arith

string_bit_high : (b : ℕ) (bs : Bytes) (i : ℕ) → string_bit (b ∷ bs) (i + 8) ≡ string_bit bs i
unfolding string_bit
string_bit_high b bs i =
    let back : i + 8 - 8 ≡ i = omega arith in
    let past : ltb (i + 8) 8 ≡ false = ground arith in
    rw (past, string_bit) (ap (string_bit bs) back)

bit_zero : (i : ℕ) → bit 0 i ≡ 0
bit_zero i = omega arith

u16_flags_low :
    (content : Bytes) (i : ℕ)
    → AllBytes content
    → i < 8
    → bit (u16_flags content) i ≡ string_bit content i
unfolding u16_flags string_bit
u16_flags_low [] i a h = bit_zero i
u16_flags_low (b ∷ bs) i a h =
    let k = u16_flags bs in
    let shift : k * 256 % 2 ^ 16 ≡ k % 256 * 256 = omega arith in
    ap (λ z. bit z i) (u16_flags_cons b bs a.0 ∙ ap (λ z. z + reverse_bits b) shift)
    ∙ bit_low (k % 256) (reverse_bits b) i h
    ∙ bit-reverse_bits b i a.0 h
    ∙ sym (string_bit_low b bs i h)

u16_flags_high :
    (content : Bytes) (i : ℕ)
    → AllBytes content
    → i < 8
    → bit (u16_flags content) (i + 8) ≡ string_bit content (i + 8)
unfolding u16_flags string_bit
u16_flags_high [] i a h = bit_zero (i + 8)
u16_flags_high (b ∷ bs) i a h =
    ap (λ z. bit z (i + 8)) (u16_flags_cons b bs a.0)
    ∙ bit_high (u16_flags bs) (reverse_bits b) i (reverse_bits-lt b a.0) h
    ∙ u16_flags_low bs i a.1 h
    ∙ sym (string_bit_high b bs i)

-- Bit `i` of the flags is bit `i` of the BIT STRING, for the sixteen bits of the `u16`.
pub bit-u16_flags :
    (content : Bytes) (i : ℕ)
    → AllBytes content
    → i < 16
    → bit (u16_flags content) i ≡ string_bit content i
bit-u16_flags content i a h = elim (dec_lt i 8) [
  | yes low ↦ u16_flags_low content i a low
  | no high ↦
      let e : i ≡ i - 8 + 8 = omega arith in
      ap (bit (u16_flags content)) e
      ∙ u16_flags_high content (i - 8) a (omega arith)
      ∙ ap (string_bit content) (sym e)
]

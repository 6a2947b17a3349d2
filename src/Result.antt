-- ===== src/Result.antt =====
-- Rust's `Result` with the `?` operator, and nom's `IResult`, which the parsers return.
pub mod Views
use x509_parser.Prelude.{
  Bool, Bytes, Option, false, if◌then◌else◌, inl, inr, none, refl, some, subst, true, ℕ, ◌≡◌, ◌⊎◌,
}

pub data Result {ℓ κ} (E : Type κ) (A : Type ℓ) : Type (ℓ ⊔ κ) where
  ok : A → Result E A
  err : E → Result E A

-- `nom::Err`: its constructors are those that src/error.rs matches. `Needed` is the number of
-- missing bytes, where nom knows it.
pub data NomErr {κ} (E : Type κ) : Type κ where
  incomplete : Option ℕ → NomErr E
  error : E → NomErr E
  failure : E → NomErr E

-- A `&[u8]` that is parsed: its bytes, and where it starts in its buffer, which nom's `offset`
-- observes.
pub record Slice : Type 0 where
  pub start : ℕ
  pub bytes : Bytes

-- A slice that is a buffer of its own.
abbrev pub whole : Bytes → Slice
whole bytes = record { start = 0; bytes = bytes }

-- `nom::IResult<&[u8], A, E>`: the slice left, and the value.
abbrev pub IResult {ℓ κ} : Type κ → Type ℓ → Type (ℓ ⊔ κ)
IResult E A = Result (NomErr E) (Slice × A)

-- A parser of `A` from a slice.
abbrev pub Parser {κ ℓ} : Type κ → Type ℓ → Type (κ ⊔ ℓ)
Parser E A = Slice → IResult E A

infixl 5 ◌>>=◌
abbrev pub ◌>>=◌ {ℓ κ ι} :
    {E : Type κ} {A : Type ℓ} {B : Type ι} → Result E A → (A → Result E B) → Result E B
ok a >>= f = f a
err e >>= f = err e

module _ {ℓ κ} {E : Type κ} {A : Type ℓ} where
  -- `Result::map_err`, and `Result::or(Err(e))` as the constant case.
  abbrev pub map_err {ι} : {F : Type ι} → (E → F) → Result E A → Result F A
  map_err f (ok a) = ok a
  map_err f (err e) = err (f e)

  -- `Result::map`.
  abbrev pub map_ok {ι} : {B : Type ι} → (A → B) → Result E A → Result E B
  map_ok f (ok a) = ok (f a)
  map_ok f (err e) = err e

  -- `Result::ok`.
  abbrev pub to_option : Result E A → Option A
  to_option (ok a) = some a
  to_option (err e) = none

  -- `Result::is_ok`.
  abbrev pub is_ok : Result E A → Bool
  is_ok (ok a) = true
  is_ok (err e) = false

  -- `Option::ok_or`.
  abbrev pub ok_or : E → Option A → Result E A
  ok_or e (some a) = ok a
  ok_or e none = err e

pub ok_inj {ℓ κ} :
    {E : Type κ} {A : Type ℓ} (r : Result E A) (a b : A) → r ≡ ok a → r ≡ ok b → a ≡ b
ok_inj r a b h k = cc

-- Every value that a result may hold satisfies a predicate.
module _ {ℓ κ ι} {E : Type κ} {A : Type ℓ} (P : A → Type ι) where
  abbrev pub Holds : Result E A → Type (ℓ ⊔ κ ⊔ ι)
  Holds r = (a : A) → r ≡ ok a → P a

  pub Holds-ok : (a : A) → P a → Holds (ok a)
  Holds-ok a p b h = subst P (ok_inj (ok a) a b refl h) p

  pub Holds-err : (e : E) → Holds (err e)
  Holds-err e b h = cc

  pub Holds-if :
      {x y : Result E A} (b : Bool)
      → (b ≡ true → Holds x)
      → (b ≡ false → Holds y)
      → Holds (if b then x else y)
  Holds-if true f g = f refl
  Holds-if false f g = g refl

  -- A bind holds what its continuation holds of the values that come before it.
  pub Holds->>= {μ ν} :
      {B : Type μ} (Q : B → Type ν) (m : Result E B) (f : B → Result E A)
      → ((b : B) → m ≡ ok b → Q b)
      → ((b : B) → Q b → Holds (f b))
      → Holds (m >>= f)
  Holds->>= Q (ok b) f q g a h = g b (q b refl) a h
  Holds->>= Q (err e) f q g a h = cc

pub Result-cases {ℓ κ} :
    {E : Type κ} {A : Type ℓ} (r : Result E A) → ((e : E) × r ≡ err e) ⊎ ((a : A) × r ≡ ok a)
Result-cases (ok a) = inr (a, refl)
Result-cases (err e) = inl (e, refl)

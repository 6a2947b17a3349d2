-- ===== src/Result/Views.antt =====
-- Two results of a parser compared by a view of their values.
use x509_parser.Prelude.{ap, refl, sym, ◌∙◌, ◌≡◌}
use x509_parser.Result.{IResult, NomErr, Result, Slice, err, map_err, map_ok, ok, ◌>>=◌}

abbrev pub on_value : {A B : Type 0} → (A → B) → Slice × A → Slice × B
on_value h (rem, a) = (rem, h a)

-- Two results with the same rest and the same view of the value, or the same error.
abbrev pub SameView : {E A B : Type 0} → (A → B) → IResult E A → IResult E A → Type 0
SameView h r s = map_ok (on_value h) r ≡ map_ok (on_value h) s

-- The same, whatever the rest.
abbrev pub SameValue : {E A B : Type 0} → (A → B) → IResult E A → IResult E A → Type 0
SameValue h r s = map_ok (λ x. h x.1) r ≡ map_ok (λ x. h x.1) s

pub map_ok-map_ok :
    {E A B C : Type 0} (g : B → C) (f : A → B) (r : Result E A)
    → map_ok g (map_ok f r) ≡ map_ok (λ x. g (f x)) r
map_ok-map_ok g f (ok a) = refl
map_ok-map_ok g f (err e) = refl

pub map_ok-map_err :
    {E F A B : Type 0} (f : A → B) (c : E → F) (r : Result E A)
    → map_ok f (map_err c r) ≡ map_err c (map_ok f r)
map_ok-map_err f c (ok a) = refl
map_ok-map_err f c (err e) = refl

pub value_of_view :
    {E A B : Type 0} (h : A → B) (r s : IResult E A) → SameView h r s → SameValue h r s
value_of_view h r s k =
    sym (map_ok-map_ok (λ x. x.1) (on_value h) r)
    ∙ ap (map_ok (λ x. x.1)) k
    ∙ map_ok-map_ok (λ x. x.1) (on_value h) s

pub map_err-SameView :
    {E F A B : Type 0} (h : A → B) (c : NomErr E → NomErr F) (r s : IResult E A)
    → SameView h r s
    → SameView h (map_err c r) (map_err c s)
map_err-SameView h c r s k =
    map_ok-map_err (on_value h) c r ∙ ap (map_err c) k ∙ sym (map_ok-map_err (on_value h) c s)

-- After a common first step.
pub >>=-SameValue :
    {E A B C : Type 0} (h : B → C) (m : IResult E A) (f g : Slice × A → IResult E B)
    → ((x : Slice × A) → SameValue h (f x) (g x))
    → SameValue h (m >>= f) (m >>= g)
>>=-SameValue h (ok x) f g k = k x
>>=-SameValue h (err e) f g k = refl

-- After first steps that are the same up to a view, which is all that the next one shows.
pub >>=-SameView :
    {E A B C D : Type 0} (v : A → B) (h : C → D) (r s : IResult E A) (f : Slice × A → IResult E C)
    (F : Slice × B → Result (NomErr E) D)
    → ((x : Slice × A) → map_ok (λ y. h y.1) (f x) ≡ F (on_value v x))
    → SameView v r s
    → SameValue h (r >>= f) (s >>= f)
>>=-SameView {E} {A} {B} {C} {D} v h r s f F k e = shown r ∙ ap (λ z. z >>= F) e ∙ sym (shown s)
  where
    shown : (z : IResult E A) → map_ok (λ y. h y.1) (z >>= f) ≡ map_ok (on_value v) z >>= F
    shown (ok x) = k x
    shown (err e) = refl

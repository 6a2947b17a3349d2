-- ===== src/Console/Laws.antt =====
-- The laws of programs that write, and what holds of their ends.
use x509_parser.Console.{
  End, Program, Script, Write, aborted, each, failed, returned, when_some, ◌>>◌,
}
use x509_parser.Pem.Rest.{later}
use x509_parser.Prelude.{
  All, Bool, List, Option, [], ap, append_assoc, concat, false, if◌then◌else◌, map, none, refl,
  some, sym, true, ◌++◌, ◌∙◌, ◌∷◌, ◌≡◌,
}

pub >>-returned :
    {A : Type 0} (ws : List Write) (q : Program A) → ((ws, returned tt) >> q) ≡ (ws ++ q.0, q.1)
>>-returned ws q = refl

pub >>_assoc : (p q r : Script) → (p >> q >> r) ≡ (p >> (q >> r))
>>_assoc (ws, returned tt) q r = regrouped q
  where
    regrouped : (q : Script) → ((ws ++ q.0, q.1) >> r) ≡ ((ws, returned tt) >> (q >> r))
    regrouped (vs, returned tt) = ap (λ w. (w, r.1)) (append_assoc ws vs r.0)
    regrouped (vs, failed e) = refl
    regrouped (vs, aborted) = refl
>>_assoc (ws, failed e) q r = refl
>>_assoc (ws, aborted) q r = refl

-- What is written by programs that return.
abbrev pub Returns : Script → Type 0
Returns p = p.1 ≡ returned tt

pub >>-Returns : (p q : Script) → Returns p → (p >> q) ≡ (p.0 ++ q.0, q.1)
>>-Returns (ws, returned tt) q h = refl
>>-Returns (ws, failed e) q h = cc
>>-Returns (ws, aborted) q h = cc

pub each-Returns :
    {A : Type 0} (body : A → Script) (xs : List A)
    → All (λ x. Returns (body x)) xs
    → each body xs ≡ (concat (map (λ x. (body x).0) xs), returned tt)
unfolding each
each-Returns body [] h = refl
each-Returns body (x ∷ xs) (h, k) =
    >>-Returns (body x) (each body xs) h
    ∙ ap (λ (p : Script). ((body x).0 ++ p.0, p.1)) (each-Returns body xs k)

-- A loop that panics on an item, after items on which its body returns.
pub each-aborted :
    {A : Type 0} (body : A → Script) (ws : List Write) (before : List A) (x : A) (later : List A)
    → All (λ y. Returns (body y)) before
    → body x ≡ (ws, aborted)
    → each body (before ++ x ∷ later) ≡ (concat (map (λ y. (body y).0) before) ++ ws, aborted)
unfolding each
each-aborted body ws [] x later h k = rw (k) refl
each-aborted body ws (y ∷ ys) x later (h, hs) k =
    >>-Returns (body y) (each body (ys ++ x ∷ later)) h
    ∙ ap (λ (p : Script). ((body y).0 ++ p.0, p.1)) (each-aborted body ws ys x later hs k)
    ∙ ap (λ w. (w, aborted)) (sym (append_assoc (body y).0 (concat (map (λ z. (body z).0) ys)) ws))

-- A property of ends that a returned value has, and that a sequence has where both its parts do.
module _ (P : End (Unit {0}) → Type 0) (done : P (returned tt)) where
  pub >>-Ends : (p q : Script) → P p.1 → P q.1 → P (p >> q).1
  >>-Ends (ws, returned tt) q h k = k
  >>-Ends (ws, failed e) q h k = h
  >>-Ends (ws, aborted) q h k = h

  pub each-Ends :
      {A : Type 0} (body : A → Script) (xs : List A) → ((x : A) → P (body x).1) → P (each body xs).1
  unfolding each
  each-Ends body [] h = done
  each-Ends body (x ∷ xs) h = >>-Ends (body x) (each body xs) (h x) (each-Ends body xs h)

  pub when_some-Ends :
      {A : Type 0} (found : Option A) (body : A → Script)
      → ((x : A) → P (body x).1)
      → P (when_some found body).1
  when_some-Ends none body h = done
  when_some-Ends (some x) body h = h x

  pub if-Ends : (b : Bool) (p q : Script) → P p.1 → P q.1 → P (if b then p else q).1
  if-Ends true p q h k = h
  if-Ends false p q h k = k

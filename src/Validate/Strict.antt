-- ===== src/Validate/Strict.antt =====
-- Steps that clear `res` exactly when they log an error, and never panic.
use x509_parser.Prelude.{Bool, List, Text, [], false, refl, true, ◌&&◌, ◌++◌, ◌∷◌, ◌≡◌}
use x509_parser.Validate.Logger.{Event, erred, no_error, tracer, warned}
use x509_parser.Validate.Replay.{
  IsTraced, check-IsTraced, fail_if-IsTraced, for_each-IsTraced, replay-tracer, replayed,
  skip-IsTraced, trace, validate-IsReplayed, warn_if-IsTraced, ⨾-IsTraced,
}
use x509_parser.Validate.Steps.{
  Run, Step, after, check, fail_if, for_each, panicked, running, skip, validate, warn_if, ◌⨾◌,
}

-- The result agrees with the calls made.
abbrev pub Agrees : Run (List Event) → Type 0
Agrees (running res es) = res ≡ no_error es
Agrees panicked = ⊥

pub record IsStrict (s : Step) : Type 1 where
  pub traced : IsTraced s
  pub agrees : Agrees (trace s)

no_error-append : (es fs : List Event) → no_error (es ++ fs) ≡ (no_error es && no_error fs)
unfolding no_error
no_error-append [] fs = refl
no_error-append (warned m ∷ es) fs = no_error-append es fs
no_error-append (erred m ∷ es) fs = refl

replayed-Agrees :
    (r : Run (List Event)) (es : List Event)
    → Agrees r
    → Agrees (replayed tracer r (no_error es) es)
replayed-Agrees (running good fs) es a = rw (replay-tracer, no_error-append, a)
replayed-Agrees panicked es a = absurd a

after-Agrees :
    (r : Run (List Event)) (t : Step)
    → Agrees r
    → IsStrict t
    → Agrees (after r (t (List Event) tracer))
after-Agrees panicked t a h = absurd a
after-Agrees (running good es) t a h =
    rw (a, h.traced (List Event) tracer (no_error es) es) (replayed-Agrees (trace t) es h.agrees)

pub skip-IsStrict : IsStrict skip
unfolding skip no_error
skip-IsStrict = record { traced = skip-IsTraced; agrees = refl }

pub warn_if-IsStrict : (test : Bool) (message : Text) → IsStrict (warn_if test message)
unfolding warn_if no_error
warn_if-IsStrict true message = record { traced = warn_if-IsTraced true message; agrees = refl }
warn_if-IsStrict false message = record { traced = warn_if-IsTraced false message; agrees = refl }

pub fail_if-IsStrict : (test : Bool) (message : Text) → IsStrict (fail_if test message)
unfolding fail_if no_error
fail_if-IsStrict true message = record { traced = fail_if-IsTraced true message; agrees = refl }
fail_if-IsStrict false message = record { traced = fail_if-IsTraced false message; agrees = refl }

pub ⨾-IsStrict : (s t : Step) → IsStrict s → IsStrict t → IsStrict (s ⨾ t)
unfolding ◌⨾◌
⨾-IsStrict s t hs ht = record {
  traced = ⨾-IsTraced s t hs.traced ht.traced;
  agrees = after-Agrees (trace s) t hs.agrees ht;
}

pub for_each-IsStrict :
    {A : Type 0} (body : A → Step)
    → ((x : A) → IsStrict (body x))
    → (xs : List A) → IsStrict (for_each body xs)
unfolding for_each no_error
for_each-IsStrict body h [] = record {
  traced = for_each-IsTraced body (λ x. (h x).traced) [];
  agrees = refl;
}
for_each-IsStrict body h (x ∷ xs) = record {
  traced = for_each-IsTraced body (λ y. (h y).traced) (x ∷ xs);
  agrees =
      after-Agrees (trace (body x)) (for_each body xs) (h x).agrees (for_each-IsStrict body h xs);
}

-- A validator whose body is strict on an item, as a step of another.
pub check-IsStrict :
    {I : Type 0} (body : I → Step) (item : I)
    → ((x : I) → IsTraced (body x))
    → IsStrict (body item)
    → IsStrict (check (validate body) item)
unfolding check validate
check-IsStrict body item t h = record {
  traced = check-IsTraced (validate body) item (validate-IsReplayed body t);
  agrees = checked (trace (body item)) h.agrees;
}
  where
    checked :
        (r : Run (List Event))
        → Agrees r
        → Agrees (after r (λ good log. running (true && good) log))
    checked (running good es) a = a
    checked panicked a = a

-- ===== src/Validate/Replay.antt =====
-- What a validator does to a logger is a sequence of calls that does not depend on the logger.
use x509_parser.Prelude.{
  Bool, List, Text, [], ap, append-nil, append_assoc, arith, false, refl, sym, true, ◌&&◌, ◌++◌,
  ◌∙◌, ◌∷◌, ◌≡◌,
}
use x509_parser.Validate.Logger.{Event, Logger, erred, replay, tracer, warned}
use x509_parser.Validate.Steps.{
  Run, Step, Validator, after, check, err_if, fail_if, for_each, panic, panicked, running, skip,
  validate, warn_if, ◌⨾◌,
}

-- What a step does from the empty trace with `res` true.
abbrev pub trace : Step → Run (List Event)
trace s = s (List Event) tracer true []

-- The run of a trace on a logger.
abbrev pub replayed : {L : Type 0} → Logger L → Run (List Event) → Bool → L → Run L
replayed l (running good es) res log = running (res && good) (replay l es log)
replayed l panicked res log = panicked

-- On every logger, the step makes the calls of its trace, and clears `res` if the trace does.
abbrev pub IsTraced : Step → Type 1
IsTraced s =
    (L : Type 0) (l : Logger L) (res : Bool) (log : L)
    → s L l res log ≡ replayed l (trace s) res log

pub replay-append :
    {L : Type 0} (l : Logger L) (es fs : List Event) (log : L)
    → replay l (es ++ fs) log ≡ replay l fs (replay l es log)
unfolding replay
replay-append l [] fs log = refl
replay-append l (warned m ∷ es) fs log = replay-append l es fs (l.warn m log)
replay-append l (erred m ∷ es) fs log = replay-append l es fs (l.err m log)

pub replay-tracer : (es fs : List Event) → replay tracer es fs ≡ fs ++ es
unfolding replay
replay-tracer [] fs = sym (append-nil fs)
replay-tracer (warned m ∷ es) fs =
    replay-tracer es (fs ++ warned m ∷ []) ∙ append_assoc fs (warned m ∷ []) es
replay-tracer (erred m ∷ es) fs =
    replay-tracer es (fs ++ erred m ∷ []) ∙ append_assoc fs (erred m ∷ []) es

and_true : (b : Bool) → (b && true) ≡ b
and_true b = ground arith

and_false : (b : Bool) → (b && false) ≡ false
and_false b = ground arith

and_assoc : (a b c : Bool) → ((a && b) && c) ≡ (a && (b && c))
and_assoc a b c = ground arith

pub skip-IsTraced : IsTraced skip
unfolding skip replay
skip-IsTraced L l res log = rw and_true

pub panic-IsTraced : IsTraced panic
unfolding panic
panic-IsTraced L l res log = refl

pub warn_if-IsTraced : (test : Bool) (message : Text) → IsTraced (warn_if test message)
unfolding warn_if replay
warn_if-IsTraced true message L l res log = rw and_true
warn_if-IsTraced false message L l res log = rw and_true

pub err_if-IsTraced : (test : Bool) (message : Text) → IsTraced (err_if test message)
unfolding err_if replay
err_if-IsTraced true message L l res log = rw and_true
err_if-IsTraced false message L l res log = rw and_true

pub fail_if-IsTraced : (test : Bool) (message : Text) → IsTraced (fail_if test message)
unfolding fail_if replay
fail_if-IsTraced true message L l res log = rw and_false
fail_if-IsTraced false message L l res log = rw and_true

replayed_twice :
    {L : Type 0} (l : Logger L) (r : Run (List Event)) (first res : Bool) (es : List Event)
    (log : L)
    → replayed l r (res && first) (replay l es log)
      ≡ replayed l (replayed tracer r first es) res log
replayed_twice l panicked first res es log = refl
replayed_twice l (running good fs) first res es log = rw (and_assoc, replay-tracer, replay-append)

-- What comes after a replayed run.
after-replayed :
    (t : Step)
    → IsTraced t
    → (r : Run (List Event)) (L : Type 0) (l : Logger L) (res : Bool) (log : L)
    → after (replayed l r res log) (t L l) ≡ replayed l (after r (t (List Event) tracer)) res log
after-replayed t h panicked L l res log = refl
after-replayed t h (running good es) L l res log =
    h L l (res && good) (replay l es log)
    ∙ replayed_twice l (trace t) good res es log
    ∙ ap (λ r. replayed l r res log) (sym (h (List Event) tracer good es))

pub ⨾-IsTraced : (s t : Step) → IsTraced s → IsTraced t → IsTraced (s ⨾ t)
unfolding ◌⨾◌
⨾-IsTraced s t hs ht L l res log =
    ap (λ r. after r (t L l)) (hs L l res log) ∙ after-replayed t ht (trace s) L l res log

pub for_each-IsTraced :
    {A : Type 0} (body : A → Step)
    → ((x : A) → IsTraced (body x))
    → (xs : List A) → IsTraced (for_each body xs)
unfolding for_each replay
for_each-IsTraced body h [] L l res log = rw and_true
for_each-IsTraced body h (x ∷ xs) L l res log =
    ap (λ r. after r (for_each body xs L l)) (h x L l res log)
    ∙ after-replayed (for_each body xs) (for_each-IsTraced body h xs) (trace (body x)) L l res log

-- On every logger, the validator makes the calls of its trace and returns what it returns there.
abbrev pub IsReplayed : {I : Type 0} → Validator I → Type 1
IsReplayed {I} v =
    (L : Type 0) (l : Logger L) (item : I) (log : L)
    → v L l item log ≡ replayed l (v (List Event) tracer item []) true log

pub validate-IsReplayed :
    {I : Type 0} (body : I → Step)
    → ((item : I) → IsTraced (body item))
    → IsReplayed (validate body)
unfolding validate
validate-IsReplayed body h L l item log = h item L l true log

pub check-IsTraced :
    {I : Type 0} (v : Validator I) (item : I) → IsReplayed v → IsTraced (check v item)
unfolding check
check-IsTraced v item h L l res log =
    ap (λ r. after r (λ good log'. running (res && good) log')) (h L l item log)
    ∙ checked (v (List Event) tracer item [])
  where
    checked :
        (r : Run (List Event))
        → after (replayed l r true log) (λ good log'. running (res && good) log')
          ≡ replayed l (after r (λ good log'. running (true && good) log')) res log
    checked (running good es) = refl
    checked panicked = refl

-- A replayed run that ends is the run of a trace.
pub ruleset traced = (
  skip-IsTraced, panic-IsTraced, warn_if-IsTraced, err_if-IsTraced, fail_if-IsTraced, ⨾-IsTraced,
  for_each-IsTraced, check-IsTraced, validate-IsReplayed,
)

-- ===== src/Validate/Steps.antt =====
-- The body of a `validate` method: a sequence of steps over `res` and the logger. A step may
-- panic; what follows is then not run.
use x509_parser.Prelude.{Bool, List, Text, [], false, if◌then◌else◌, true, ◌&&◌, ◌∷◌}
use x509_parser.Validate.Logger.{Logger}

pub data Run (L : Type 0) : Type 0 where
  running : Bool → L → Run L
  panicked : Run L

-- A step does not know the logger: it has any, as `validate<L: Logger>` does.
abbrev pub Step : Type 1
Step = (L : Type 0) → Logger L → Bool → L → Run L

-- `fn validate<L: Logger>(&self, item: &Self::Item, l: &mut L) -> bool`.
abbrev pub Validator : Type 0 → Type 1
Validator I = (L : Type 0) → Logger L → I → L → Run L

abbrev pub after : {L : Type 0} → Run L → (Bool → L → Run L) → Run L
after (running res log) next = next res log
after panicked next = panicked

-- `{}`
unfoldable pub skip : Step
skip L l res log = running res log

-- `s; t`
infixr 30 ◌⨾◌
unfoldable pub ◌⨾◌ : Step → Step → Step
(s ⨾ t) L l res log = after (s L l res log) (t L l)

-- `if test { l.warn(message); }`
unfoldable pub warn_if : Bool → Text → Step
warn_if test message L l res log =
    if test then running res (l.warn message log) else running res log

-- `if test { l.err(message); res = false; }`
unfoldable pub fail_if : Bool → Text → Step
fail_if test message L l res log =
    if test then running false (l.err message log) else running res log

-- `if test { l.err(message); }`: `res` stays.
unfoldable pub err_if : Bool → Text → Step
err_if test message L l res log = if test then running res (l.err message log) else running res log

-- An index out of bounds.
unfoldable pub panic : Step
panic L l res log = panicked

-- `for x in xs { body(x) }`
unfoldable pub for_each : {A : Type 0} → (A → Step) → List A → Step
for_each body [] L l res log = running res log
for_each body (x ∷ xs) L l res log = after (body x L l res log) (for_each body xs L l)

-- `res &= validator.validate(item, l);`
unfoldable pub check : {I : Type 0} → Validator I → I → Step
check v item L l res log = after (v L l item log) (λ good log'. running (res && good) log')

-- `let mut res = true; body; res`
unfoldable pub validate : {I : Type 0} → (I → Step) → Validator I
validate body L l item log = body item L l true log

-- ===== src/Validate/Chain.antt =====
-- src/validate/mod.rs: `ChainValidator`.
use x509_parser.Prelude.{Bool, List, refl, ◌&&◌, ◌++◌, ◌≡◌}
use x509_parser.Validate.Logger.{Event, Logger, replay}
use x509_parser.Validate.Replay.{replay-append}
use x509_parser.Validate.Steps.{Validator, after, running}

-- `self.v1.validate(item, l) & self.v2.validate(item, l)`: both are run.
unfoldable pub chain : {I : Type 0} → Validator I → Validator I → Validator I
chain first second L l item log =
    after (first L l item log)
      (λ ok1 log1. after (second L l item log1) (λ ok2 log2. running (ok1 && ok2) log2))

-- If on every logger one validator returns `r1` after the calls `es1`, and another returns `r2`
-- after the calls `es2`, their chain makes the calls of both in this order, whatever the first
-- returns, and returns true exactly if both do.
pub chain-replay :
    {I : Type 0} (first second : Validator I) (item : I) (r1 r2 : Bool) (es1 es2 : List Event)
    → ((L : Type 0) (l : Logger L) (log : L) → first L l item log ≡ running r1 (replay l es1 log))
    → ((L : Type 0) (l : Logger L) (log : L) → second L l item log ≡ running r2 (replay l es2 log))
    → (L : Type 0) (l : Logger L) (log : L)
    → chain first second L l item log ≡ running (r1 && r2) (replay l (es1 ++ es2) log)
unfolding chain
chain-replay first second item r1 r2 es1 es2 f g L l log =
    rw (f L l log) (rw (g L l (replay l es1 log)) (rw (replay-append l es1 es2 log) refl))

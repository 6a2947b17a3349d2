-- ===== src/Validate/Logger.antt =====
-- src/validate/loggers.rs: the trait `Logger` and its implementations.
use x509_parser.Prelude.{Bool, List, Text, [], codes, false, true, ◌++◌, ◌∷◌}

-- `trait Logger`, for a logger whose state is an `L`.
pub record Logger (L : Type 0) : Type 0 where
  pub warn : Text → L → L
  pub err : Text → L → L

pub record VecLogger : Type 0 where
  pub warnings : List Text
  pub errors : List Text

-- `VecLogger::default()`.
abbrev pub empty_logger : VecLogger
empty_logger = record { warnings = []; errors = [] }

unfoldable pub vec_warnings : VecLogger → List Text
vec_warnings logger = logger.warnings

unfoldable pub vec_errors : VecLogger → List Text
vec_errors logger = logger.errors

unfoldable pub vec_logger : Logger VecLogger
vec_logger = record {
  warn = λ message l. record l { warnings = l.warnings ++ message ∷ [] };
  err = λ message l. record l { errors = l.errors ++ message ∷ [] };
}

-- `StderrLogger`: its state is what has been written to stderr, by lines.
unfoldable pub stderr_logger : Logger (List Text)
stderr_logger = record {
  warn = λ message out. out ++ (codes "[W] " ++ message) ∷ [];
  err = λ message out. out ++ (codes "[E] " ++ message) ∷ [];
}

-- `CallbackLogger::new(warn, err)`, over the state that the closures change.
unfoldable pub callback_logger : {S : Type 0} → (Text → S → S) → (Text → S → S) → Logger S
callback_logger warn err = record { warn = warn; err = err }

-- What a validator can do to a logger, as a value.
pub data Event : Type 0 where
  warned : Text → Event
  erred : Text → Event

-- A logger that keeps the calls in order.
abbrev pub tracer : Logger (List Event)
tracer = record {
  warn = λ message es. es ++ warned message ∷ [];
  err = λ message es. es ++ erred message ∷ [];
}

-- The calls made again on a logger.
unfoldable pub replay : {L : Type 0} → Logger L → List Event → L → L
replay l [] log = log
replay l (warned m ∷ es) log = replay l es (l.warn m log)
replay l (erred m ∷ es) log = replay l es (l.err m log)

unfoldable pub no_error : List Event → Bool
no_error [] = true
no_error (warned m ∷ es) = no_error es
no_error (erred m ∷ es) = false

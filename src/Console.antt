-- ===== src/Console.antt =====
-- What a program of examples/ does: the texts that it writes, in order, and how it ends.
pub mod Laws
use x509_parser.Prelude.{List, Option, Text, [], none, some, suc, ℕ, ◌++◌, ◌∷◌}

-- A text written to stdout, or to stderr.
pub data Write : Type 0 where
  to_stdout : Text → Write
  to_stderr : Text → Write

-- The end of a computation: a value, an `io::Error` by its message, or a panic.
pub data End (A : Type 0) : Type 0 where
  returned : A → End A
  failed : Text → End A
  aborted : End A

-- A computation that writes.
abbrev pub Program : Type 0 → Type 0
Program A = List Write × End A

-- The rest of a program after a value; an error, which `?` hands on, and a panic end it.
abbrev pub continue : {A B : Type 0} → List Write → End A → (A → Program B) → Program B
continue ws (returned a) f = (ws ++ (f a).0, (f a).1)
continue ws (failed e) f = (ws, failed e)
continue ws aborted f = (ws, aborted)

infixl 5 ◌>>=◌ ◌>>◌
abbrev pub ◌>>=◌ : {A B : Type 0} → Program A → (A → Program B) → Program B
p >>= f = continue p.0 p.1 f

abbrev pub ◌>>◌ : {A B : Type 0} → Program A → Program B → Program B
p >> q = p >>= λ _. q

abbrev pub pure : {A : Type 0} → A → Program A
pure a = ([], returned a)

-- A program that only writes.
abbrev pub Script : Type 0
Script = Program (Unit {0})

abbrev pub nothing : Script
nothing = pure tt

abbrev pub abort : {A : Type 0} → Program A
abort = ([], aborted)

-- `print!` and `println!`.
abbrev pub put : Text → Script
put s = (to_stdout s ∷ [], returned tt)

abbrev pub println : Text → Script
println s = put (s ++ b'\n' ∷ [])

-- `eprintln!`.
abbrev pub eprintln : Text → Script
eprintln s = (to_stderr (s ++ b'\n' ∷ []) ∷ [], returned tt)

-- `for x in xs { body }`.
unfoldable pub each : {A : Type 0} → (A → Script) → List A → Script
each body [] = nothing
each body (x ∷ xs) = body x >> each body xs

-- The loop over items with their numbers, which `enumerate` counts.
unfoldable pub each_from : {A : Type 0} → (ℕ → A → Script) → ℕ → List A → Script
each_from body n [] = nothing
each_from body n (x ∷ xs) = body n x >> each_from body (suc n) xs

-- `if let Some(x) = found { body }`.
abbrev pub when_some : {A : Type 0} → Option A → (A → Script) → Script
when_some none body = nothing
when_some (some x) body = body x

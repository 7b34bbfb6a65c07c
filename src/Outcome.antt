-- ===== src/Outcome.antt =====
-- C++ exceptions as values: what the program catches, and the actions that may throw.
pub mod Actions
use streaming_server.Base.{ℕ, List}

-- The exception types that reach a `catch` of this program, each with the text of `what()`.
pub data Exception : Type 0 where
  invalid_argument : List ℕ → Exception
  out_of_range : List ℕ → Exception
  length_error : List ℕ → Exception
  runtime_error : List ℕ → Exception
  json_error : List ℕ → Exception

pub data Try {ℓ} (A : Type ℓ) : Type ℓ where
  ok : A → Try A
  throw : Exception → Try A

infixl 10 ◌>>=◌
abbrev pub ◌>>=◌ {ℓ κ} : {A : Type ℓ} {B : Type κ} → Try A → (A → Try B) → Try B
ok a >>= f = f a
throw e >>= f = throw e

-- `e.what()`
abbrev pub what : Exception → List ℕ
what (invalid_argument t) = t
what (out_of_range t) = t
what (length_error t) = t
what (runtime_error t) = t
what (json_error t) = t

-- A method that may throw leaves what it changed before the exception in place.
abbrev pub Action : Type 0 → Type 0 → Type 0
Action S A = S → Try A × S

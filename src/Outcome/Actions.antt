-- ===== src/Outcome/Actions.antt =====
-- Methods that change an object and may throw, as actions with `do`: what was changed before an
-- exception stays changed.
use streaming_server.Outcome.{Try, ok, throw, Action}

module _ {S : Type 0} where
  abbrev pub pure : {A : Type 0} → A → Action S A
  pure a s = (ok a, s)

  -- A computation that may throw and leaves the object alone.
  abbrev pub lift : {A : Type 0} → Try A → Action S A
  lift t s = (t, s)

  abbrev pub modify : (S → S) → Action S (Unit {0})
  modify f s = (ok tt, f s)

  abbrev pub after : {A B : Type 0} → Try A → (A → Action S B) → Action S B
  after (ok a) f s = f a s
  after (throw e) f s = (throw e, s)

  infixl 5 ◌>>=◌ ◌>>◌
  abbrev pub ◌>>=◌ : {A B : Type 0} → Action S A → (A → Action S B) → Action S B
  ◌>>=◌ m f s = after (m s).0 f (m s).1

  abbrev pub ◌>>◌ : {B : Type 0} → Action S (Unit {0}) → Action S B → Action S B
  m >> k = m >>= λ _. k

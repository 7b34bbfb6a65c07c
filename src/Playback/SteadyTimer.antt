-- ===== src/Playback/SteadyTimer.antt =====
-- The steady timer of src/playback_controller.cpp with its one handler. A wait that has expired is
-- queued for the event loop and can no longer be cancelled.
use streaming_server.Base.{ℕ, Option, none, some, ◌+◌}
use streaming_server.Base.Int.{ℤ}

-- `waiting` is the delay of the pending wait, and `ready` counts the handlers that are queued.
pub record SteadyTimer : Type 0 where
  pub waiting : Option ℤ
  pub ready : ℕ

abbrev pub idle : SteadyTimer
idle = record { waiting = none; ready = 0 }

-- `cancel`: the handler of the pending wait runs with an error and does nothing.
unfoldable pub cancel : SteadyTimer → SteadyTimer
cancel t = record t { waiting = none }

-- `expires_after` cancels the pending wait, and `async_wait` starts one.
unfoldable pub schedule : ℤ → SteadyTimer → SteadyTimer
schedule delay t = record t { waiting = some delay }

abbrev expire_wait : Option ℤ → SteadyTimer → SteadyTimer
expire_wait none t = t
expire_wait (some delay) t = record { waiting = none; ready = t.ready + 1 }

-- Time passes: the pending wait expires.
unfoldable pub expire : SteadyTimer → SteadyTimer
expire t = expire_wait t.waiting t

-- ===== src/World.antt =====
-- The sessions of src/websocket_session.cpp and the controller of src/stream_controller.cpp together,
-- on the one thread of src/main.cpp: which pieces run, in any order, and what they post.
pub mod Events
pub mod Unwatched
pub mod Strangers
pub mod Frames
pub mod Tasks
pub mod Delivery
pub mod Welcome
pub mod Stopping
pub mod Leaving
pub mod Departure
pub mod Queues
pub mod Readers
pub mod Sound
pub mod Examples
pub mod StreamExamples
use streaming_server.Base.{
  ℕ, zero, suc, ◌+◌, Bool, true, false, ◌&&◌, ◌||◌, List, [], ◌∷◌, ◌++◌, map, Option, none, some,
  ◌==◌, if◌then◌else◌,
}
use streaming_server.Outcome.{Exception}
use streaming_server.Text.{Bytes}
use streaming_server.Session.State.{WebSocketSession, new_session}
use streaming_server.Session.Commands.{Effect, sends}
use streaming_server.Session.Reading.{Phase, accepting}
use streaming_server.Streaming.State.{StreamController}
use streaming_server.Streaming.Capture.{Turn, waits, divides_by_zero, ended}

-- A session with its reading coroutine.
pub record Client : Type 0 where
  pub session : WebSocketSession
  pub phase : Phase

-- The process runs, an exception has left `io_context::run`, or it has divided by zero.
pub data Status : Type 0 where
  running : Status
  threw : Exception → Status
  crashed : Status

-- `tasks` are the calls that are posted and have not run, `orphans` the coroutines in
-- `stop_streaming` that a destructor has spawned, and `captured` what the capture loop has passed to
-- `send_frame` so far.
pub record World (D : Type 0) : Type 0 where
  pub clients : List Client
  pub next_id : ℕ
  pub controller : StreamController D
  pub tasks : List Effect
  pub orphans : ℕ
  pub captured : List (ℕ × Bytes)
  pub status : Status

abbrev pub has_id : ℕ → Client → Bool
has_id id k = k.session.session_id == id

unfoldable pub find_client : ℕ → List Client → Option Client
find_client id [] = none
find_client id (k ∷ ks) = let rest = find_client id ks in if has_id id k then some k else rest

unfoldable pub change_client : ℕ → (Client → Client) → List Client → List Client
change_client id f [] = []
change_client id f (k ∷ ks) = (if has_id id k then f k else k) ∷ change_client id f ks

unfoldable pub drop_client : ℕ → List Client → List Client
drop_client id [] = []
drop_client id (k ∷ ks) = let rest = drop_client id ks in if has_id id k then rest else k ∷ rest

-- Whether a `weak_ptr` to the session still locks.
unfoldable pub alive : List Client → ℕ → Bool
alive [] id = false
alive (k ∷ ks) id = has_id id k || alive ks id

-- One of the posted tasks, and those that stay.
unfoldable pub pick : ℕ → List Effect → Option (Effect × List Effect)
pick k [] = none
pick zero (t ∷ ts) = some (t, ts)
pick (suc k) (t ∷ ts) = elim (pick k ts) [ none ↦ none | some (u, us) ↦ some (u, t ∷ us) ]

abbrev pub as_tasks : List (ℕ × Bytes) → List Effect
as_tasks = map (λ s. sends s.0 s.1)

abbrev pub status_of : Turn → Status
status_of divides_by_zero = crashed
status_of _ = running

abbrev pub status_after : Option Exception → Status
status_after none = running
status_after (some e) = threw e

module _ {D : Type 0} where
  -- The upgrade of a request: `HttpSession` makes a session of the server's controller and runs it.
  unfoldable pub connect : World D → World D
  connect w =
      let (s, next) = new_session w.next_id in
      record w {
        clients = w.clients ++ record { session = s; phase = accepting } ∷ [];
        next_id = next;
      }

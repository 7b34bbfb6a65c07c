-- ===== src/Session/Reading.antt =====
-- src/websocket_session.cpp, `do_run` and `do_read`: the coroutine that reads a client's messages one
-- after the other. It runs from one wait to the next; log lines are left out.
use streaming_server.Base.{true, List, [], ◌∷◌, ◌++◌, if◌then◌else◌}
use streaming_server.Text.{Bytes}
use streaming_server.Playback.State.{Doubles}
use streaming_server.Session.State.{WebSocketSession, close}
use streaming_server.Session.Commands.{Json, Surroundings, Effect, Handling}
use streaming_server.Session.Messages.{handle_message, poll_stop}
use streaming_server.Streaming.State.{StreamController}

-- What the coroutine waits for: the end of `async_accept`, of `async_read`, or of `stop_streaming`
-- in the handler of a message; or it has ended.
pub data Phase : Type 0 where
  accepting : Phase
  reading : Phase
  stopping : Phase
  finished : Phase

-- Why a read failed: one of the four codes of a closed connection, another code, or another
-- exception.
pub data ReadError : Type 0 where
  connection_gone : ReadError
  other_code : ReadError
  other_exception : ReadError

-- What the coroutine is resumed with.
pub data ReadEvent : Type 0 where
  accepts : ReadEvent
  refuses : ReadEvent
  receives : Bytes → ReadEvent
  fails : ReadError → ReadEvent
  polls : ReadEvent

-- `effects` are those of the last step.
pub record Reader (D : Type 0) : Type 0 where
  pub phase : Phase
  pub session : WebSocketSession
  pub controller : StreamController D
  pub effects : List Effect

-- The head of the loop.
abbrev pub loop_head : WebSocketSession → Phase
loop_head s = if s.is_open then reading else finished

-- The inner handlers of `do_run`. `do_read` logs and throws on.
unfoldable pub read_failed : ReadError → WebSocketSession → WebSocketSession
unfolding close
read_failed connection_gone s = s
read_failed other_code s = if s.is_open then close s else s
read_failed other_exception s = s

module _ {D : Type 0} where
  -- Behind `handle_message`, which waits or has returned.
  abbrev pub handled : Handling D → Reader D
  handled h = record {
    phase = if h.waits_for_stop then stopping else loop_head h.session;
    session = h.session;
    controller = h.controller;
    effects = h.effects;
  }

  -- The handler that waits in `stop_streaming`.
  abbrev pub waiting : Reader D → Handling D
  waiting r = record {
    session = r.session;
    controller = r.controller;
    effects = [];
    waits_for_stop = true;
  }

module _ (d : Doubles) (json : Json d.Double) (env : Surroundings) where
  -- What cannot happen in a phase changes nothing.
  abbrev pub resume : Phase → ReadEvent → Reader d.Double → Reader d.Double
  resume accepting accepts r =
      let s = record r.session { is_open = true } in
      record r { phase = loop_head s; session = s; effects = [] }
  resume accepting refuses r = record r { phase = finished; effects = [] }
  resume reading (receives message) r =
      handled (handle_message d json env message r.session r.controller)
  resume reading (fails e) r = record r {
    phase = finished;
    session = read_failed e r.session;
    effects = [];
  }
  resume stopping polls r = handled (poll_stop (waiting r))
  resume _ e r = record r { effects = [] }

  unfoldable pub read_step : ReadEvent → Reader d.Double → Reader d.Double
  read_step e r = resume r.phase e r

  -- Several steps, with all their effects in order.
  unfoldable pub read_steps : List ReadEvent → Reader d.Double → Reader d.Double
  unfolding read_step
  read_steps [] r = record r { effects = [] }
  read_steps (e ∷ es) r =
      let r' = read_step e r in
      let rest = read_steps es r' in record rest { effects = r'.effects ++ rest.effects }

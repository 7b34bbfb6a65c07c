-- ===== src/World/Readers.antt =====
-- The reading coroutine of src/websocket_session.cpp and the invariants of its session and of the
-- controller.
use streaming_server.Base.{inl, inr, Bool, true, false, Bool-cases}
use streaming_server.Text.{Bytes}
use streaming_server.Playback.State.{Doubles}
use streaming_server.Session.State.{WebSocketSession}
use streaming_server.Session.Bounded.{IsSound}
use streaming_server.Session.Commands.{Json, Surroundings, Handling}
use streaming_server.Session.Messages.{admit, check_key, poll_stop, handle_message}
use streaming_server.Session.Keeps.{keeps-handle_message}
use streaming_server.Session.Reading.{
  Phase, accepting, reading, stopping, ReadEvent, accepts, refuses, receives, fails, polls, Reader,
  handled, waiting, resume,
}
use streaming_server.Streaming.State.{StreamController}
use streaming_server.Streaming.Control.{stop_poll}
use streaming_server.Streaming.Loops.{HasOneLoop, stop_poll-HasOneLoop}
use streaming_server.Streaming.Operated.{Operated-HasOneLoop}
use streaming_server.World.Queues.{read_failed-IsSound}

-- A session and the controller that its reading coroutine has.
pub record Sound {D : Type 0} (s : WebSocketSession) (c : StreamController D) : Type 0 where
  pub queue : IsSound s
  pub loops : HasOneLoop c

module _ (d : Doubles) (json : Json d.Double) where
  abbrev HandlingSound : Handling d.Double → Type 0
  HandlingSound h = Sound h.session h.controller

  admit-Sound :
      (is_controller : Bool) (h : Handling d.Double)
      → HandlingSound h
      → HandlingSound (admit is_controller h).1
  admit-Sound true h v = record {
    queue = record { bounded = v.queue.bounded; flagged = v.queue.flagged };
    loops = v.loops;
  }
  admit-Sound false h v = record { queue = v.queue; loops = v.loops }

  check_key-Sound :
      (env : Surroundings) (role : Bytes) (right : Bool) (h : Handling d.Double)
      → HandlingSound h
      → HandlingSound (check_key env.authorized role right h).1
  check_key-Sound env role true h v =
      admit-Sound _ (record h { session = record h.session { is_authenticated = true } })
        (record {
          queue = record { bounded = v.queue.bounded; flagged = v.queue.flagged };
          loops = v.loops;
        })
  check_key-Sound env role false h v = record { queue = v.queue; loops = v.loops }

  handle_message-Sound :
      (env : Surroundings) (message : Bytes) (s : WebSocketSession) (c : StreamController d.Double)
      → Sound s c
      → HandlingSound (handle_message d json env message s c)
  handle_message-Sound env message s c v =
      keeps-handle_message d json env HandlingSound message
        (λ frame h v. record { queue = v.queue; loops = v.loops })
        (λ j parsed. record {
          replies = λ frame h v. record { queue = v.queue; loops = v.loops };
          operates = λ h c' o v. record {
            queue = v.queue;
            loops = Operated-HasOneLoop h.controller c' o v.loops;
          };
          forwards = λ h frames v. record { queue = v.queue; loops = v.loops };
          waits = λ h v. record { queue = v.queue; loops = v.loops };
          checks = λ key role h given v. check_key-Sound env role _ h v;
        })
        s c v

  abbrev pub ReaderSound : Reader d.Double → Type 0
  ReaderSound r = Sound r.session r.controller

  poll_stop-Sound : (h : Handling d.Double) → HandlingSound h → ReaderSound (handled (poll_stop h))
  unfolding poll_stop
  poll_stop-Sound h v = elim (Bool-cases (stop_poll h.controller).0) [
    | inl more ↦
        rw more (record { queue = v.queue; loops = stop_poll-HasOneLoop h.controller v.loops })
    | inr done ↦
        rw done (record { queue = v.queue; loops = stop_poll-HasOneLoop h.controller v.loops })
  ]

  pub resume-Sound :
      (env : Surroundings) (p : Phase) (e : ReadEvent) (r : Reader d.Double)
      → ReaderSound r
      → ReaderSound (resume d json env p e r)
  resume-Sound env accepting accepts r v = record {
    queue = record { bounded = v.queue.bounded; flagged = v.queue.flagged };
    loops = v.loops;
  }
  resume-Sound env accepting refuses r v = record { queue = v.queue; loops = v.loops }
  resume-Sound env reading (receives message) r v =
      let s = handle_message-Sound env message r.session r.controller v in
      record { queue = s.queue; loops = s.loops }
  resume-Sound env reading (fails e) r v = record {
    queue = read_failed-IsSound e r.session v.queue;
    loops = v.loops;
  }
  resume-Sound env stopping polls r v =
      poll_stop-Sound (waiting r) (record { queue = v.queue; loops = v.loops })
  resume-Sound env p e r v = record { queue = v.queue; loops = v.loops }

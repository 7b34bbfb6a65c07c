-- ===== src/Session/Examples.antt =====
-- A session on concrete input, and its theorems at work.
use mathlib.Core.List.{Sublist}
use streaming_server.Base.{◌≡◌, refl, true, false, List, [], ◌∷◌, ◌++◌, map, replicate, arith, ◌⊎◌}
use streaming_server.Text.{Bytes, codes}
use streaming_server.Session.State.{WebSocketSession, absent, writing}
use streaming_server.Session.Queue.{
  Event, posted, writer_starts, write_ends, write_fails, step, run, connection_closed,
}
use streaming_server.Session.Bounded.{IsSound}
use streaming_server.Session.Latest.{queue_keeps_latest, keep_last}
use streaming_server.Session.Order.{handed, sent, handed_in_order}
use streaming_server.Session.Drain.{writer_drains, queued_frame_taken}

abbrev pub open_session : WebSocketSession
open_session = record {
  session_id = 7;
  is_open = true;
  close_requested = false;
  write_queue = [];
  is_writing = false;
  writer = absent;
  is_authenticated = true;
  is_controller = false;
}

abbrev pub busy_session : WebSocketSession
busy_session = record open_session {
  write_queue = codes "b" ∷ codes "c" ∷ [];
  is_writing = true;
  writer = writing (codes "a");
}

abbrev letters : List Bytes
letters =
    (1 ∷ [])
    ∷ (2 ∷ [])
    ∷ (3 ∷ [])
    ∷ (4 ∷ [])
    ∷ (5 ∷ [])
    ∷ (6 ∷ [])
    ∷ (7 ∷ [])
    ∷ (8 ∷ [])
    ∷ (9 ∷ [])
    ∷ []

abbrev mixed : List Event
mixed =
    posted (codes "d")
    ∷ write_ends
    ∷ posted (codes "e")
    ∷ write_fails connection_closed
    ∷ posted (codes "f")
    ∷ writer_starts
    ∷ []

busy-IsSound : IsSound busy_session
busy-IsSound = record { bounded = omega arith; flagged = refl }

handed-mixed : handed busy_session mixed ≡ codes "b" ∷ codes "c" ∷ []
unfolding handed step
handed-mixed = refl

queue_keeps_latest_example :
    (run busy_session (map posted letters)).write_queue
    ≡ keep_last 10 (codes "b" ∷ codes "c" ∷ letters)
queue_keeps_latest_example = queue_keeps_latest letters busy_session refl (omega arith)

handed_in_order_example :
    Sublist
      (handed busy_session mixed ++ (run busy_session mixed).write_queue)
      (busy_session.write_queue ++ sent mixed)
handed_in_order_example = handed_in_order busy_session mixed

writer_drains_example :
    (handed busy_session (replicate 3 write_ends) ≡ codes "b" ∷ codes "c" ∷ [])
    × ((run busy_session (replicate 3 write_ends)).write_queue ≡ [])
    × ((run busy_session (replicate 3 write_ends)).writer ≡ absent)
    × ((run busy_session (replicate 3 write_ends)).is_writing ≡ false)
writer_drains_example =
    writer_drains (codes "b" ∷ codes "c" ∷ []) busy_session (codes "a") refl refl refl

open_after : (run busy_session (posted (codes "d") ∷ write_ends ∷ [])).is_open ≡ true
unfolding run step
open_after = refl

queued_after :
    (run busy_session (posted (codes "d") ∷ write_ends ∷ [])).write_queue
    ≡ codes "c" ∷ codes "d" ∷ []
unfolding run step
queued_after = refl

queued_frame_taken_example :
    (e : Event) × ((e ≡ writer_starts) ⊎ (e ≡ write_ends))
    × ((step (run busy_session (posted (codes "d") ∷ write_ends ∷ [])) e).writer
        ≡ writing (codes "c"))
    × ((step (run busy_session (posted (codes "d") ∷ write_ends ∷ [])) e).write_queue
        ≡ codes "d" ∷ [])
queued_frame_taken_example =
    queued_frame_taken busy_session (posted (codes "d") ∷ write_ends ∷ []) (codes "c")
      (codes "d" ∷ []) (omega arith) busy-IsSound (λ o ne. refl) open_after queued_after

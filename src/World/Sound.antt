-- ===== src/World/Sound.antt =====
-- The invariants of src/websocket_session.cpp and src/stream_controller.cpp in a run of src/main.cpp.
use streaming_server.Base.{ℕ, zero, suc, refl, List, [], ◌∷◌, Option, none, some, arith}
use streaming_server.Ascii.{OpenCv}
use streaming_server.Playback.State.{Doubles}
use streaming_server.Session.State.{new_session}
use streaming_server.Session.Bounded.{IsSound, enqueue-IsSound}
use streaming_server.Session.Commands.{Json, Surroundings, Effect, sends, writes, adds_viewer}
use streaming_server.Session.Reading.{ReadEvent, read_step}
use streaming_server.Streaming.Viewers.{add_viewer}
use streaming_server.Streaming.Capture.{Turned}
use streaming_server.Streaming.Loops.{
  HasOneLoop, loop_test-HasOneLoop, turn-HasOneLoop, stop_poll-HasOneLoop,
}
use streaming_server.Streaming.Media.{playback_tick}
use streaming_server.World.{
  Client, Status, running, threw, crashed, World, find_client, alive, pick, connect,
}
use streaming_server.World.Events.{
  Happening, connects, reads, writer_runs, task_runs, loop_starts, captures, player_ticks, leaves,
  orphan_polls, run_task, after_turn, leave, poll_orphan, read_client, reader_of, happen,
  if_running, world_step, world_run,
}
use streaming_server.World.Queues.{
  AllSound, change_client-AllSound, drop_client-AllSound, AllSound-append, FoundSound,
  find_client-FoundSound, writer_step-IsSound, destroy-HasOneLoop,
}
use streaming_server.World.Readers.{resume-Sound}

-- The invariant of the whole.
pub record WorldSound {D : Type 0} (w : World D) : Type 0 where
  pub queues : AllSound w.clients
  pub loops : HasOneLoop w.controller

new_session-IsSound : (next : ℕ) → IsSound (new_session next).0
unfolding new_session
new_session-IsSound next = record { bounded = omega arith; flagged = refl }

module _ (cv : OpenCv) (d : Doubles) (json : Json d.Double) where
  read_client-WorldSound :
      (id : ℕ) (env : Surroundings) (e : ReadEvent) (o : Option Client) (w : World d.Double)
      → FoundSound o
      → WorldSound w
      → WorldSound (read_client cv d json id env e o w)
  unfolding read_step
  read_client-WorldSound id env e none w f v = v
  read_client-WorldSound id env e (some k) w f v =
      let s =
        resume-Sound d json env k.phase e (reader_of cv d json k w)
          (record { queue = f; loops = v.loops }) in
      record {
        queues = change_client-AllSound id _ w.clients (λ k' v'. s.queue) v.queues;
        loops = s.loops;
      }

  run_task-WorldSound :
      (o : Option (Effect × List Effect)) (w : World d.Double)
      → WorldSound w
      → WorldSound (run_task o w)
  unfolding add_viewer
  run_task-WorldSound none w v = v
  run_task-WorldSound (some (sends id frame, ts)) w v = record {
    queues =
        change_client-AllSound id _ w.clients (λ k f. enqueue-IsSound frame k.session f) v.queues;
    loops = v.loops;
  }
  run_task-WorldSound (some (writes frame, ts)) w v = record { queues = v.queues; loops = v.loops }
  run_task-WorldSound (some (adds_viewer id, ts)) w v = record {
    queues = v.queues;
    loops = record { counted = v.loops.counted };
  }

  after_turn-WorldSound :
      (loops : ℕ) (t : Turned d.Double) (w : World d.Double)
      → HasOneLoop t.controller
      → WorldSound w
      → WorldSound (after_turn loops t w)
  after_turn-WorldSound zero t w one v = v
  after_turn-WorldSound (suc loops) t w one v = record { queues = v.queues; loops = one }

  leave-WorldSound :
      (o : Option Client) (w : World d.Double) → WorldSound w → WorldSound (leave o w)
  leave-WorldSound none w v = v
  leave-WorldSound (some k) w v = record {
    queues = drop_client-AllSound k.session.session_id w.clients v.queues;
    loops = destroy-HasOneLoop _ k.session w.controller v.loops;
  }

  poll_orphan-WorldSound :
      (n : ℕ) (w : World d.Double) → WorldSound w → WorldSound (poll_orphan n w)
  poll_orphan-WorldSound zero w v = v
  poll_orphan-WorldSound (suc n) w v = record {
    queues = v.queues;
    loops = stop_poll-HasOneLoop w.controller v.loops;
  }

  happen-WorldSound :
      (w : World d.Double) (e : Happening cv) → WorldSound w → WorldSound (happen cv d json w e)
  unfolding playback_tick connect
  happen-WorldSound w connects v = record {
    queues = AllSound-append w.clients _ v.queues (new_session-IsSound w.next_id);
    loops = v.loops;
  }
  happen-WorldSound w (reads id env e) v =
      read_client-WorldSound id env e (find_client id w.clients) w
        (find_client-FoundSound id w.clients v.queues) v
  happen-WorldSound w (writer_runs id e) v = record {
    queues =
        change_client-AllSound id _ w.clients (λ k f. writer_step-IsSound e k.session f) v.queues;
    loops = v.loops;
  }
  happen-WorldSound w (task_runs k) v = run_task-WorldSound (pick k w.tasks) w v
  happen-WorldSound w loop_starts v =
      after_turn-WorldSound w.controller.loops _ w (loop_test-HasOneLoop [] w.controller v.loops) v
  happen-WorldSound w (captures now frame) v =
      after_turn-WorldSound w.controller.loops _ w
        (turn-HasOneLoop cv (alive w.clients) now frame w.controller v.loops) v
  happen-WorldSound w player_ticks v = record {
    queues = v.queues;
    loops = record { counted = v.loops.counted };
  }
  happen-WorldSound w (leaves id) v = leave-WorldSound (find_client id w.clients) w v
  happen-WorldSound w orphan_polls v = poll_orphan-WorldSound w.orphans w v

  if_running-WorldSound :
      (s : Status) (w w' : World d.Double)
      → WorldSound w
      → WorldSound w'
      → WorldSound (if_running cv d json s w w')
  if_running-WorldSound running w w' v v' = v'
  if_running-WorldSound (threw e) w w' v v' = v
  if_running-WorldSound crashed w w' v v' = v

  -- Whatever the clients send and in whatever order the pieces of the server run: every session that
  -- is connected has at most ten frames in its queue, and a writer exactly when `is_writing_` says so;
  -- and one capture loop exists while the stream counts as running, and none otherwise. This holds if
  -- it holds at first.
  pub world_run-WorldSound :
      (w : World d.Double) (es : List (Happening cv))
      → WorldSound w
      → WorldSound (world_run cv d json w es)
  unfolding world_run world_step
  world_run-WorldSound w [] v = v
  world_run-WorldSound w (e ∷ es) v =
      world_run-WorldSound (world_step cv d json w e) es
        (if_running-WorldSound w.status w (happen cv d json w e) v (happen-WorldSound w e v))

-- ===== src/World/Events.antt =====
-- The pieces that the one thread of the server runs, and a run of them in any order.
use streaming_server.Base.{
  ℕ, zero, suc, ◌+◌, ◌&&◌, List, [], ◌∷◌, ◌++◌, Option, none, some, if◌then◌else◌,
}
use streaming_server.Ascii.{OpenCv}
use streaming_server.Playback.State.{Doubles}
use streaming_server.Session.State.{WebSocketSession}
use streaming_server.Session.Queue.{Event, posted, step, enqueue}
use streaming_server.Session.Commands.{Json, Surroundings, Effect, sends, writes, adds_viewer}
use streaming_server.Session.Reading.{ReadEvent, Reader, read_step}
use streaming_server.Session.Farewell.{destroy}
use streaming_server.Streaming.Viewers.{add_viewer}
use streaming_server.Streaming.Control.{stop_poll}
use streaming_server.Streaming.Capture.{Turned, loop_test, capture_turn}
use streaming_server.Streaming.Media.{playback_tick}
use streaming_server.World.{
  Client, Status, running, World, find_client, change_client, drop_client, alive, pick, as_tasks,
  status_of, status_after, connect,
}

-- What the thread runs next: an upgrade of a connection, the reading coroutine of a session, its
-- writer, a posted task, a turn of the capture loop or its first test, the player's timer, the end
-- of a session, or a stop that a destructor has spawned.
pub data Happening (cv : OpenCv) : Type 0 where
  connects : Happening cv
  reads : ℕ → Surroundings → ReadEvent → Happening cv
  writer_runs : ℕ → Event → Happening cv
  task_runs : ℕ → Happening cv
  loop_starts : Happening cv
  captures : ℕ → cv.Mat → Happening cv
  player_ticks : Happening cv
  leaves : ℕ → Happening cv
  orphan_polls : Happening cv

-- Frames are posted by tasks only.
abbrev pub writer_step : Event → WebSocketSession → WebSocketSession
writer_step (posted frame) s = s
writer_step e s = step s e

module _ {D : Type 0} where
  abbrev pub run_task : Option (Effect × List Effect) → World D → World D
  run_task none w = w
  run_task (some (sends id frame, ts)) w = record w {
    tasks = ts;
    clients = change_client id (λ k. record k { session = enqueue frame k.session }) w.clients;
  }
  run_task (some (writes frame, ts)) w = record w { tasks = ts }
  run_task (some (adds_viewer id, ts)) w = record w {
    tasks = ts;
    controller = add_viewer id w.controller;
  }

  -- A turn of a capture loop needs a loop.
  abbrev pub after_turn : ℕ → Turned D → World D → World D
  after_turn zero t w = w
  after_turn (suc n) t w = record w {
    controller = t.controller;
    tasks = w.tasks ++ as_tasks t.sends;
    captured = w.captured ++ t.sends;
    status = status_of t.next;
  }

  abbrev pub leave : Option Client → World D → World D
  leave none w = w
  leave (some k) w = record w {
    clients = drop_client k.session.session_id w.clients;
    controller =
        destroy (alive (drop_client k.session.session_id w.clients)) k.session w.controller;
    orphans =
        if k.session.is_controller && w.controller.is_streaming then w.orphans + 1 else w.orphans;
  }

  abbrev pub poll_orphan : ℕ → World D → World D
  poll_orphan zero w = w
  poll_orphan (suc n) w =
      let (waits, c) = stop_poll w.controller in
      record w { controller = c; orphans = if waits then suc n else n }

module _ (cv : OpenCv) (d : Doubles) (json : Json d.Double) where
  abbrev pub reader_of : Client → World d.Double → Reader d.Double
  reader_of k w = record {
    phase = k.phase;
    session = k.session;
    controller = w.controller;
    effects = [];
  }

  abbrev pub put_reader : ℕ → Reader d.Double → World d.Double → World d.Double
  put_reader id r w = record w {
    clients = change_client id (λ k. record { session = r.session; phase = r.phase }) w.clients;
    controller = r.controller;
    tasks = w.tasks ++ r.effects;
  }

  abbrev pub read_client :
      ℕ → Surroundings → ReadEvent → Option Client → World d.Double → World d.Double
  read_client id env e none w = w
  read_client id env e (some k) w = put_reader id (read_step d json env e (reader_of k w)) w

  abbrev pub happen : World d.Double → Happening cv → World d.Double
  happen w connects = connect w
  happen w (reads id env e) = read_client id env e (find_client id w.clients) w
  happen w (writer_runs id e) = record w {
    clients = change_client id (λ k. record k { session = writer_step e k.session }) w.clients;
  }
  happen w (task_runs k) = run_task (pick k w.tasks) w
  happen w loop_starts = after_turn w.controller.loops (loop_test [] w.controller) w
  happen w (captures now frame) =
      after_turn w.controller.loops (capture_turn cv (alive w.clients) now frame w.controller) w
  happen w player_ticks =
      let o = playback_tick d.scale w.controller in
      record w {
        controller = o.controller;
        tasks = w.tasks ++ as_tasks o.sends;
        status = status_after o.thrown;
      }
  happen w (leaves id) = leave (find_client id w.clients) w
  happen w orphan_polls = poll_orphan w.orphans w

  -- Nothing happens in a process that has ended.
  abbrev pub if_running : Status → World d.Double → World d.Double → World d.Double
  if_running running w w' = w'
  if_running s w w' = w

  unfoldable pub world_step : World d.Double → Happening cv → World d.Double
  world_step w e = if_running w.status w (happen w e)

  unfoldable pub world_run : World d.Double → List (Happening cv) → World d.Double
  unfolding world_step
  world_run w [] = w
  world_run w (e ∷ es) = world_run (world_step w e) es

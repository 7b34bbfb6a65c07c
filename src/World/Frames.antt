-- ===== src/World/Frames.antt =====
-- Who receives the frames of the camera in a run of src/main.cpp.
use streaming_server.Base.{
  ℕ, zero, suc, ◌≡◌, refl, ◌∙◌, inl, inr, false, List, [], ◌∷◌, ◌++◌, Option, none, some, ==_iff,
  All, arith, Bool-cases,
}
use streaming_server.Text.{Bytes}
use streaming_server.Ascii.{OpenCv}
use streaming_server.Playback.State.{Doubles}
use streaming_server.Session.Commands.{Json, Surroundings, Effect, sends, writes, adds_viewer}
use streaming_server.Session.Rights.{adds, adds-append, adds-sends}
use streaming_server.Session.Reading.{ReadEvent, read_step}
use streaming_server.Streaming.Viewers.{add_viewer}
use streaming_server.Streaming.Capture.{Turned}
use streaming_server.Streaming.Media.{playback_tick}
use streaming_server.World.{
  Client, Status, running, threw, crashed, World, has_id, find_client, alive, pick, connect,
  as_tasks,
}
use streaming_server.World.Unwatched.{
  sent_to-append, PicksNone, pick-PicksNone, Dark, loop_test-Dark, capture_turn-Dark,
  stop_poll-unwatched, destroy-unwatched, occurs-append,
}
use streaming_server.World.Strangers.{KeylessAt, resume-Apart, IsStranger}
use streaming_server.World.Events.{
  Happening, connects, reads, writer_runs, task_runs, loop_starts, captures, player_ticks, leaves,
  orphan_polls, run_task, after_turn, leave, poll_orphan, read_client, reader_of, happen,
  if_running, world_step, world_run,
}

-- A session that is found has the identifier that was looked for.
abbrev pub Has : ℕ → Option Client → Type 0
Has id none = Unit
Has id (some k) = k.session.session_id ≡ id

pub find_client-Has : (id : ℕ) (ks : List Client) → Has id (find_client id ks)
unfolding find_client
find_client-Has id [] = tt
find_client-Has id (k ∷ ks) = elim (Bool-cases (has_id id k)) [
  | inl found ↦ rw found ((==_iff k.session.session_id id).0 found)
  | inr another ↦ rw another (find_client-Has id ks)
]

module _ (cv : OpenCv) (d : Doubles) (json : Json d.Double) (n : ℕ) where
  run_task-IsStranger :
      (o : Option (Effect × List Effect)) (w : World d.Double)
      → PicksNone n o
      → IsStranger d json n w
      → IsStranger d json n (run_task o w)
  unfolding add_viewer
  run_task-IsStranger none w p v = v
  run_task-IsStranger (some (sends id frame, ts)) w p v = record {
    unwatched = v.unwatched;
    unposted = p.1;
    unsent = v.unsent;
  }
  run_task-IsStranger (some (writes frame, ts)) w p v = record {
    unwatched = v.unwatched;
    unposted = p.1;
    unsent = v.unsent;
  }
  run_task-IsStranger (some (adds_viewer id, ts)) w p v = record {
    unwatched = occurs-append n w.controller.viewers (id ∷ []) ∙ ground (arith, p.0, v.unwatched);
    unposted = p.1;
    unsent = v.unsent;
  }

  posted_more :
      (w : World d.Double) (sent : List (ℕ × Bytes))
      → adds n w.tasks ≡ false
      → adds n (w.tasks ++ as_tasks sent) ≡ false
  posted_more w sent h =
      adds-append n w.tasks (as_tasks sent) ∙ ground (arith, h, adds-sends n sent)

  after_turn-IsStranger :
      (loops : ℕ) (t : Turned d.Double) (w : World d.Double)
      → Dark n t
      → IsStranger d json n w
      → IsStranger d json n (after_turn loops t w)
  after_turn-IsStranger zero t w dark v = v
  after_turn-IsStranger (suc loops) t w dark v = record {
    unwatched = dark.unwatched;
    unposted = posted_more w t.sends v.unposted;
    unsent = sent_to-append n w.captured t.sends ∙ ground (arith, v.unsent, dark.unsent);
  }

  leave-IsStranger :
      (o : Option Client) (w : World d.Double)
      → IsStranger d json n w
      → IsStranger d json n (leave o w)
  leave-IsStranger none w v = v
  leave-IsStranger (some k) w v = record {
    unwatched = destroy-unwatched n _ k.session w.controller v.unwatched;
    unposted = v.unposted;
    unsent = v.unsent;
  }

  poll_orphan-IsStranger :
      (orphans : ℕ) (w : World d.Double)
      → IsStranger d json n w
      → IsStranger d json n (poll_orphan orphans w)
  poll_orphan-IsStranger zero w v = v
  poll_orphan-IsStranger (suc orphans) w v = record {
    unwatched = stop_poll-unwatched n w.controller v.unwatched;
    unposted = v.unposted;
    unsent = v.unsent;
  }

  read_client-IsStranger :
      (id : ℕ) (env : Surroundings) (e : ReadEvent) (o : Option Client) (w : World d.Double)
      → Has id o
      → KeylessAt d json n id env e
      → IsStranger d json n w
      → IsStranger d json n (read_client cv d json id env e o w)
  unfolding read_step
  read_client-IsStranger id env e none w own keyless v = v
  read_client-IsStranger id env e (some k) w own keyless v =
      let apart =
        resume-Apart d json n id env k.phase e (reader_of cv d json k w) own keyless v.unwatched in
      record {
        unwatched = apart.unwatched;
        unposted =
            adds-append n w.tasks (read_step d json env e (reader_of cv d json k w)).effects
            ∙ ground (arith, v.unposted, apart.unposted);
        unsent = v.unsent;
      }

  -- What the session `n` reads, if it reads, is no message with the key.
  abbrev pub KeylessFor : Happening cv → Type 0
  KeylessFor (reads id env e) = KeylessAt d json n id env e
  KeylessFor _ = Unit

  happen-IsStranger :
      (w : World d.Double) (e : Happening cv)
      → KeylessFor e
      → IsStranger d json n w
      → IsStranger d json n (happen cv d json w e)
  unfolding playback_tick connect
  happen-IsStranger w connects k v = record {
    unwatched = v.unwatched;
    unposted = v.unposted;
    unsent = v.unsent;
  }
  happen-IsStranger w (reads id env e) k v =
      read_client-IsStranger id env e (find_client id w.clients) w (find_client-Has id w.clients) k
        v
  happen-IsStranger w (writer_runs id e) k v = record {
    unwatched = v.unwatched;
    unposted = v.unposted;
    unsent = v.unsent;
  }
  happen-IsStranger w (task_runs i) k v =
      run_task-IsStranger (pick i w.tasks) w (pick-PicksNone n i w.tasks v.unposted) v
  happen-IsStranger w loop_starts k v =
      after_turn-IsStranger w.controller.loops _ w
        (loop_test-Dark n [] w.controller v.unwatched refl) v
  happen-IsStranger w (captures now frame) k v =
      after_turn-IsStranger w.controller.loops _ w
        (capture_turn-Dark n cv (alive w.clients) now frame w.controller v.unwatched) v
  happen-IsStranger w player_ticks k v = record {
    unwatched = v.unwatched;
    unposted = posted_more w _ v.unposted;
    unsent = v.unsent;
  }
  happen-IsStranger w (leaves id) k v = leave-IsStranger (find_client id w.clients) w v
  happen-IsStranger w orphan_polls k v = poll_orphan-IsStranger w.orphans w v

  if_running-IsStranger :
      (s : Status) (w w' : World d.Double)
      → IsStranger d json n w
      → IsStranger d json n w'
      → IsStranger d json n (if_running cv d json s w w')
  if_running-IsStranger running w w' v v' = v'
  if_running-IsStranger (threw e) w w' v v' = v
  if_running-IsStranger crashed w w' v v' = v

  -- Whatever the clients of the server send and in whatever order its pieces run: a session none of
  -- whose messages carries the key, and that is no viewer at first and of which no task makes one, is
  -- never a viewer, and no frame of the camera is passed to its `send_frame`.
  pub keyless_receives_no_frame :
      (w : World d.Double) (es : List (Happening cv))
      → All KeylessFor es
      → IsStranger d json n w
      → IsStranger d json n (world_run cv d json w es)
  unfolding world_run world_step
  keyless_receives_no_frame w [] k v = v
  keyless_receives_no_frame w (e ∷ es) k v =
      keyless_receives_no_frame (world_step cv d json w e) es k.1
        (if_running-IsStranger w.status w (happen cv d json w e) v (happen-IsStranger w e k.0 v))

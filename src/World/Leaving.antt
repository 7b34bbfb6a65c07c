-- ===== src/World/Leaving.antt =====
-- A run of src/main.cpp behind the end of a controller's session: what may happen until the capture loop
-- of src/stream_controller.cpp sees the stop, and until the stop sees the end of the loop.
use streaming_server.Base.{
  ℕ, zero, suc, ◌+◌, ◌&&◌, ◌≡◌, refl, sym, subst, Bool, true, false, List, Option, none, some,
  arith, if◌then◌else◌,
}
use streaming_server.Ascii.{OpenCv}
use streaming_server.Playback.State.{Doubles}
use streaming_server.Session.Commands.{Json, Surroundings, Effect, sends, writes, adds_viewer}
use streaming_server.Session.Reading.{ReadEvent, read_step}
use streaming_server.Streaming.Viewers.{add_viewer}
use streaming_server.World.{Client, running, World, find_client, pick, connect}
use streaming_server.World.Events.{
  Happening, connects, reads, writer_runs, task_runs, loop_starts, captures, player_ticks, leaves,
  orphan_polls, run_task, leave, poll_orphan, read_client, reader_of, happen,
}
use streaming_server.World.Stopping.{
  IsStopping, IsStopped, destroy-IsStopping, destroy-IsStopped, polled_in_vain, resume-IsStopping,
}

more_orphans : (b : Bool) {n m : ℕ} → n ≡ suc m → (k : ℕ) × ((if b then n + 1 else n) ≡ suc k)
more_orphans true {n} {m} e = (n, omega arith)
more_orphans false {n} {m} e = (m, e)

module _ {D : Type 0} where
  -- The stop has been asked for, and a coroutine polls for its end.
  pub record Leaving (w : World D) : Type 0 where
    pub status : w.status ≡ running
    pub stopping : IsStopping w.controller
    pub polled : (n : ℕ) × (w.orphans ≡ suc n)

  -- The loop has ended.
  pub record Left (w : World D) : Type 0 where
    pub status : w.status ≡ running
    pub stopped : IsStopped w.controller
    pub polled : (n : ℕ) × (w.orphans ≡ suc n)

  leave-keeps : (o : Option Client) (w : World D) → Leaving w → Leaving (leave o w)
  leave-keeps none w v = v
  leave-keeps (some k) w v = record {
    status = v.status;
    stopping = destroy-IsStopping _ k.session w.controller v.stopping;
    polled = more_orphans (k.session.is_controller && w.controller.is_streaming) v.polled.1;
  }

  leave-keeps_ended : (o : Option Client) (w : World D) → Left w → Left (leave o w)
  leave-keeps_ended none w v = v
  leave-keeps_ended (some k) w v = record {
    status = v.status;
    stopped = destroy-IsStopped _ k.session w.controller v.stopped;
    polled = more_orphans (k.session.is_controller && w.controller.is_streaming) v.polled.1;
  }

  task-keeps :
      (o : Option (Effect × List Effect)) (w : World D) → Leaving w → Leaving (run_task o w)
  unfolding add_viewer
  task-keeps none w v = v
  task-keeps (some (sends id frame, ts)) w v = record {
    status = v.status;
    stopping = v.stopping;
    polled = v.polled;
  }
  task-keeps (some (writes frame, ts)) w v = record {
    status = v.status;
    stopping = v.stopping;
    polled = v.polled;
  }
  task-keeps (some (adds_viewer id, ts)) w v = record {
    status = v.status;
    stopping = record {
      asked = v.stopping.asked;
      streams = v.stopping.streams;
      one = v.stopping.one;
    };
    polled = v.polled;
  }

  task-keeps_ended :
      (o : Option (Effect × List Effect)) (w : World D) → Left w → Left (run_task o w)
  unfolding add_viewer
  task-keeps_ended none w v = v
  task-keeps_ended (some (sends id frame, ts)) w v = record {
    status = v.status;
    stopped = v.stopped;
    polled = v.polled;
  }
  task-keeps_ended (some (writes frame, ts)) w v = record {
    status = v.status;
    stopped = v.stopped;
    polled = v.polled;
  }
  task-keeps_ended (some (adds_viewer id, ts)) w v = record {
    status = v.status;
    stopped = record { stopped = v.stopped.stopped; loops = v.stopped.loops };
    polled = v.polled;
  }

  -- Until the loop has ended, a poll changes nothing.
  poll-keeps : (n : ℕ) (w : World D) → w.orphans ≡ n → Leaving w → Leaving (poll_orphan n w)
  poll-keeps zero w e v = v
  poll-keeps (suc n) w e v =
      subst (λ p. Leaving (record w { controller = p.1; orphans = if p.0 then suc n else n }))
        (sym (polled_in_vain w.controller v.stopping.streams))
        (record { status = v.status; stopping = v.stopping; polled = (n, refl) })

module _ (cv : OpenCv) where
  -- What may run before the turn of the loop: all but a test of the loop and a tick of the player, which may
  -- throw.
  abbrev pub IsCalm : Happening cv → Type 0
  IsCalm loop_starts = ⊥
  IsCalm (captures now frame) = ⊥
  IsCalm player_ticks = ⊥
  IsCalm _ = Unit

  -- What may run between the turn and the poll: no message is read either, which could start a stream.
  abbrev pub IsQuiet : Happening cv → Type 0
  IsQuiet connects = Unit
  IsQuiet (writer_runs id e) = Unit
  IsQuiet (task_runs k) = Unit
  IsQuiet (leaves id) = Unit
  IsQuiet _ = ⊥

module _ (cv : OpenCv) (d : Doubles) (json : Json d.Double) where
  read-keeps :
      (id : ℕ) (env : Surroundings) (e : ReadEvent) (o : Option Client) (w : World d.Double)
      → Leaving w
      → Leaving (read_client cv d json id env e o w)
  unfolding read_step
  read-keeps id env e none w v = v
  read-keeps id env e (some k) w v = record {
    status = v.status;
    stopping = resume-IsStopping d json env k.phase e (reader_of cv d json k w) v.stopping;
    polled = v.polled;
  }

  pub calm-keeps :
      (w : World d.Double) (e : Happening cv)
      → IsCalm cv e
      → Leaving w
      → Leaving (happen cv d json w e)
  unfolding connect
  calm-keeps w connects q v = record { status = v.status; stopping = v.stopping; polled = v.polled }
  calm-keeps w (reads id env e) q v = read-keeps id env e (find_client id w.clients) w v
  calm-keeps w (writer_runs id e) q v = record {
    status = v.status;
    stopping = v.stopping;
    polled = v.polled;
  }
  calm-keeps w (task_runs k) q v = task-keeps (pick k w.tasks) w v
  calm-keeps w loop_starts q v = absurd q
  calm-keeps w (captures now frame) q v = absurd q
  calm-keeps w player_ticks q v = absurd q
  calm-keeps w (leaves id) q v = leave-keeps (find_client id w.clients) w v
  calm-keeps w orphan_polls q v = poll-keeps w.orphans w refl v

  pub quiet-keeps :
      (w : World d.Double) (e : Happening cv) → IsQuiet cv e → Left w → Left (happen cv d json w e)
  unfolding connect
  quiet-keeps w connects q v = record { status = v.status; stopped = v.stopped; polled = v.polled }
  quiet-keeps w (reads id env e) q v = absurd q
  quiet-keeps w (writer_runs id e) q v = record {
    status = v.status;
    stopped = v.stopped;
    polled = v.polled;
  }
  quiet-keeps w (task_runs k) q v = task-keeps_ended (pick k w.tasks) w v
  quiet-keeps w loop_starts q v = absurd q
  quiet-keeps w (captures now frame) q v = absurd q
  quiet-keeps w player_ticks q v = absurd q
  quiet-keeps w (leaves id) q v = leave-keeps_ended (find_client id w.clients) w v
  quiet-keeps w orphan_polls q v = absurd q

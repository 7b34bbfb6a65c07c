-- ===== src/World/Departure.antt =====
-- The end of a controller's session in src/websocket_session.cpp, up to the end of the stream in
-- src/stream_controller.cpp.
use streaming_server.Base.{
  ℕ, zero, suc, ◌≡◌, refl, ap, sym, ◌∙◌, subst, Bool, true, false, List, [], ◌∷◌, ◌++◌, some, All,
  arith,
}
use streaming_server.Text.{Bytes}
use streaming_server.Ascii.{OpenCv}
use streaming_server.Video.{close}
use streaming_server.Playback.State.{Doubles}
use streaming_server.Session.Commands.{Json}
use streaming_server.Session.Farewell.{destroy}
use streaming_server.Streaming.State.{StreamController}
use streaming_server.Streaming.Control.{stop_poll, cleanup}
use streaming_server.Streaming.Turns.{after_frame, frames_for, capture_turn_holds}
use streaming_server.Streaming.Capture.{Turned, ended, loop_test, capture_turn}
use streaming_server.Streaming.Loops.{HasOneLoop, loops_of}
use streaming_server.World.{Client, running, World, find_client, alive, status_of}
use streaming_server.World.Events.{
  Happening, captures, leaves, orphan_polls, after_turn, leave, poll_orphan, happen, world_step,
  world_run,
}
use streaming_server.World.Delivery.{step_on}
use streaming_server.World.Leaving.{Leaving, Left, IsCalm, IsQuiet, calm-keeps, quiet-keeps}
use streaming_server.World.Stopping.{stop_request-IsStopping}

module _ {D : Type 0} where
  -- The last turn of a capture loop that was the only one.
  record LastTurn (t : Turned D) : Type 0 where
    pub next : t.next ≡ ended
    pub stopped : t.controller.is_streaming ≡ false
    pub loops : t.controller.loops ≡ 0

  loop_test-LastTurn :
      (out : List (ℕ × Bytes)) (c : StreamController D)
      → c.stop_requested ≡ true
      → c.loops ≡ 1
      → LastTurn (loop_test out c)
  unfolding loop_test
  loop_test-LastTurn out c asked one =
      rw asked (record { next = refl; stopped = refl; loops = omega (arith, one) })

  capture_turn-LastTurn :
      (cv : OpenCv) (live : ℕ → Bool) (now : ℕ) (frame : cv.Mat) (c : StreamController D)
      → c.stop_requested ≡ true
      → c.loops ≡ 1
      → LastTurn (capture_turn cv live now frame c)
  capture_turn-LastTurn cv live now frame c asked one =
      capture_turn_holds live now LastTurn cv frame c (loop_test-LastTurn [] c asked one)
        (record { next = refl; stopped = refl; loops = omega (arith, one) })
        (λ text.
          loop_test-LastTurn (frames_for live now text c) (after_frame live now text c) asked one)

  -- The stream is over: no loop runs, the camera is closed, and there is no viewer.
  pub record IsOver (w : World D) : Type 0 where
    pub status : w.status ≡ running
    pub stopped : w.controller.is_streaming ≡ false
    pub loops : w.controller.loops ≡ 0
    pub closed : w.controller.video_source.cap_open ≡ false
    pub unwatched : w.controller.viewers ≡ []

  leave-Leaving :
      (k : Client) (w : World D)
      → w.status ≡ running
      → k.session.is_controller ≡ true
      → w.controller.is_streaming ≡ true
      → w.controller.loops ≡ 1
      → Leaving (leave (some k) w)
  unfolding destroy
  leave-Leaving k w on controls runs one = record {
    status = on;
    stopping = rw controls (stop_request-IsStopping w.controller runs one);
    polled = (w.orphans, rw (controls, runs) (omega arith));
  }

  after_turn-Left :
      (n : ℕ) (t : Turned D) (w : World D)
      → n ≡ 1
      → LastTurn t
      → Leaving w
      → Left (after_turn n t w)
  after_turn-Left zero t w one last v = absurd (omega (arith, one))
  after_turn-Left (suc n) t w one last v = record {
    status = ap status_of last.next;
    stopped = record { stopped = last.stopped; loops = last.loops };
    polled = v.polled;
  }

  poll_orphan-IsOver : (n : ℕ) (w : World D) (m : ℕ) → n ≡ suc m → Left w → IsOver (poll_orphan n w)
  unfolding stop_poll cleanup close
  poll_orphan-IsOver zero w m e v = absurd (omega (arith, e))
  poll_orphan-IsOver (suc n) w m e v = record {
    status = v.status;
    stopped = rw v.stopped.stopped refl;
    loops = rw v.stopped.stopped v.stopped.loops;
    closed = rw v.stopped.stopped (ground arith);
    unwatched = rw v.stopped.stopped refl;
  }

module _ (cv : OpenCv) (d : Doubles) (json : Json d.Double) where
  -- What some events keep holds when they have run.
  through :
      (P R : World d.Double → Type 0) (Q : Happening cv → Type 0) (rest : List (Happening cv))
      → ((w : World d.Double) → P w → w.status ≡ running)
      → ((w : World d.Double) (e : Happening cv) → Q e → P w → P (happen cv d json w e))
      → ((w : World d.Double) → P w → R (world_run cv d json w rest))
      → (es : List (Happening cv)) (w : World d.Double) → All Q es
      → P w
      → R (world_run cv d json w (es ++ rest))
  unfolding world_run
  through P R Q rest on keeps finish [] w q v = finish w v
  through P R Q rest on keeps finish (e ∷ es) w q v =
      through P R Q rest on keeps finish es (world_step cv d json w e) q.1
        (subst P (sym (step_on cv d json w e (on w v))) (keeps w e q.0 v))

  last_turn_taken :
      (w : World d.Double) (now : ℕ) (frame : cv.Mat)
      → Leaving w
      → Left (world_step cv d json w (captures now frame))
  last_turn_taken w now frame v =
      subst Left (sym (step_on cv d json w (captures now frame) v.status)) (
        after_turn-Left w.controller.loops _ w v.stopping.one
          (capture_turn-LastTurn cv (alive w.clients) now frame w.controller v.stopping.asked
            v.stopping.one)
          v)

  last_poll_taken :
      (w : World d.Double) → Left w → IsOver (world_run cv d json w (orphan_polls ∷ []))
  unfolding world_run
  last_poll_taken w v =
      subst IsOver (sym (step_on cv d json w orphan_polls v.status))
        (poll_orphan-IsOver w.orphans w v.polled.0 v.polled.1 v)

  turn_then_poll :
      (now : ℕ) (frame : cv.Mat) (between : List (Happening cv)) (w : World d.Double)
      → All (IsQuiet cv) between
      → Leaving w
      → IsOver (world_run cv d json w (captures now frame ∷ (between ++ orphan_polls ∷ [])))
  unfolding world_run
  turn_then_poll now frame between w q v =
      through Left IsOver (IsQuiet cv) (orphan_polls ∷ []) (λ w v. v.status) (quiet-keeps cv d json)
        last_poll_taken between _ q (last_turn_taken w now frame v)

  -- When the session of a controller ends while one capture loop runs, the stream is over after the
  -- next turn of the loop, whatever the camera gives then and whether it can be converted, and the
  -- next poll of the stop after that: no loop runs, the camera is closed, and nobody watches, other
  -- controllers included. The process goes on. Anything may run before the turn but a tick of the
  -- player and the first test of the loop; between the turn and the poll, connections, writers, posted
  -- tasks and ends of sessions may run, but no message is read.
  pub departure_ends_stream :
      (w : World d.Double) (k : Client) (id now : ℕ) (frame : cv.Mat)
      (before between : List (Happening cv))
      → w.status ≡ running
      → find_client id w.clients ≡ some k
      → k.session.is_controller ≡ true
      → w.controller.is_streaming ≡ true
      → HasOneLoop w.controller
      → All (IsCalm cv) before
      → All (IsQuiet cv) between
      → IsOver (
          world_run cv d json w
            (leaves id ∷ (before ++ captures now frame ∷ (between ++ orphan_polls ∷ []))))
  unfolding world_run
  departure_ends_stream w k id now frame before between on found controls runs v calm quiet =
      let step = step_on cv d json w (leaves id) on ∙ ap (λ o. leave o w) found in
      let leaving = leave-Leaving k w on controls runs (v.counted ∙ ap loops_of runs) in
      through Leaving IsOver (IsCalm cv) (captures now frame ∷ (between ++ orphan_polls ∷ []))
        (λ w v. v.status) (calm-keeps cv d json) (λ w v. turn_then_poll now frame between w quiet v)
        before _ calm (subst Leaving (sym step) leaving)

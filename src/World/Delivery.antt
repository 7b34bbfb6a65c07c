-- ===== src/World/Delivery.antt =====
-- The way of a frame from the capture loop of src/stream_controller.cpp to the queue of a viewer in
-- src/websocket_session.cpp.
use streaming_server.Base.{
  ℕ, suc, ◌≡◌, refl, ap, sym, ◌∙◌, subst, inl, inr, Bool, true, false, not, ◌&&◌, List, [], ◌∷◌,
  map, some, ◌==◌, arith, Bool-cases,
}
use streaming_server.Base.Int.{pos}
use streaming_server.Outcome.{ok}
use streaming_server.Text.{Bytes}
use streaming_server.Ascii.{OpenCv, convert}
use streaming_server.Playback.State.{Doubles}
use streaming_server.Session.State.{WebSocketSession}
use streaming_server.Session.Queue.{enqueue}
use streaming_server.Session.Commands.{Json}
use streaming_server.Streaming.State.{StreamController}
use streaming_server.Streaming.Turns.{after_frame, frames_for, with_text_lem}
use streaming_server.Streaming.Capture.{Turned, frame_delay, loop_test, capture_turn}
use streaming_server.Streaming.Broadcast.{occurs, keep_if}
use streaming_server.World.{Client, running, World, find_client, alive, as_tasks, status_of}
use streaming_server.World.Events.{
  Happening, captures, task_runs, run_task, after_turn, happen, if_running, world_step, world_run,
}
use streaming_server.World.Tasks.{
  found_is_alive, occurs-keep_if, Pickable, pick-sends, pick-append, change_client-find,
}

-- A turn that sends the frame, and behind which the process goes on.
record Sends {D : Type 0} (sent : List (ℕ × Bytes)) (t : Turned D) : Type 0 where
  pub right : t.sends ≡ sent
  pub goes_on : status_of t.next ≡ running

delay_goes_on : (m : ℕ) → status_of (frame_delay (pos (suc m))) ≡ running
delay_goes_on m = let counted : (suc m == 0) ≡ false = ground arith in rw counted refl

module _ {D : Type 0} (m : ℕ) where
  loop_test-Sends :
      (out : List (ℕ × Bytes)) (c : StreamController D)
      → c.fps ≡ pos (suc m)
      → Sends out (loop_test out c)
  unfolding loop_test
  loop_test-Sends out c rate = elim (Bool-cases (not c.stop_requested && c.is_streaming)) [
    | inl more ↦ rw (more, rate) (record { right = refl; goes_on = delay_goes_on m })
    | inr done ↦ rw done (record { right = refl; goes_on = refl })
  ]

  capture_turn-Sends :
      (cv : OpenCv) (live : ℕ → Bool) (now : ℕ) (frame : cv.Mat) (text : Bytes)
      (c : StreamController D)
      → c.fps ≡ pos (suc m)
      → cv.empty frame ≡ false
      → convert cv c.ascii_converter frame c.frame_width c.frame_height ≡ ok text
      → Sends (map (λ v. (v, text)) (keep_if live c.viewers)) (capture_turn cv live now frame c)
  unfolding capture_turn
  capture_turn-Sends cv live now frame text c rate given converted =
      rw (given, converted)
        (subst (Sends (frames_for live now text c)) (sym (with_text_lem live now text c))
          (loop_test-Sends (frames_for live now text c) (after_frame live now text c) rate))

-- The session behind its frame.
abbrev pub with_frame : Bytes → Client → Client
with_frame text k = record k { session = enqueue text k.session }

enqueue-id : (text : Bytes) (s : WebSocketSession) → (enqueue text s).session_id ≡ s.session_id
unfolding enqueue
enqueue-id text s = ground arith

module _ (cv : OpenCv) (d : Doubles) (json : Json d.Double) where
  pub step_on :
      (w : World d.Double) (e : Happening cv)
      → w.status ≡ running
      → world_step cv d json w e ≡ happen cv d json w e
  unfolding world_step
  step_on w e on = ap (λ s. if_running cv d json s w (happen cv d json w e)) on

module _ (cv : OpenCv) (d : Doubles) (json : Json d.Double) (id : ℕ) (text : Bytes) where
  -- The process goes on with the same clients, and the frame is posted.
  record Posted (ks : List Client) (w : World d.Double) : Type 0 where
    pub status : w.status ≡ running
    pub clients : w.clients ≡ ks
    pub posted : Pickable id text w.tasks

  turned-Posted :
      (l : ℕ) (t : Turned d.Double) (w : World d.Double)
      → status_of t.next ≡ running
      → Pickable id text (as_tasks t.sends)
      → Posted w.clients (after_turn (suc l) t w)
  turned-Posted l t w on p = record {
    status = on;
    clients = refl;
    posted = pick-append id text w.tasks (as_tasks t.sends) p;
  }

  captures-Posted :
      (w : World d.Double) (now : ℕ) (frame : cv.Mat) (l : ℕ)
      → w.status ≡ running
      → w.controller.loops ≡ suc l
      → alive w.clients id ≡ true
      → occurs id w.controller.viewers ≡ true
      → Sends
          (map (λ v. (v, text)) (keep_if (alive w.clients) w.controller.viewers))
          (capture_turn cv (alive w.clients) now frame w.controller)
      → Posted w.clients (world_step cv d json w (captures now frame))
  captures-Posted w now frame l on loops lives watches s =
      let t = capture_turn cv (alive w.clients) now frame w.controller in
      let p =
        pick-sends id text (keep_if (alive w.clients) w.controller.viewers)
          (occurs-keep_if (alive w.clients) id w.controller.viewers lives watches) in
      let base =
        turned-Posted l t w s.goes_on
          (subst (λ ss. Pickable id text (as_tasks ss)) (sym s.right) p) in
      subst (Posted w.clients) (sym (step_on cv d json w (captures now frame) on))
        (subst (λ n. Posted w.clients (after_turn n t w)) (sym loops) base)

  -- The task of the frame runs.
  task_delivers :
      (w : World d.Double) (ks : List Client) (k : Client)
      → find_client id ks ≡ some k
      → Posted ks w
      → (i : ℕ) × (find_client id (world_step cv d json w (task_runs i)).clients
          ≡ some (with_frame text k))
  unfolding Pickable
  task_delivers w ks k found p =
      let (i, us, picked) = p.posted in
      (
        i,
        ap (λ (v : World d.Double). find_client id v.clients)
              (step_on cv d json w (task_runs i) p.status)
            ∙ (ap (λ o. find_client id (run_task o w).clients) picked
                ∙ change_client-find id (with_frame text) w.clients k
                    (λ k' here. ap (λ n. n == id) (enqueue-id text k'.session) ∙ here)
                    (ap (find_client id) p.clients ∙ found)),
      )

  -- A frame that the camera gives while the stream runs at a rate above zero reaches every viewer
  -- that is connected: one of the tasks posted by the turn of the loop, run next, puts its text in
  -- the session's queue as `send_frame` does. The frame is not empty and its conversion succeeds.
  pub frame_reaches_viewer :
      (w : World d.Double) (k : Client) (now : ℕ) (frame : cv.Mat) (l m : ℕ)
      → w.status ≡ running
      → w.controller.loops ≡ suc l
      → w.controller.fps ≡ pos (suc m)
      → find_client id w.clients ≡ some k
      → occurs id w.controller.viewers ≡ true
      → cv.empty frame ≡ false
      → convert cv w.controller.ascii_converter frame w.controller.frame_width
          w.controller.frame_height
        ≡ ok text
      → (i : ℕ) × (find_client id
            (world_run cv d json w (captures now frame ∷ task_runs i ∷ [])).clients
          ≡ some (with_frame text k))
  unfolding world_run
  frame_reaches_viewer w k now frame l m on loops rate found watches given converted =
      task_delivers (world_step cv d json w (captures now frame)) w.clients k found (
        captures-Posted w now frame l on loops (found_is_alive id w.clients k found) watches (
          capture_turn-Sends m cv (alive w.clients) now frame text w.controller rate given
            converted))

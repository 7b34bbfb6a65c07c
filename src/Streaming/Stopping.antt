-- ===== src/Streaming/Stopping.antt =====
-- Stopping the stream of src/stream_controller.cpp, the starts that meet a stop, and the wait that
-- the frame rate gives.
use streaming_server.Base.{ℕ, ◌≡◌, refl, ap, ◌∙◌, Bool, true, false, [], if◌then◌else◌, arith}
use streaming_server.Base.Int.{ℤ}
use streaming_server.Outcome.{ok}
use streaming_server.Text.{Bytes}
use streaming_server.Video.{close}
use streaming_server.Streaming.State.{StreamController}
use streaming_server.Streaming.Viewers.{broadcast_frame}
use streaming_server.Streaming.Broadcast.{broadcast_frame_lem, keep_if}
use streaming_server.Streaming.Control.{
  width_text, height_text, number_in, start_streaming, cleanup, stop_request, stop_poll,
}
use streaming_server.Streaming.Capture.{ended, frame_delay, loop_test}
use streaming_server.Streaming.Outcomes.{start_streaming_outcome}

module _ {D : Type 0} where
  -- The running stream after a request to stop, when its loop has come to the test.
  abbrev pub loop_ended : StreamController D → StreamController D
  loop_ended c = (loop_test [] (stop_request c).1).controller

  loop_test-goes_on :
      (c : StreamController D)
      → c.is_streaming ≡ true
      → c.stop_requested ≡ false
      → (loop_test [] c).next ≡ frame_delay c.fps
  unfolding loop_test
  loop_test-goes_on c runs asked = rw (runs, asked) refl

  -- A request to stop a running stream ends its loop at the next test, and the poll behind that is
  -- the last one: it releases the camera, forgets the viewers, and leaves the stream stopped.
  pub stop_ends_loop :
      (c : StreamController D)
      → c.is_streaming ≡ true
      → ((loop_test [] (stop_request c).1).next ≡ ended)
        × (stop_poll (stop_request c).1 ≡ (true, (stop_request c).1))
        × ((stop_poll (loop_ended c)).0 ≡ false)
        × ((stop_poll (loop_ended c)).1.is_streaming ≡ false)
        × ((stop_poll (loop_ended c)).1.video_source.cap_open ≡ false)
        × ((stop_poll (loop_ended c)).1.viewers ≡ [])
  unfolding loop_test stop_request stop_poll cleanup close
  stop_ends_loop c runs =
      (rw runs refl, rw runs refl, rw runs refl, rw runs refl, rw runs (ground arith), rw runs refl)

  module _ (can_open : ℤ → Bool) (camera fps : ℤ) (resolution : Bytes)
      (c : StreamController D) where
    -- The stream after the start.
    abbrev pub restarted : StreamController D → StreamController D
    restarted before = (start_streaming can_open camera resolution fps before).1

    -- Once a stop has cleaned up, no frame reaches a session that watched before, however the
    -- stream is started again: the list of viewers is empty until somebody is added.
    pub restart_reaches_nobody :
        c.is_streaming ≡ false
        → (alive : ℕ → Bool) (frame : Bytes)
        → (broadcast_frame alive frame (restarted (stop_poll c).1)).0 ≡ []
    unfolding stop_poll cleanup keep_if
    restart_reaches_nobody idle alive frame =
        let stopped : (stop_poll c).1.viewers ≡ [] = rw idle refl in
        let none_left =
          (start_streaming_outcome can_open camera fps (stop_poll c).1 resolution).0 ∙ stopped in
        rw (broadcast_frame_lem alive (restarted (stop_poll c).1) frame, none_left) refl

    -- When a start succeeds between the end of the loop and the poll of the stop that ended it, the
    -- stop is lost: its polls find the new stream running and change nothing, and the new loop
    -- does not end at its test.
    pub stop_overtaken :
        (w h : ℤ)
        → c.is_streaming ≡ true
        → number_in (width_text resolution) ≡ ok w
        → number_in (height_text resolution) ≡ ok h
        → can_open camera ≡ true
        → (stop_poll (restarted (loop_ended c)) ≡ (true, restarted (loop_ended c)))
          × ((loop_test [] (restarted (loop_ended c))).next ≡ frame_delay fps)
    unfolding loop_test stop_request stop_poll
    stop_overtaken w h runs ew eh opens =
        let ended_idle : (loop_ended c).is_streaming ≡ false = rw runs refl in
        let (_, _, starts, _) =
          start_streaming_outcome can_open camera fps (loop_ended c) resolution in
        let (_, again, asked, _, _, rate, _) = starts w h ended_idle ew eh opens in
        (
          ap
              (λ b.
                if b
                then (true, restarted (loop_ended c))
                else (false, cleanup (restarted (loop_ended c))))
              again,
          loop_test-goes_on (restarted (loop_ended c)) again asked ∙ ap frame_delay rate,
        )

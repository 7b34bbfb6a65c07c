-- ===== src/Streaming/Turns.antt =====
-- How a turn of the capture loop of src/stream_controller.cpp comes to the head of the loop.
use streaming_server.Base.{
  ℕ, Bool, ◌≡◌, ap, sym, inl, inr, List, [], map, if◌then◌else◌, subst, Bool-cases,
}
use streaming_server.Outcome.{Try, ok, throw}
use streaming_server.Text.{Bytes}
use streaming_server.Ascii.{OpenCv}
use streaming_server.Recording.{is_recording, write_frame}
use streaming_server.Streaming.State.{StreamController}
use streaming_server.Streaming.Capture.{Turned, ended, end_loop, loop_test, with_text, capture_turn}
use streaming_server.Streaming.Broadcast.{keep_if, broadcast_frame_lem}

module _ {D : Type 0} (live : ℕ → Bool) (now : ℕ) where
  -- What a frame does to the controller: it is recorded, and the viewers that are gone leave.
  abbrev pub after_frame : Bytes → StreamController D → StreamController D
  after_frame text c = record c {
    record_controller =
        if is_recording c.record_controller
        then write_frame now text c.record_controller
        else c.record_controller;
    viewers = keep_if live c.viewers;
  }

  -- The frame for each viewer that is left.
  abbrev pub frames_for : Bytes → StreamController D → List (ℕ × Bytes)
  frames_for text c = map (λ v. (v, text)) (keep_if live c.viewers)

  pub with_text_lem :
      (text : Bytes) (c : StreamController D)
      → with_text live now (ok text) c ≡ loop_test (frames_for text c) (after_frame text c)
  with_text_lem text c =
      let recorder =
        if is_recording c.record_controller
        then write_frame now text c.record_controller
        else c.record_controller in
      ap (λ (b : List (ℕ × Bytes) × StreamController D). loop_test b.0 b.1)
        (broadcast_frame_lem live (record c { record_controller = recorder }) text)

  with_text_holds :
      (P : Turned D → Type 0) (c : StreamController D)
      → P (record { next = ended; controller = end_loop c; sends = [] })
      → ((text : Bytes) → P (loop_test (frames_for text c) (after_frame text c)))
      → (t : Try Bytes) → P (with_text live now t c)
  with_text_holds P c failed sent (throw e) = failed
  with_text_holds P c failed sent (ok text) = subst P (sym (with_text_lem text c)) (sent text)

  -- What holds of a turn without a frame, of one that fails, and of one that sends a frame, holds of
  -- every turn.
  pub capture_turn_holds :
      (P : Turned D → Type 0) (cv : OpenCv) (frame : cv.Mat) (c : StreamController D)
      → P (loop_test [] c)
      → P (record { next = ended; controller = end_loop c; sends = [] })
      → ((text : Bytes) → P (loop_test (frames_for text c) (after_frame text c)))
      → P (capture_turn cv live now frame c)
  unfolding capture_turn
  capture_turn_holds P cv frame c nothing failed sent = elim (Bool-cases (cv.empty frame)) [
    | inl none_given ↦ rw none_given nothing
    | inr given ↦ rw given (with_text_holds P c failed sent _)
  ]

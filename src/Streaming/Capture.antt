-- ===== src/Streaming/Capture.antt =====
-- src/stream_controller.cpp: the loop that captures, converts, records and sends frames.
use streaming_server.Base.{ℕ, ◌+◌, ◌-◌, ◌/◌, Bool, false, not, ◌&&◌, List, [], if◌then◌else◌, ◌==◌}
use streaming_server.Base.Int.{ℤ, pos, negsuc, negate}
use streaming_server.Outcome.{Try, ok, throw}
use streaming_server.Text.{Bytes}
use streaming_server.Ascii.{OpenCv, convert}
use streaming_server.Recording.{write_frame, is_recording}
use streaming_server.Streaming.State.{StreamController}
use streaming_server.Streaming.Viewers.{broadcast_frame}

-- Where the loop stands after a turn: it has ended, it waits so many milliseconds, or it has
-- divided by zero, which is undefined and in practice ends the process.
pub data Turn : Type 0 where
  ended : Turn
  waits : ℤ → Turn
  divides_by_zero : Turn

-- `milliseconds(1000 / fps_)`
abbrev pub frame_delay : ℤ → Turn
frame_delay (pos n) = if n == 0 then divides_by_zero else waits (pos (1000 / n))
frame_delay (negsuc n) = waits (negate (1000 / (n + 1)))

pub record Turned (D : Type 0) : Type 0 where
  pub next : Turn
  pub controller : StreamController D
  pub sends : List (ℕ × Bytes)

module _ {D : Type 0} where
  abbrev pub end_loop : StreamController D → StreamController D
  end_loop c = record c { is_streaming = false; loops = c.loops - 1 }

  -- The head of the loop, with the frames that were sent before it.
  unfoldable pub loop_test : List (ℕ × Bytes) → StreamController D → Turned D
  loop_test sends c =
      if not c.stop_requested && c.is_streaming
      then record { next = frame_delay c.fps; controller = c; sends = sends }
      else record { next = ended; controller = end_loop c; sends = sends }

  -- Behind the conversion: the recording, the viewers, and the head of the loop.
  abbrev pub with_text : (ℕ → Bool) → ℕ → Try Bytes → StreamController D → Turned D
  with_text alive now (throw e) c = record { next = ended; controller = end_loop c; sends = [] }
  with_text alive now (ok text) c =
      let recorder =
        if is_recording c.record_controller
        then write_frame now text c.record_controller
        else c.record_controller in
      let (sends, c') = broadcast_frame alive text (record c { record_controller = recorder }) in
      loop_test sends c'

  -- One turn behind the wait. `frame` is what the camera gives, `now` the steady clock.
  unfoldable pub capture_turn :
      (cv : OpenCv) → (ℕ → Bool) → ℕ → cv.Mat → StreamController D → Turned D
  unfolding loop_test
  capture_turn cv alive now frame c =
      if cv.empty frame
      then loop_test [] c
      else with_text alive now (convert cv c.ascii_converter frame c.frame_width c.frame_height) c

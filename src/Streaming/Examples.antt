-- ===== src/Streaming/Examples.antt =====
-- The stream on concrete input, and its theorems at work.
use streaming_server.Base.{ℕ, ◌≡◌, refl, not, Bool, true, false, [], ◌∷◌, ◌==◌}
use streaming_server.Base.Int.{ℤ, pos}
use streaming_server.Outcome.{Exception, ok, throw}
use streaming_server.Text.{Bytes, codes, substr}
use streaming_server.Text.Decimal.{stoi}
use streaming_server.Text.Search.{find_char}
use streaming_server.Playback.Examples.{tenths}
use streaming_server.Streaming.State.{StreamController, new_controller}
use streaming_server.Streaming.Viewers.{broadcast_frame}
use streaming_server.Streaming.Control.{
  width_text, height_text, number_in, start_streaming, stop_request, stop_poll,
}
use streaming_server.Streaming.Capture.{waits, ended, loop_test}
use streaming_server.Streaming.Broadcast.{broadcast_frame_lem, keep_if}
use streaming_server.Streaming.Outcomes.{start_streaming_outcome, Started}
use streaming_server.Streaming.Loops.{HasOneLoop}
use streaming_server.Streaming.Stopping.{
  loop_ended, stop_ends_loop, restart_reaches_nobody, stop_overtaken,
}

abbrev pub idle_stream : StreamController ℕ
idle_stream = new_controller tenths

-- Session 4 watches twice, session 9 is gone.
abbrev pub watched : StreamController ℕ
watched = record idle_stream { viewers = 4 ∷ 9 ∷ 7 ∷ 4 ∷ [] }

abbrev pub running : StreamController ℕ
running = record watched { is_streaming = true; loops = 1 }

abbrev pub lives : ℕ → Bool
lives v = not (v == 9)

abbrev pub one_camera : ℤ → Bool
one_camera (pos n) = n == 0
one_camera _ = false

abbrev small : Bytes
small = codes "2x1"

small_numbers :
    (number_in (width_text small) ≡ ok (pos 2)) × (number_in (height_text small) ≡ ok (pos 1))
unfolding substr stoi find_char
small_numbers = (refl, refl)

broadcast_frame_example : broadcast_frame lives (codes "@") running ≡ (
  (4, codes "@") ∷ (7, codes "@") ∷ (4, codes "@") ∷ [],
  record running { viewers = 4 ∷ 7 ∷ 4 ∷ [] },
)
unfolding keep_if
broadcast_frame_example = broadcast_frame_lem lives running (codes "@")

start_streaming_outcome_example :
    ((start_streaming one_camera (pos 0) small (pos 25) watched).1.viewers ≡ 4 ∷ 9 ∷ 7 ∷ 4 ∷ [])
    × (false ≡ true → start_streaming one_camera (pos 0) small (pos 25) watched ≡ (ok tt, watched))
    × ((w h : ℤ)
        → false ≡ false
        → number_in (width_text small) ≡ ok w
        → number_in (height_text small) ≡ ok h
        → true ≡ true
        → Started one_camera
            (pos 0)
            (pos 25)
            watched
            w
            h
            (start_streaming one_camera (pos 0) small (pos 25) watched))
    × ((e : Exception)
        → (start_streaming one_camera (pos 0) small (pos 25) watched).0 ≡ throw e
        → ((start_streaming one_camera (pos 0) small (pos 25) watched).1.is_streaming ≡ false)
          × ((start_streaming one_camera (pos 0) small (pos 25) watched).1.loops ≡ 0))
start_streaming_outcome_example = start_streaming_outcome one_camera (pos 0) (pos 25) watched small

running-HasOneLoop : HasOneLoop running
running-HasOneLoop = record { counted = refl }

stop_ends_loop_example :
    ((loop_test [] (stop_request running).1).next ≡ ended)
    × (stop_poll (stop_request running).1 ≡ (true, (stop_request running).1))
    × ((stop_poll (loop_ended running)).0 ≡ false)
    × ((stop_poll (loop_ended running)).1.is_streaming ≡ false)
    × ((stop_poll (loop_ended running)).1.video_source.cap_open ≡ false)
    × ((stop_poll (loop_ended running)).1.viewers ≡ [])
stop_ends_loop_example = stop_ends_loop running refl

restart_reaches_nobody_example :
    (broadcast_frame lives
      (codes "@")
      (start_streaming one_camera (pos 0) small (pos 25) (stop_poll watched).1).1).0
    ≡ []
restart_reaches_nobody_example =
    restart_reaches_nobody one_camera (pos 0) (pos 25) small watched refl lives (codes "@")

stop_overtaken_example :
    (stop_poll (start_streaming one_camera (pos 0) small (pos 25) (loop_ended running)).1
      ≡ (true, (start_streaming one_camera (pos 0) small (pos 25) (loop_ended running)).1))
    × ((loop_test []
          (start_streaming one_camera (pos 0) small (pos 25) (loop_ended running)).1).next
        ≡ waits (pos 40))
stop_overtaken_example =
    stop_overtaken one_camera (pos 0) (pos 25) small running (pos 2) (pos 1) refl small_numbers.0
      small_numbers.1 refl

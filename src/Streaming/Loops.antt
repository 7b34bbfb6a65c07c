-- ===== src/Streaming/Loops.antt =====
-- The capture loop of src/stream_controller.cpp among the other calls: each runs on the one
-- thread of the server up to its next wait, in any order.
use streaming_server.Base.{
  ℕ, zero, suc, ◌≡◌, ap, ◌∙◌, inl, inr, Bool, true, false, List, [], ◌∷◌, arith, Bool-cases,
}
use streaming_server.Base.Int.{ℤ}
use streaming_server.Outcome.{Try, ok, throw}
use streaming_server.Text.{Bytes}
use streaming_server.Ascii.{OpenCv}
use streaming_server.Video.{open_camera}
use streaming_server.Streaming.State.{StreamController}
use streaming_server.Streaming.Control.{start_streaming, cleanup, stop_request, stop_poll}
use streaming_server.Streaming.Turns.{capture_turn_holds}
use streaming_server.Streaming.Capture.{loop_test, capture_turn}
use streaming_server.Streaming.Outcomes.{attempt, starts_idle, starts_busy}

-- What the thread may run next. A turn of a capture loop needs a loop.
pub data Call (cv : OpenCv) : Type 0 where
  starts : (ℤ → Bool) → ℤ → Bytes → ℤ → Call cv
  requests_stop : Call cv
  polls_stop : Call cv
  tests_loop : Call cv
  turns : (ℕ → Bool) → ℕ → cv.Mat → Call cv

-- One loop while the stream runs, and none otherwise.
abbrev pub loops_of : Bool → ℕ
loops_of true = 1
loops_of false = 0

pub record HasOneLoop {D : Type 0} (c : StreamController D) : Type 0 where
  pub counted : c.loops ≡ loops_of c.is_streaming

module _ {D : Type 0} where
  abbrev if_loop : ℕ → StreamController D → StreamController D → StreamController D
  if_loop zero c c' = c
  if_loop (suc n) c c' = c'

  unfoldable pub perform : (cv : OpenCv) → StreamController D → Call cv → StreamController D
  perform cv c (starts can_open camera resolution fps) =
      (start_streaming can_open camera resolution fps c).1
  perform cv c requests_stop = (stop_request c).1
  perform cv c polls_stop = (stop_poll c).1
  perform cv c tests_loop = if_loop c.loops c (loop_test [] c).controller
  perform cv c (turns alive now frame) =
      if_loop c.loops c (capture_turn cv alive now frame c).controller

  unfoldable pub perform_all :
      (cv : OpenCv) → StreamController D → List (Call cv) → StreamController D
  perform_all cv c [] = c
  perform_all cv c (e ∷ es) = perform_all cv (perform cv c e) es

  pub loop_test-HasOneLoop :
      (sends : List (ℕ × Bytes)) (c : StreamController D)
      → HasOneLoop c
      → HasOneLoop (loop_test sends c).controller
  unfolding loop_test
  loop_test-HasOneLoop sends c v = ground (arith, v.counted)

  pub turn-HasOneLoop :
      (cv : OpenCv) (alive : ℕ → Bool) (now : ℕ) (frame : cv.Mat) (c : StreamController D)
      → HasOneLoop c
      → HasOneLoop (capture_turn cv alive now frame c).controller
  turn-HasOneLoop cv alive now frame c v =
      capture_turn_holds alive now (λ t. HasOneLoop t.controller) cv frame c
        (loop_test-HasOneLoop [] c v) (record { counted = ground (arith, v.counted) })
        (λ text. loop_test-HasOneLoop _ _ (record { counted = v.counted }))

  attempt-HasOneLoop :
      (can_open : ℤ → Bool) (camera fps : ℤ) (c : StreamController D) (width height : Try ℤ)
      → c.loops ≡ 0
      → HasOneLoop (attempt can_open camera fps c width height).1
  unfolding open_camera
  attempt-HasOneLoop can_open camera fps c (throw e) height none_runs = record {
    counted = none_runs;
  }
  attempt-HasOneLoop can_open camera fps c (ok w) (throw e) none_runs = record {
    counted = none_runs;
  }
  attempt-HasOneLoop can_open camera fps c (ok w) (ok h) none_runs = record {
    counted = ground (arith, none_runs);
  }

  pub start-HasOneLoop :
      (can_open : ℤ → Bool) (camera : ℤ) (resolution : Bytes) (fps : ℤ) (c : StreamController D)
      → HasOneLoop c
      → HasOneLoop (start_streaming can_open camera resolution fps c).1
  start-HasOneLoop can_open camera resolution fps c v = elim (Bool-cases c.is_streaming) [
    | inl busy ↦ rw (starts_busy can_open camera fps c resolution busy) v
    | inr idle ↦
        rw (starts_idle can_open camera fps c resolution idle)
          (attempt-HasOneLoop can_open camera fps c _ _ (v.counted ∙ ap loops_of idle))
  ]

  pub stop_poll-HasOneLoop : (c : StreamController D) → HasOneLoop c → HasOneLoop (stop_poll c).1
  unfolding stop_poll cleanup
  stop_poll-HasOneLoop c v = record { counted = ground (arith, v.counted) }

  pub stop_request-HasOneLoop :
      (c : StreamController D) → HasOneLoop c → HasOneLoop (stop_request c).1
  unfolding stop_request
  stop_request-HasOneLoop c v = record { counted = ground (arith, v.counted) }

  if_loop-HasOneLoop :
      (n : ℕ) (c c' : StreamController D)
      → HasOneLoop c
      → HasOneLoop c'
      → HasOneLoop (if_loop n c c')
  if_loop-HasOneLoop zero c c' v v' = v
  if_loop-HasOneLoop (suc n) c c' v v' = v'

  perform-HasOneLoop :
      (cv : OpenCv) (c : StreamController D) (e : Call cv)
      → HasOneLoop c
      → HasOneLoop (perform cv c e)
  unfolding perform
  perform-HasOneLoop cv c (starts can_open camera resolution fps) v =
      start-HasOneLoop can_open camera resolution fps c v
  perform-HasOneLoop cv c requests_stop v = stop_request-HasOneLoop c v
  perform-HasOneLoop cv c polls_stop v = stop_poll-HasOneLoop c v
  perform-HasOneLoop cv c tests_loop v =
      if_loop-HasOneLoop c.loops c _ v (loop_test-HasOneLoop [] c v)
  perform-HasOneLoop cv c (turns alive now frame) v =
      if_loop-HasOneLoop c.loops c _ v (turn-HasOneLoop cv alive now frame c v)

  -- Whatever the order of starts, stops, polls and turns of the loop, exactly one capture loop
  -- exists while the stream counts as running, and none otherwise, if it was so at first.
  pub perform_all-HasOneLoop :
      (cv : OpenCv) (c : StreamController D) (es : List (Call cv))
      → HasOneLoop c
      → HasOneLoop (perform_all cv c es)
  unfolding perform_all
  perform_all-HasOneLoop cv c [] v = v
  perform_all-HasOneLoop cv c (e ∷ es) v =
      perform_all-HasOneLoop cv (perform cv c e) es (perform-HasOneLoop cv c e v)

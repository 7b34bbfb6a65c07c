-- ===== src/Streaming/Operated.antt =====
-- What the methods of src/stream_controller.cpp that a client can call do to the controller.
use streaming_server.Base.{
  ℕ, ◌≡◌, refl, ap, ◌∙◌, Bool, true, false, ◌++◌, Option, none, some, arith, Bool-cases, inl, inr,
}
use streaming_server.Base.Int.{ℤ}
use streaming_server.Outcome.{Exception}
use streaming_server.Text.{Bytes, codes}
use streaming_server.Files.{Disk}
use streaming_server.Recording.{Moment}
use streaming_server.Recording
use streaming_server.Playback.State.{PlaybackController}
use streaming_server.Playback.Loading.{load_recording}
use streaming_server.Streaming.State.{StreamController}
use streaming_server.Streaming.Control.{start_streaming, stop_request}
use streaming_server.Streaming.Media.{
  with_loaded, after_load, start_playback, resume_playback, stop_playback, start_recording,
  stop_recording,
}
use streaming_server.Streaming.Outcomes.{start_streaming_outcome}
use streaming_server.Streaming.Loops.{HasOneLoop, start-HasOneLoop, stop_request-HasOneLoop}

module _ {D : Type 0} where
  -- The same controller but for the playback.
  abbrev pub SameStream : StreamController D → StreamController D → Type 0
  SameStream c c' = c' ≡ record c {
    playback_controller = c'.playback_controller;
    playback_session = c'.playback_session;
  }

  pub same_trans : (a b c : StreamController D) → SameStream a b → SameStream b c → SameStream a c
  same_trans a b c ab bc =
      bc
      ∙ ap {A = StreamController D}
          (λ s. record s {
            playback_controller = c.playback_controller;
            playback_session = c.playback_session;
          })
          ab

  pub same_resume :
      (scale : ℤ → D → ℤ) (c : StreamController D)
      → SameStream c (resume_playback scale c).controller
  unfolding resume_playback
  same_resume scale c = refl

  same_loaded :
      (scale : ℤ → D → ℤ) (session : ℕ) (c : StreamController D) (player : PlaybackController D)
      (loaded : Bool) (thrown : Option Exception)
      → SameStream c (with_loaded scale session c player loaded thrown).controller
  same_loaded scale session c player loaded (some e) = refl
  same_loaded scale session c player true none = refl
  same_loaded scale session c player false none = refl

  pub same_start_playback :
      (scale : ℤ → D → ℤ) (disk : Disk) (filename : Bytes) (session : ℕ) (c : StreamController D)
      → SameStream c (start_playback scale disk filename session c).controller
  unfolding start_playback stop_playback
  same_start_playback scale disk filename session c =
      elim (load_recording disk (codes "recordings/" ++ filename)
          (stop_playback c).playback_controller)
        as (λ o. SameStream c (after_load scale session (stop_playback c) o).controller) [
          | none ↦ refl
          | some l ↦
              same_trans c (stop_playback c) _ refl
                (same_loaded scale session (stop_playback c) l.player l.loaded l.thrown)
        ]

  -- The controller after one method: a start, a request to stop, a change of the recorder alone, or
  -- a change of the playback alone.
  pub data Operated (c c' : StreamController D) : Type 0 where
    started :
        (can_open : ℤ → Bool) (camera : ℤ) (resolution : Bytes) (fps : ℤ)
        → c' ≡ (start_streaming can_open camera resolution fps c).1
        → Operated c c'
    stop_requested : c' ≡ (stop_request c).1 → Operated c c'
    recorded : c' ≡ record c { record_controller = c'.record_controller } → Operated c c'
    played : SameStream c c' → Operated c c'

  pub start_recording-Operated :
      (now : Moment) (can_open : Bool) (c : StreamController D)
      → Operated c (start_recording now can_open c)
  unfolding start_recording
  start_recording-Operated now can_open c =
      elim (Bool-cases (Recording.is_recording c.record_controller)) [
        | inl busy ↦ rw busy (recorded refl)
        | inr idle ↦ rw idle (recorded refl)
      ]

  pub stop_recording-Operated :
      (now : ℕ) (c : StreamController D) → Operated c (stop_recording now c)
  unfolding stop_recording
  stop_recording-Operated now c = elim (Bool-cases (Recording.is_recording c.record_controller)) [
    | inl busy ↦ rw busy (recorded refl)
    | inr idle ↦ rw idle (recorded refl)
  ]

  -- No method that a client can call adds a second capture loop.
  pub Operated-HasOneLoop :
      (c c' : StreamController D) → Operated c c' → HasOneLoop c → HasOneLoop c'
  Operated-HasOneLoop c c' (started can_open camera resolution fps e) v =
      rw e (start-HasOneLoop can_open camera resolution fps c v)
  Operated-HasOneLoop c c' (stop_requested e) v = rw e (stop_request-HasOneLoop c v)
  Operated-HasOneLoop c c' (recorded e) v = rw e (record { counted = v.counted })
  Operated-HasOneLoop c c' (played e) v = rw e (record { counted = v.counted })

  stop_request-viewers : (c : StreamController D) → (stop_request c).1.viewers ≡ c.viewers
  unfolding stop_request
  stop_request-viewers c = ground arith

  -- Nor does it take a viewer in, or let one go.
  pub Operated-viewers : (c c' : StreamController D) → Operated c c' → c'.viewers ≡ c.viewers
  Operated-viewers c c' (started can_open camera resolution fps e) =
      ap (λ (s : StreamController D). s.viewers) e
      ∙ (start_streaming_outcome can_open camera fps c resolution).0
  Operated-viewers c c' (stop_requested e) =
      ap (λ (s : StreamController D). s.viewers) e ∙ stop_request-viewers c
  Operated-viewers c c' (recorded e) = ap (λ (s : StreamController D). s.viewers) e
  Operated-viewers c c' (played e) = ap (λ (s : StreamController D). s.viewers) e

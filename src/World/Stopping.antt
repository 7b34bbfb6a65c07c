-- ===== src/World/Stopping.antt =====
-- A stream of src/stream_controller.cpp that has been asked to stop, in a run of src/main.cpp: what
-- happens before the capture loop sees it, and before the stop does.
use streaming_server.Base.{
  ℕ, ◌≡◌, refl, ◌∙◌, sym, subst, inl, inr, Bool, true, false, arith, Bool-cases, if◌then◌else◌,
}
use streaming_server.Base.Int.{ℤ}
use streaming_server.Text.{Bytes, codes, bytes_eq}
use streaming_server.Playback.State.{Doubles}
use streaming_server.Session.State.{WebSocketSession}
use streaming_server.Session.Commands.{Json, Surroundings, Handling}
use streaming_server.Session.Messages.{reply, check_key, poll_stop, handle_message}
use streaming_server.Session.Keeps.{keeps-handle_message}
use streaming_server.Session.Reading.{
  Phase, accepting, reading, stopping, ReadEvent, accepts, refuses, receives, fails, polls, Reader,
  waiting, resume,
}
use streaming_server.Session.Farewell.{destroy}
use streaming_server.Streaming.State.{StreamController}
use streaming_server.Streaming.Viewers.{remove_viewer_by_id}
use streaming_server.Streaming.Control.{start_streaming, stop_request, stop_poll}
use streaming_server.Streaming.Operated.{Operated, started, stop_requested, recorded, played}

module _ {D : Type 0} where
  -- The one loop will end at its next test.
  pub record IsStopping (c : StreamController D) : Type 0 where
    pub asked : c.stop_requested ≡ true
    pub streams : c.is_streaming ≡ true
    pub one : c.loops ≡ 1

  -- No loop runs.
  pub record IsStopped (c : StreamController D) : Type 0 where
    pub stopped : c.is_streaming ≡ false
    pub loops : c.loops ≡ 0

  pub stop_request-IsStopping :
      (c : StreamController D) → c.is_streaming ≡ true → c.loops ≡ 1 → IsStopping (stop_request c).1
  unfolding stop_request
  stop_request-IsStopping c streams one =
      rw streams (record { asked = refl; streams = refl; one = one })

  started_again :
      (can_open : ℤ → Bool) (camera : ℤ) (resolution : Bytes) (fps : ℤ) (c : StreamController D)
      → c.is_streaming ≡ true
      → (start_streaming can_open camera resolution fps c).1 ≡ c
  unfolding start_streaming
  started_again can_open camera resolution fps c streams = ground arith

  Operated-IsStopping : (c c' : StreamController D) → Operated c c' → IsStopping c → IsStopping c'
  Operated-IsStopping c c' (started can_open camera resolution fps e) v =
      subst IsStopping (sym (e ∙ started_again can_open camera resolution fps c v.streams)) v
  Operated-IsStopping c c' (stop_requested e) v =
      subst IsStopping (sym e) (stop_request-IsStopping c v.streams v.one)
  Operated-IsStopping c c' (recorded e) v =
      rw e (record { asked = v.asked; streams = v.streams; one = v.one })
  Operated-IsStopping c c' (played e) v =
      rw e (record { asked = v.asked; streams = v.streams; one = v.one })

  pub destroy-IsStopping :
      (live : ℕ → Bool) (s : WebSocketSession) (c : StreamController D)
      → IsStopping c
      → IsStopping (destroy live s c)
  unfolding destroy remove_viewer_by_id
  destroy-IsStopping live s c v = elim (Bool-cases s.is_controller) [
    | inl controls ↦ rw controls (stop_request-IsStopping c v.streams v.one)
    | inr watches ↦ elim (Bool-cases s.is_authenticated) [
      | inl authentic ↦
          rw (watches, authentic) (record { asked = v.asked; streams = v.streams; one = v.one })
      | inr anonymous ↦ rw (watches, anonymous) v
    ]
  ]

  pub destroy-IsStopped :
      (live : ℕ → Bool) (s : WebSocketSession) (c : StreamController D)
      → IsStopped c
      → IsStopped (destroy live s c)
  unfolding destroy remove_viewer_by_id stop_request
  destroy-IsStopped live s c v = record {
    stopped = ground (arith, v.stopped);
    loops = ground (arith, v.loops);
  }

  pub polled_in_vain : (c : StreamController D) → c.is_streaming ≡ true → stop_poll c ≡ (true, c)
  unfolding stop_poll
  polled_in_vain c streams = rw streams refl

module _ (d : Doubles) (json : Json d.Double) where
  abbrev HandlingStopping : Handling d.Double → Type 0
  HandlingStopping h = IsStopping h.controller

  check_key-IsStopping :
      (env : Surroundings) (role : Bytes) (right : Bool) (h : Handling d.Double)
      → HandlingStopping h
      → HandlingStopping (check_key env.authorized role right h).1
  check_key-IsStopping env role true h v = elim (Bool-cases (bytes_eq role (codes "controller"))) [
    | inl controls ↦ rw controls v
    | inr watches ↦ rw watches v
  ]
  check_key-IsStopping env role false h v = v

  handle_message-IsStopping :
      (env : Surroundings) (message : Bytes) (s : WebSocketSession) (c : StreamController d.Double)
      → IsStopping c
      → HandlingStopping (handle_message d json env message s c)
  handle_message-IsStopping env message s c v =
      keeps-handle_message d json env HandlingStopping message (λ frame h v. v)
        (λ j parsed. record {
          replies = λ frame h v. v;
          operates = λ h c' o v. Operated-IsStopping h.controller c' o v;
          forwards = λ h frames v. v;
          waits = λ h v. v;
          checks = λ key role h given v. check_key-IsStopping env role _ h v;
        })
        s c v

  poll_stop-IsStopping :
      (h : Handling d.Double) → HandlingStopping h → HandlingStopping (poll_stop h)
  unfolding poll_stop
  poll_stop-IsStopping h v =
      subst
        (λ p. HandlingStopping (
          if p.0
          then record h { controller = p.1 }
          else (reply (codes "STREAM_STOPPED")
              (record h { controller = p.1; waits_for_stop = false })).1))
        (sym (polled_in_vain h.controller v.streams)) v

  pub resume-IsStopping :
      (env : Surroundings) (p : Phase) (e : ReadEvent) (r : Reader d.Double)
      → IsStopping r.controller
      → IsStopping (resume d json env p e r).controller
  resume-IsStopping env accepting accepts r v = v
  resume-IsStopping env accepting refuses r v = v
  resume-IsStopping env reading (receives message) r v =
      handle_message-IsStopping env message r.session r.controller v
  resume-IsStopping env reading (fails e) r v = v
  resume-IsStopping env stopping polls r v = poll_stop-IsStopping (waiting r) v
  resume-IsStopping env p e r v = v

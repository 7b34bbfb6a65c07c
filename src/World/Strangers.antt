-- ===== src/World/Strangers.antt =====
-- Who receives the frames of the camera in a run of src/main.cpp: the sessions that gave the key.
use streaming_server.Base.{ℕ, ◌≡◌, refl, ap, sym, ◌∙◌, inl, inr, Bool, true, false, [], Bool-cases}
use streaming_server.Text.{Bytes}
use streaming_server.Playback.State.{Doubles}
use streaming_server.Session.State.{WebSocketSession}
use streaming_server.Session.Commands.{Json, Surroundings, Handling}
use streaming_server.Session.Messages.{handle_message, poll_stop, check_key, admit}
use streaming_server.Session.Keeps.{keeps-handle_message}
use streaming_server.Session.Rights.{CarriesKey, adds, handle_message-Adding}
use streaming_server.Session.Reading.{
  Phase, accepting, reading, stopping, ReadEvent, accepts, refuses, receives, fails, polls, Reader,
  handled, waiting, resume,
}
use streaming_server.Streaming.State.{StreamController}
use streaming_server.Streaming.Control.{stop_poll}
use streaming_server.Streaming.Broadcast.{occurs}
use streaming_server.Streaming.Operated.{Operated-viewers}
use streaming_server.World.{World}
use streaming_server.World.Unwatched.{sent_to, stop_poll-unwatched}

module _ (d : Doubles) (json : Json d.Double) where
  -- The controller's viewers after `handle_message`.
  record SameViewers (c : StreamController d.Double) (h : Handling d.Double) : Type 0 where
    pub viewers : h.controller.viewers ≡ c.viewers

  admit-SameViewers :
      (c : StreamController d.Double) (is_controller : Bool) (h : Handling d.Double)
      → SameViewers c h
      → SameViewers c (admit is_controller h).1
  admit-SameViewers c true h v = record { viewers = v.viewers }
  admit-SameViewers c false h v = record { viewers = v.viewers }

  check_key-SameViewers :
      (env : Surroundings) (c : StreamController d.Double) (role : Bytes) (right : Bool)
      (h : Handling d.Double)
      → SameViewers c h
      → SameViewers c (check_key env.authorized role right h).1
  check_key-SameViewers env c role true h v =
      admit-SameViewers c _ (record h { session = record h.session { is_authenticated = true } })
        (record { viewers = v.viewers })
  check_key-SameViewers env c role false h v = record { viewers = v.viewers }

  handle_message-SameViewers :
      (env : Surroundings) (message : Bytes) (s : WebSocketSession) (c : StreamController d.Double)
      → SameViewers c (handle_message d json env message s c)
  handle_message-SameViewers env message s c =
      keeps-handle_message d json env (SameViewers c) message
        (λ frame h v. record { viewers = v.viewers })
        (λ j parsed. record {
          replies = λ frame h v. record { viewers = v.viewers };
          operates =
              λ h c' o v. record { viewers = Operated-viewers h.controller c' o ∙ v.viewers };
          forwards = λ h frames v. record { viewers = v.viewers };
          waits = λ h v. record { viewers = v.viewers };
          checks = λ key role h given v. check_key-SameViewers env c role _ h v;
        })
        s c (record { viewers = refl })

  module _ (n : ℕ) where
    -- The reading coroutine has not made the session a viewer.
    pub record Apart (r : Reader d.Double) : Type 0 where
      pub unwatched : occurs n r.controller.viewers ≡ false
      pub unposted : adds n r.effects ≡ false

    -- What the session `id` reads is no message with the key, if it is the session `n`.
    abbrev pub KeylessAt : ℕ → Surroundings → ReadEvent → Type 0
    KeylessAt id env (receives message) = id ≡ n → ¬ CarriesKey d json env message
    KeylessAt id env _ = Unit

    receives-Apart :
        (id : ℕ) (env : Surroundings) (message : Bytes) (r : Reader d.Double)
        → r.session.session_id ≡ id
        → (id ≡ n → ¬ CarriesKey d json env message)
        → occurs n r.controller.viewers ≡ false
        → Apart (handled (handle_message d json env message r.session r.controller))
    receives-Apart id env message r own keyless h =
        let same = handle_message-SameViewers env message r.session r.controller in
        let added = handle_message-Adding d json env message n r.session r.controller in
        record {
          unwatched = ap (occurs n) same.viewers ∙ h;
          unposted = elim added.adding [
            | inl nothing ↦ nothing
            | inr (self, key) ↦ absurd (keyless (sym own ∙ sym self) key)
          ];
        }

    poll_stop-Apart :
        (h : Handling d.Double)
        → occurs n h.controller.viewers ≡ false
        → h.effects ≡ []
        → Apart (handled (poll_stop h))
    unfolding poll_stop
    poll_stop-Apart h v e = elim (Bool-cases (stop_poll h.controller).0) [
      | inl more ↦
          rw more
            (record { unwatched = stop_poll-unwatched n h.controller v; unposted = ap (adds n) e })
      | inr done ↦
          rw done
            (record { unwatched = stop_poll-unwatched n h.controller v; unposted = rw e refl })
    ]

    pub resume-Apart :
        (id : ℕ) (env : Surroundings) (p : Phase) (e : ReadEvent) (r : Reader d.Double)
        → r.session.session_id ≡ id
        → KeylessAt id env e
        → occurs n r.controller.viewers ≡ false
        → Apart (resume d json env p e r)
    resume-Apart id env accepting accepts r own k v = record { unwatched = v; unposted = refl }
    resume-Apart id env accepting refuses r own k v = record { unwatched = v; unposted = refl }
    resume-Apart id env reading (receives message) r own k v =
        receives-Apart id env message r own k v
    resume-Apart id env reading (fails e) r own k v = record { unwatched = v; unposted = refl }
    resume-Apart id env stopping polls r own k v = poll_stop-Apart (waiting r) v refl
    resume-Apart id env p e r own k v = record { unwatched = v; unposted = refl }

    -- The session is no viewer, no posted task makes it one, and no frame of the camera was passed to
    -- its `send_frame`.
    pub record IsStranger (w : World d.Double) : Type 0 where
      pub unwatched : occurs n w.controller.viewers ≡ false
      pub unposted : adds n w.tasks ≡ false
      pub unsent : sent_to n w.captured ≡ false

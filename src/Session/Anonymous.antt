-- ===== src/Session/Anonymous.antt =====
-- What `handle_message` of src/websocket_session.cpp makes of `is_authenticated_`.
use streaming_server.Base.{◌≡◌, refl, ap, ◌∙◌, Bool, true, false, [], ◌∷◌, arith}
use streaming_server.Base.Int.{ℤ, pos}
use streaming_server.Outcome.{Try, ok, throw, Action}
use streaming_server.Outcome.Actions.{after}
use streaming_server.Text.{Bytes, codes, bytes_eq}
use streaming_server.Playback.State.{Doubles}
use streaming_server.Session.State.{WebSocketSession}
use streaming_server.Session.Commands.{
  Json, Surroundings, Handling, Command, command_of, auth, config, stop, playback_start,
  playback_pause, playback_resume, playback_stop, playback_speed, record_start, record_stop,
  unknown,
}
use streaming_server.Session.Messages.{
  reply, on_player, stopping, plays, with_speed, obey, obey_type, perform, answer_error,
  try_message, handle_message, with_config, with_resolution, with_camera,
}
use streaming_server.Streaming.State.{StreamController}
use streaming_server.Streaming.Control.{start_streaming, stop_request}
use streaming_server.Streaming.Media.{start_playback, resume_playback}

abbrev is_auth : Command → Bool
is_auth auth = true
is_auth _ = false

command_of-other :
    (type : Bytes) (is_controller : Bool)
    → bytes_eq type (codes "auth") ≡ false
    → is_auth (command_of type is_controller) ≡ false
unfolding command_of
command_of-other type is_controller h = ground (arith, h)

abbrev pub set_authenticated : Bool → WebSocketSession → WebSocketSession
set_authenticated flag s = record s { is_authenticated = flag }

module _ {D : Type 0} (flag : Bool) where
  -- The same state but for the flag.
  abbrev pub set_flag : Handling D → Handling D
  set_flag h = record h { session = set_authenticated flag h.session }

  abbrev set_after : Try (Unit {0}) × Handling D → Try (Unit {0}) × Handling D
  set_after t = (t.0, set_flag t.1)

  set-after :
      {A : Type 0} (r : Try A) (f : A → Action (Handling D) (Unit {0})) (h : Handling D)
      → ((a : A) → r ≡ ok a → f a (set_flag h) ≡ set_after (f a h))
      → after r f (set_flag h) ≡ set_after (after r f h)
  set-after (ok a) f h k = k a refl
  set-after (throw e) f h k = refl

  set-stopping :
      (waits : Bool) (h : Handling D) → stopping waits (set_flag h) ≡ set_after (stopping waits h)
  set-stopping true h = refl
  set-stopping false h = refl

module _ (d : Doubles) (json : Json d.Double) (env : Surroundings) (flag : Bool) where
  open json use {Value, parse, text, text_or, int_or, double_or}

  set-plays :
      (name : Bytes) (h : Handling d.Double)
      → plays d json env name (set_flag flag h) ≡ set_after flag (plays d json env name h)
  set-plays [] h = refl
  set-plays (b ∷ name) h =
      let m = on_player (λ s k. start_playback d.scale env.disk (b ∷ name) s.session_id k) in
      set-after flag (m h).0 (λ u. reply (codes "PLAYBACK_STARTED")) (m h).1 (λ u e. refl)

  set-config :
      (camera fps : ℤ) (resolution : Bytes) (h : Handling d.Double)
      → with_config d json env camera resolution fps (set_flag flag h)
        ≡ set_after flag (with_config d json env camera resolution fps h)
  set-config camera fps resolution h =
      let (result, c) = start_streaming env.can_open camera resolution fps h.controller in
      set-after flag result (λ u. reply (codes "CONFIG_APPLIED")) (record h { controller = c })
        (λ u e. refl)

  set-perform :
      (j : Value) (e : Command) (h : Handling d.Double)
      → is_auth e ≡ false
      → perform d json env j e (set_flag flag h) ≡ set_after flag (perform d json env j e h)
  unfolding perform
  set-perform j auth h n = ground (arith, n)
  set-perform j config h n =
      set-after flag (int_or j (codes "camera_index") (pos 0)) (with_camera d json env j) h
        (λ camera e.
          set-after flag (text_or j (codes "resolution") (codes "120x90"))
            (with_resolution d json env j camera) h
            (λ resolution e.
              set-after flag (int_or j (codes "fps") (pos 10))
                (with_config d json env camera resolution) h
                (λ fps e. set-config camera fps resolution h)))
  set-perform j stop h n =
      set-stopping flag (stop_request h.controller).0
        (record h { controller = (stop_request h.controller).1 })
  set-perform j playback_start h n =
      set-after flag (text_or j (codes "filename") []) (plays d json env) h
        (λ name e. set-plays name h)
  set-perform j playback_pause h n = refl
  set-perform j playback_resume h n =
      let m = on_player (λ s k. resume_playback d.scale k) in
      set-after flag (m h).0 (λ u. reply (codes "PLAYBACK_RESUMED")) (m h).1 (λ u e. refl)
  set-perform j playback_stop h n = refl
  set-perform j playback_speed h n =
      set-after flag (double_or j (codes "speed") d.one) (with_speed d json env) h (λ speed e. refl)
  set-perform j record_start h n = refl
  set-perform j record_stop h n = refl
  set-perform j unknown h n = refl

  set-answer_error :
      (t : Try (Unit {0}) × Handling d.Double)
      → answer_error d json env t.0 (set_flag flag t.1)
        ≡ set_flag flag (answer_error d json env t.0 t.1)
  set-answer_error (ok u, h) = refl
  set-answer_error (throw e, h) = refl

  -- A message whose type is not "auth" is handled in the same way whether or not the session is
  -- authenticated: the same effects, the same controller, and the same session but for the flag.
  pub authentication_unused :
      (message : Bytes) (s : WebSocketSession) (c : StreamController d.Double)
      → ((j : Value) (type : Bytes)
          → parse message ≡ ok j
          → text j (codes "type") ≡ ok type
          → bytes_eq type (codes "auth") ≡ false)
      → handle_message d json env message (set_authenticated flag s) c
        ≡ set_flag flag (handle_message d json env message s c)
  unfolding handle_message try_message
  authentication_unused message s c other =
      let h : Handling d.Double = record {
        session = s;
        controller = c;
        effects = [];
        waits_for_stop = false;
      } in
      let tried : try_message d json env message (set_flag flag h)
          ≡ set_after flag (try_message d json env message h) =
        set-after flag (parse message) (obey d json env) h (λ j parsed.
          set-after flag (text j (codes "type")) (obey_type d json env j) h (λ type typed.
            set-perform j (command_of type s.is_controller) h
              (command_of-other type s.is_controller (other j type parsed typed)))) in
      ap (λ (t : Try (Unit {0}) × Handling d.Double). answer_error d json env t.0 t.1) tried
      ∙ set-answer_error (try_message d json env message h)

-- ===== src/Session/Keeps.antt =====
-- One rule for all that `handle_message` of src/websocket_session.cpp does: what each of its steps
-- keeps, it keeps.
use streaming_server.Base.{ℕ, ◌≡◌, refl, Bool, true, false, List, [], ◌∷◌, ◌++◌, map}
use streaming_server.Base.Int.{ℤ, pos}
use streaming_server.Outcome.{Try, ok, throw, what}
use streaming_server.Outcome.Actions.{◌>>=◌}
use streaming_server.Text.{Bytes, codes, bytes_eq}
use streaming_server.Playback.State.{Doubles}
use streaming_server.Session.State.{WebSocketSession}
use streaming_server.Session.Commands.{
  Json, Surroundings, sends, Handling, Command, command_of, auth, config, stop, playback_start,
  playback_pause, playback_resume, playback_stop, playback_speed, record_start, record_stop,
  unknown,
}
use streaming_server.Session.Messages.{
  reply, on_player, check_key, stopping, plays, with_key, with_speed, with_config, with_resolution,
  with_camera, obey, obey_type, perform, answer_error, try_message, handle_message,
}
use streaming_server.Session.Access.{holds-after}
use streaming_server.Streaming.State.{StreamController}
use streaming_server.Streaming.Control.{start_streaming, stop_request}
use streaming_server.Streaming.Media.{
  Outcome, start_playback, resume_playback, pause_playback, stop_playback, set_playback_speed,
  start_recording, stop_recording,
}
use streaming_server.Streaming.Operated.{
  Operated, started, stop_requested, played, start_recording-Operated, stop_recording-Operated,
  same_resume, same_start_playback,
}

module _ (d : Doubles) (json : Json d.Double) (env : Surroundings) where
  open json use {Value, parse, text, text_or, int_or, double_or}

  -- The steps: a reply, one method of the controller with the frames that it sends, the wait for a
  -- stop, and the check of the key that the message `j` gives.
  pub record Keeps (P : Handling d.Double → Type 0) (j : Value) : Type 0 where
    pub replies : (frame : Bytes) (h : Handling d.Double) → P h → P (reply frame h).1
    pub operates :
        (h : Handling d.Double) (c : StreamController d.Double)
        → Operated h.controller c
        → P h
        → P (record h { controller = c })
    pub forwards :
        (h : Handling d.Double) (frames : List (ℕ × Bytes))
        → P h
        → P (record h { effects = h.effects ++ map (λ s. sends s.0 s.1) frames })
    pub waits : (h : Handling d.Double) → P h → P (record h { waits_for_stop = true })
    pub checks :
        (key role : Bytes) (h : Handling d.Double)
        → text j (codes "api_key") ≡ ok key
        → P h
        → P (check_key env.authorized role (bytes_eq key env.api_key) h).1

  module _ (P : Handling d.Double → Type 0) (j : Value) (k : Keeps P j) where
    keeps-stopping : (waits : Bool) (h : Handling d.Double) → P h → P (stopping waits h).1
    keeps-stopping true h v = k.waits h v
    keeps-stopping false h v = k.replies (codes "STREAM_STOPPED") h v

    keeps-operation :
        (h : Handling d.Double) (c : StreamController d.Double) (frame : Bytes)
        → Operated h.controller c
        → P h
        → P (reply frame (record h { controller = c })).1
    keeps-operation h c frame o v =
        k.replies frame (record h { controller = c }) (k.operates h c o v)

    keeps-on_player :
        (f : WebSocketSession → StreamController d.Double → Outcome d.Double) (frame : Bytes)
        (h : Handling d.Double)
        → Operated h.controller (f h.session h.controller).controller
        → P h
        → P ((on_player f >>= (λ u. reply frame)) h).1
    keeps-on_player f frame h o v =
        let c = (f h.session h.controller).controller in
        let v' =
          k.forwards (record h { controller = c }) (f h.session h.controller).sends
            (k.operates h c o v) in
        holds-after P (on_player f h).0 (λ u. reply frame) (on_player f h).1 v'
          (λ u e. k.replies frame _ v')

    keeps-plays : (name : Bytes) (h : Handling d.Double) → P h → P (plays d json env name h).1
    keeps-plays [] h v = k.replies (codes "ERROR: No filename specified") h v
    keeps-plays (b ∷ name) h v =
        keeps-on_player (λ s c. start_playback d.scale env.disk (b ∷ name) s.session_id c)
          (codes "PLAYBACK_STARTED") h
          (played
            (same_start_playback d.scale env.disk (b ∷ name) h.session.session_id h.controller))
          v

    keeps-with_config :
        (camera fps : ℤ) (resolution : Bytes) (h : Handling d.Double)
        → P h
        → P (with_config d json env camera resolution fps h).1
    keeps-with_config camera fps resolution h v =
        let (result, c) = start_streaming env.can_open camera resolution fps h.controller in
        let v' = k.operates h c (started env.can_open camera resolution fps refl) v in
        holds-after P result (λ u. reply (codes "CONFIG_APPLIED")) (record h { controller = c }) v'
          (λ u e. k.replies (codes "CONFIG_APPLIED") (record h { controller = c }) v')

    pub keeps-perform : (e : Command) (h : Handling d.Double) → P h → P (perform d json env j e h).1
    unfolding perform pause_playback stop_playback set_playback_speed
    keeps-perform auth h v =
        holds-after P (text j (codes "api_key")) (with_key d json env j) h v (λ key given.
          holds-after P (text_or j (codes "role") (codes "viewer"))
            (λ role. check_key env.authorized role (bytes_eq key env.api_key)) h v
            (λ role e. k.checks key role h given v))
    keeps-perform config h v =
        holds-after P (int_or j (codes "camera_index") (pos 0)) (with_camera d json env j) h v
          (λ camera e.
            holds-after P (text_or j (codes "resolution") (codes "120x90"))
              (with_resolution d json env j camera) h v
              (λ resolution e.
                holds-after P (int_or j (codes "fps") (pos 10))
                  (with_config d json env camera resolution) h v
                  (λ fps e. keeps-with_config camera fps resolution h v)))
    keeps-perform stop h v =
        let (waits, c) = stop_request h.controller in
        keeps-stopping waits (record h { controller = c }) (k.operates h c (stop_requested refl) v)
    keeps-perform playback_start h v =
        holds-after P (text_or j (codes "filename") []) (plays d json env) h v
          (λ name e. keeps-plays name h v)
    keeps-perform playback_pause h v =
        keeps-operation h (pause_playback h.controller) (codes "PLAYBACK_PAUSED") (played refl) v
    keeps-perform playback_resume h v =
        keeps-on_player (λ s c. resume_playback d.scale c) (codes "PLAYBACK_RESUMED") h
          (played (same_resume d.scale h.controller)) v
    keeps-perform playback_stop h v =
        keeps-operation h (stop_playback h.controller) (codes "PLAYBACK_STOPPED") (played refl) v
    keeps-perform playback_speed h v =
        holds-after P (double_or j (codes "speed") d.one) (with_speed d json env) h v (λ speed e.
          keeps-operation h (set_playback_speed d speed h.controller)
            (codes "PLAYBACK_SPEED_CHANGED") (played refl) v)
    keeps-perform record_start h v =
        keeps-operation h (start_recording env.now env.recorder_opens h.controller)
          (codes "RECORDING_STARTED")
          (start_recording-Operated env.now env.recorder_opens h.controller) v
    keeps-perform record_stop h v =
        keeps-operation h (stop_recording env.now.steady h.controller) (codes "RECORDING_STOPPED")
          (stop_recording-Operated env.now.steady h.controller) v
    keeps-perform unknown h v = k.replies (codes "UNKNOWN_COMMAND") h v

  -- The state in which `handle_message` begins.
  abbrev pub begun : WebSocketSession → StreamController d.Double → Handling d.Double
  begun s c = record { session = s; controller = c; effects = []; waits_for_stop = false }

  module _ (P : Handling d.Double → Type 0) (message : Bytes) where
    keeps-answer_error :
        ((frame : Bytes) (h : Handling d.Double) → P h → P (reply frame h).1)
        → (r : Try (Unit {0})) (h : Handling d.Double) → P h
        → P (answer_error d json env r h)
    keeps-answer_error replies (ok u) h v = v
    keeps-answer_error replies (throw e) h v = replies (codes "ERROR: " ++ what e) h v

    pub keeps-handle_message :
        ((frame : Bytes) (h : Handling d.Double) → P h → P (reply frame h).1)
        → ((j : Value) → parse message ≡ ok j → Keeps P j)
        → (s : WebSocketSession) (c : StreamController d.Double) → P (begun s c)
        → P (handle_message d json env message s c)
    unfolding handle_message try_message
    keeps-handle_message replies steps s c v =
        keeps-answer_error replies (try_message d json env message (begun s c)).0
          (try_message d json env message (begun s c)).1
          (holds-after P (parse message) (obey d json env) (begun s c) v (λ j parsed.
            holds-after P (text j (codes "type")) (obey_type d json env j) (begun s c) v (λ type e.
              keeps-perform P j (steps j parsed) (command_of type s.is_controller) (begun s c) v)))

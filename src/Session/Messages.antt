-- ===== src/Session/Messages.antt =====
-- src/websocket_session.cpp, `handle_message`: what a message of a client asks for and what it is
-- answered. JSON is a parameter.
use streaming_server.Base.{Bool, true, false, [], ◌∷◌, ◌++◌, map, Option, none, some, if◌then◌else◌}
use streaming_server.Base.Int.{ℤ, pos}
use streaming_server.Outcome.{Exception, Try, ok, throw, what, Action}
use streaming_server.Outcome.Actions.{lift, modify, ◌>>=◌, ◌>>◌}
use streaming_server.Text.{Bytes, codes, bytes_eq}
use streaming_server.Playback.State.{Doubles}
use streaming_server.Session.State.{WebSocketSession}
use streaming_server.Streaming.State.{StreamController}
use streaming_server.Streaming.Control.{start_streaming, stop_request, stop_poll}
use streaming_server.Streaming.Media.{
  Outcome, start_recording, stop_recording, start_playback, pause_playback, resume_playback,
  stop_playback, set_playback_speed,
}
use streaming_server.Session.Commands.{
  Json, Surroundings, Effect, sends, writes, adds_viewer, Handling, Command, auth, config, stop,
  playback_start, playback_pause, playback_resume, playback_stop, playback_speed, record_start,
  record_stop, unknown, command_of,
}

abbrev pub thrown_by : Option Exception → Try (Unit {0})
thrown_by none = ok tt
thrown_by (some e) = throw e

module _ {D : Type 0} where
  abbrev pub emit : Effect → Action (Handling D) (Unit {0})
  emit e = modify (λ h. record h { effects = h.effects ++ e ∷ [] })

  -- `send_frame` of the session that handles.
  abbrev pub reply : Bytes → Action (Handling D) (Unit {0})
  reply frame h = emit (sends h.session.session_id frame) h

  abbrev pub on_controller :
      (StreamController D → StreamController D) → Action (Handling D) (Unit {0})
  on_controller f = modify (λ h. record h { controller = f h.controller })

  abbrev pub on_player :
      (WebSocketSession → StreamController D → Outcome D) → Action (Handling D) (Unit {0})
  on_player f h =
      let o = f h.session h.controller in
      (
        thrown_by o.thrown,
        record h {
          controller = o.controller;
          effects = h.effects ++ map (λ s. sends s.0 s.1) o.sends;
        },
      )

  abbrev pub starts_stream : (ℤ → Bool) → ℤ → Bytes → ℤ → Action (Handling D) (Unit {0})
  starts_stream can_open camera resolution fps h =
      let (result, c) = start_streaming can_open camera resolution fps h.controller in
      (result, record h { controller = c })

  -- The answer to a correct key.
  abbrev pub admit : Bool → Action (Handling D) (Unit {0})
  admit true = do
    modify (λ h. record h { session = record h.session { is_controller = true } })
    (λ h. emit (adds_viewer h.session.session_id) h)
    reply (codes "AUTH_CONTROLLER_SUCCESS")
  admit false = do
    (λ h. emit (adds_viewer h.session.session_id) h)
    reply (codes "AUTH_VIEWER_SUCCESS")
    (λ h.
        reply (if h.controller.is_streaming then codes "STREAM_ACTIVE" else codes "STREAM_INACTIVE")
          h)

  abbrev pub check_key : Try (Unit {0}) → Bytes → Bool → Action (Handling D) (Unit {0})
  check_key authorized role false = do
    emit (writes (codes "AUTH_FAILED" ++ 0 ∷ []))
    lift authorized
  check_key authorized role true = do
    modify (λ h. record h { session = record h.session { is_authenticated = true } })
    admit (bytes_eq role (codes "controller"))

  -- `stop_streaming` up to its first wait. While it waits no answer is sent.
  abbrev pub stopping : Bool → Action (Handling D) (Unit {0})
  stopping true = modify (λ h. record h { waits_for_stop = true })
  stopping false = reply (codes "STREAM_STOPPED")

  abbrev pub stops : Action (Handling D) (Unit {0})
  stops h =
      let (waits, c) = stop_request h.controller in stopping waits (record h { controller = c })

  -- The handler after each wait of `stop_streaming`.
  unfoldable pub poll_stop : Handling D → Handling D
  poll_stop h =
      let (waits, c) = stop_poll h.controller in
      let h' = record h { controller = c } in
      if waits
      then h'
      else (reply (codes "STREAM_STOPPED") (record h' { waits_for_stop = false })).1

module _ (d : Doubles) (json : Json d.Double) (env : Surroundings) where
  open json use {Value, parse, text, text_or, int_or, double_or}

  abbrev pub plays : Bytes → Action (Handling d.Double) (Unit {0})
  plays [] = reply (codes "ERROR: No filename specified")
  plays (b ∷ name) = do
    on_player (λ s c. start_playback d.scale env.disk (b ∷ name) s.session_id c)
    reply (codes "PLAYBACK_STARTED")

  abbrev pub with_key : Value → Bytes → Action (Handling d.Double) (Unit {0})
  with_key j key = do
    role ← lift (text_or j (codes "role") (codes "viewer"))
    check_key env.authorized role (bytes_eq key env.api_key)

  abbrev pub with_speed : d.Double → Action (Handling d.Double) (Unit {0})
  with_speed speed = do
    on_controller (set_playback_speed d speed)
    reply (codes "PLAYBACK_SPEED_CHANGED")

  abbrev pub with_config : ℤ → Bytes → ℤ → Action (Handling d.Double) (Unit {0})
  with_config camera resolution fps = do
    starts_stream env.can_open camera resolution fps
    reply (codes "CONFIG_APPLIED")

  abbrev pub with_resolution : Value → ℤ → Bytes → Action (Handling d.Double) (Unit {0})
  with_resolution j camera resolution = do
    fps ← lift (int_or j (codes "fps") (pos 10))
    with_config camera resolution fps

  abbrev pub with_camera : Value → ℤ → Action (Handling d.Double) (Unit {0})
  with_camera j camera = do
    resolution ← lift (text_or j (codes "resolution") (codes "120x90"))
    with_resolution j camera resolution

  unfoldable pub perform : Value → Command → Action (Handling d.Double) (Unit {0})
  perform j auth = do key ← lift (text j (codes "api_key")); with_key j key
  perform j config = do
    camera ← lift (int_or j (codes "camera_index") (pos 0))
    with_camera j camera
  perform j stop = stops
  perform j playback_start = do filename ← lift (text_or j (codes "filename") []); plays filename
  perform j playback_pause = do on_controller pause_playback; reply (codes "PLAYBACK_PAUSED")
  perform j playback_resume = do
    on_player (λ s c. resume_playback d.scale c)
    reply (codes "PLAYBACK_RESUMED")
  perform j playback_stop = do on_controller stop_playback; reply (codes "PLAYBACK_STOPPED")
  perform j playback_speed = do speed ← lift (double_or j (codes "speed") d.one); with_speed speed
  perform j record_start = do
    on_controller (start_recording env.now env.recorder_opens)
    reply (codes "RECORDING_STARTED")
  perform j record_stop = do
    on_controller (stop_recording env.now.steady)
    reply (codes "RECORDING_STOPPED")
  perform j unknown = reply (codes "UNKNOWN_COMMAND")

  -- The `catch` block.
  abbrev pub answer_error : Try (Unit {0}) → Handling d.Double → Handling d.Double
  answer_error (ok u) h = h
  answer_error (throw e) h = (reply (codes "ERROR: " ++ what e) h).1

  abbrev pub obey_type : Value → Bytes → Action (Handling d.Double) (Unit {0})
  obey_type j type h = perform j (command_of type h.session.is_controller) h

  abbrev pub obey : Value → Action (Handling d.Double) (Unit {0})
  obey j = do type ← lift (text j (codes "type")); obey_type j type

  -- The `try` block.
  unfoldable pub try_message : Bytes → Action (Handling d.Double) (Unit {0})
  try_message message = do j ← lift (parse message); obey j

  unfoldable pub handle_message :
      Bytes → WebSocketSession → StreamController d.Double → Handling d.Double
  handle_message message session controller =
      let (result, h) = try_message message (record {
        session = session;
        controller = controller;
        effects = [];
        waits_for_stop = false;
      }) in
      answer_error result h

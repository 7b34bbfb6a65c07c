-- ===== src/Session/Access.antt =====
-- What a message can change: the guards of `handle_message` in src/websocket_session.cpp.
use streaming_server.Base.{◌≡◌, refl, ap, ◌∙◌, Bool, true, false, [], ◌∷◌, arith}
use streaming_server.Outcome.{Try, ok, throw, Action}
use streaming_server.Outcome.Actions.{after, ◌>>=◌}
use streaming_server.Text.{Bytes, codes, bytes_eq}
use streaming_server.Playback.State.{Doubles}
use streaming_server.Session.State.{WebSocketSession}
use streaming_server.Session.Commands.{
  Json, Surroundings, Handling, Command, command_of, auth, config, stop, playback_start,
  playback_pause, playback_resume, playback_stop, playback_speed, record_start, record_stop,
  unknown,
}
use streaming_server.Session.Messages.{
  reply, on_player, admit, check_key, plays, with_key, with_speed, obey, obey_type, perform,
  answer_error, try_message, handle_message,
}
use streaming_server.Streaming.State.{StreamController}
use streaming_server.Streaming.Operated.{SameStream, same_trans, same_resume, same_start_playback}
use streaming_server.Streaming.Media.{
  Outcome, start_playback, resume_playback, pause_playback, stop_playback, set_playback_speed,
}

-- The commands that reach the stream or the recording.
abbrev pub reaches_stream : Command → Bool
reaches_stream config = true
reaches_stream stop = true
reaches_stream record_start = true
reaches_stream record_stop = true
reaches_stream _ = false

command_of-reaches : (type : Bytes) → reaches_stream (command_of type false) ≡ false
unfolding command_of
command_of-reaches type = ground arith

module _ {D : Type 0} where
  -- What holds before a computation that may throw, and behind it whatever it returns.
  pub holds-after :
      {A B : Type 0} (P : Handling D → Type 0) (r : Try A) (f : A → Action (Handling D) B)
      (h : Handling D)
      → P h
      → ((a : A) → r ≡ ok a → P (f a h).1)
      → P (after r f h).1
  holds-after P (ok a) f h v k = k a refl
  holds-after P (throw e) f h v k = v

  -- The handler has left the stream controller alone but for its playback, and does not wait.
  pub record Unmoved (c : StreamController D) (h : Handling D) : Type 0 where
    pub same : SameStream c h.controller
    pub calm : h.waits_for_stop ≡ false

module _ (d : Doubles) (json : Json d.Double) (env : Surroundings) where
  open json use {Value, parse, text, text_or, int_or, double_or}

  admit-Unmoved :
      (c : StreamController d.Double) (is_controller : Bool) (h : Handling d.Double)
      → Unmoved c h
      → Unmoved c (admit is_controller h).1
  admit-Unmoved c true h v = record { same = v.same; calm = v.calm }
  admit-Unmoved c false h v = record { same = v.same; calm = v.calm }

  check_key-Unmoved :
      (c : StreamController d.Double) (authorized : Try (Unit {0})) (role : Bytes) (right : Bool)
      (h : Handling d.Double)
      → Unmoved c h
      → Unmoved c (check_key authorized role right h).1
  check_key-Unmoved c authorized role false h v = record { same = v.same; calm = v.calm }
  check_key-Unmoved c authorized role true h v =
      admit-Unmoved c (bytes_eq role (codes "controller")) _
        (record { same = v.same; calm = v.calm })

  -- A call of the player, and the reply if it does not throw.
  on_player-Unmoved :
      (c : StreamController d.Double)
      (f : WebSocketSession → StreamController d.Double → Outcome d.Double) (frame : Bytes)
      (h : Handling d.Double)
      → SameStream c (f h.session h.controller).controller
      → h.waits_for_stop ≡ false
      → Unmoved c ((on_player f >>= (λ u. reply frame)) h).1
  on_player-Unmoved c f frame h v calm =
      holds-after (Unmoved c) (on_player f h).0 (λ u. reply frame) (on_player f h).1
        (record { same = v; calm = calm }) (λ u e. record { same = v; calm = calm })

  plays-Unmoved :
      (c : StreamController d.Double) (filename : Bytes) (h : Handling d.Double)
      → Unmoved c h
      → Unmoved c (plays d json env filename h).1
  plays-Unmoved c [] h v = record { same = v.same; calm = v.calm }
  plays-Unmoved c (b ∷ name) h v =
      let moved =
        same_start_playback d.scale env.disk (b ∷ name) h.session.session_id h.controller in
      on_player-Unmoved c (λ s k. start_playback d.scale env.disk (b ∷ name) s.session_id k)
        (codes "PLAYBACK_STARTED") h (same_trans c h.controller _ v.same moved) v.calm

  perform-Unmoved :
      (c : StreamController d.Double) (j : Value) (e : Command) (h : Handling d.Double)
      → reaches_stream e ≡ false
      → Unmoved c h
      → Unmoved c (perform d json env j e h).1
  unfolding perform pause_playback stop_playback set_playback_speed resume_playback
  perform-Unmoved c j auth h r v =
      holds-after (Unmoved c) (text j (codes "api_key")) (with_key d json env j) h v (λ key e.
        let right = bytes_eq key env.api_key in
        holds-after (Unmoved c) (text_or j (codes "role") (codes "viewer"))
          (λ role. check_key env.authorized role right) h v
          (λ role e'. check_key-Unmoved c env.authorized role right h v))
  perform-Unmoved c j config h r v = ground (arith, r)
  perform-Unmoved c j stop h r v = ground (arith, r)
  perform-Unmoved c j playback_start h r v =
      holds-after (Unmoved c) (text_or j (codes "filename") []) (plays d json env) h v
        (λ name e. plays-Unmoved c name h v)
  perform-Unmoved c j playback_pause h r v = record {
    same = same_trans c h.controller _ v.same refl;
    calm = v.calm;
  }
  perform-Unmoved c j playback_resume h r v =
      on_player-Unmoved c (λ s k. resume_playback d.scale k) (codes "PLAYBACK_RESUMED") h
        (same_trans c h.controller _ v.same (same_resume d.scale h.controller)) v.calm
  perform-Unmoved c j playback_stop h r v = record {
    same = same_trans c h.controller _ v.same refl;
    calm = v.calm;
  }
  perform-Unmoved c j playback_speed h r v =
      holds-after (Unmoved c) (double_or j (codes "speed") d.one) (with_speed d json env) h v
        (λ speed e. record { same = same_trans c h.controller _ v.same refl; calm = v.calm })
  perform-Unmoved c j record_start h r v = ground (arith, r)
  perform-Unmoved c j record_stop h r v = ground (arith, r)
  perform-Unmoved c j unknown h r v = record { same = v.same; calm = v.calm }

  answer_error-Unmoved :
      (c : StreamController d.Double) (r : Try (Unit {0})) (h : Handling d.Double)
      → Unmoved c h
      → Unmoved c (answer_error d json env r h)
  answer_error-Unmoved c (ok u) h v = v
  answer_error-Unmoved c (throw e) h v = record { same = v.same; calm = v.calm }

  pub handle_message-Unmoved :
      (message : Bytes) (s : WebSocketSession) (c : StreamController d.Double)
      → s.is_controller ≡ false
      → Unmoved c (handle_message d json env message s c)
  unfolding handle_message try_message
  handle_message-Unmoved message s c no_role =
      let h : Handling d.Double = record {
        session = s;
        controller = c;
        effects = [];
        waits_for_stop = false;
      } in
      let before : Unmoved c h = record { same = refl; calm = refl } in
      answer_error-Unmoved c (try_message d json env message h).0
        (try_message d json env message h).1
        (holds-after (Unmoved c) (parse message) (obey d json env) h before (λ j e.
          holds-after (Unmoved c) (text j (codes "type")) (obey_type d json env j) h before
            (λ type e'.
              perform-Unmoved c j (command_of type s.is_controller) h
                (ap (λ b. reaches_stream (command_of type b)) no_role ∙ command_of-reaches type)
                before)))

  -- Without the controller's role a message changes nothing of the stream controller but its
  -- playback: no message starts or stops the stream or a recording, whatever it contains.
  pub unprivileged_message :
      (message : Bytes) (s : WebSocketSession) (c : StreamController d.Double)
      → s.is_controller ≡ false
      → SameStream c (handle_message d json env message s c).controller
  unprivileged_message message s c no_role = (handle_message-Unmoved message s c no_role).same

-- ===== src/Session/Admission.antt =====
-- What a message of type "auth" does: `handle_message` of src/websocket_session.cpp.
use streaming_server.Base.{
  ℕ, ◌≡◌, refl, ap, Bool, true, false, ◌||◌, List, [], ◌∷◌, ◌++◌, if◌then◌else◌, Bool-cases, inl,
  inr,
}
use streaming_server.Outcome.{ok}
use streaming_server.Text.{Bytes, codes, bytes_eq}
use streaming_server.Playback.State.{Doubles}
use streaming_server.Session.State.{WebSocketSession}
use streaming_server.Session.Commands.{
  Json, Surroundings, Effect, sends, writes, adds_viewer, Handling, command_of, auth,
}
use streaming_server.Session.Messages.{
  answer_error, check_key, perform, try_message, handle_message,
}
use streaming_server.Session.Keeps.{begun}
use streaming_server.Streaming.State.{StreamController}

module _ (d : Doubles) (json : Json d.Double) (env : Surroundings) where
  open json use {Value, parse, text, text_or}

  -- The replies to a correct key.
  abbrev pub greetings : ℕ → Bool → Bool → List Effect
  greetings id true streaming = sends id (codes "AUTH_CONTROLLER_SUCCESS") ∷ []
  greetings id false streaming =
      sends id (codes "AUTH_VIEWER_SUCCESS")
      ∷ sends id (if streaming then codes "STREAM_ACTIVE" else codes "STREAM_INACTIVE")
      ∷ []

  -- A session with the rights of a role, that becomes a viewer; or one that is told of its failure.
  abbrev pub auth_outcome :
      Bool → Bool → WebSocketSession → StreamController d.Double → Handling d.Double
  auth_outcome true controls s c = record {
    session = record s { is_authenticated = true; is_controller = controls || s.is_controller };
    controller = c;
    effects = adds_viewer s.session_id ∷ greetings s.session_id controls c.is_streaming;
    waits_for_stop = false;
  }
  auth_outcome false controls s c = record {
    session = s;
    controller = c;
    effects = writes (codes "AUTH_FAILED" ++ 0 ∷ []) ∷ [];
    waits_for_stop = false;
  }

  check_key_outcome :
      (role : Bytes) (right : Bool) (s : WebSocketSession) (c : StreamController d.Double)
      → env.authorized ≡ ok tt
      → check_key env.authorized role right (begun d json env s c)
        ≡ (ok tt, auth_outcome right (bytes_eq role (codes "controller")) s c)
  check_key_outcome role false s c written = rw written refl
  check_key_outcome role true s c written = elim (Bool-cases (bytes_eq role (codes "controller"))) [
    | inl controls ↦ rw controls refl
    | inr watches ↦ rw watches refl
  ]

  perform_outcome :
      (j : Value) (key role : Bytes) (s : WebSocketSession) (c : StreamController d.Double)
      → text j (codes "api_key") ≡ ok key
      → text_or j (codes "role") (codes "viewer") ≡ ok role
      → env.authorized ≡ ok tt
      → perform d json env j auth (begun d json env s c)
        ≡ (ok tt, auth_outcome (bytes_eq key env.api_key) (bytes_eq role (codes "controller")) s c)
  unfolding perform
  perform_outcome j key role s c given asked written =
      rw (given, asked) (check_key_outcome role (bytes_eq key env.api_key) s c written)

  -- A message of type "auth" with a key and a role, or none, which is the viewer's. With the right
  -- key the session counts as authenticated, has the controller's role if it asks for that or had it,
  -- is posted to the viewers, and is greeted. With a wrong key it keeps what it has, and "AUTH_FAILED"
  -- with a NUL byte behind it is written directly. The stream controller is left alone. Writing does not
  -- fail.
  pub auth_lem :
      (message : Bytes) (j : Value) (key role : Bytes) (s : WebSocketSession)
      (c : StreamController d.Double)
      → parse message ≡ ok j
      → text j (codes "type") ≡ ok (codes "auth")
      → text j (codes "api_key") ≡ ok key
      → text_or j (codes "role") (codes "viewer") ≡ ok role
      → env.authorized ≡ ok tt
      → handle_message d json env message s c
        ≡ auth_outcome (bytes_eq key env.api_key) (bytes_eq role (codes "controller")) s c
  unfolding handle_message try_message command_of bytes_eq
  auth_lem message j key role s c parsed typed given asked written =
      rw (parsed, typed)
        (ap (λ r. answer_error d json env r.0 r.1)
          (perform_outcome j key role s c given asked written))

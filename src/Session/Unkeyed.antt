-- ===== src/Session/Unkeyed.antt =====
-- A client without the key, over a whole run of `do_run` in src/websocket_session.cpp.
use streaming_server.Base.{
  ◌≡◌, refl, ap, ◌∙◌, inl, inr, Bool, true, false, List, [], ◌∷◌, All, arith,
}
use streaming_server.Text.{Bytes}
use streaming_server.Playback.State.{Doubles}
use streaming_server.Session.State.{WebSocketSession}
use streaming_server.Session.Commands.{Json, Surroundings, Handling}
use streaming_server.Session.Messages.{handle_message}
use streaming_server.Session.Access.{Unmoved, handle_message-Unmoved}
use streaming_server.Session.Rights.{CarriesKey, rights_need_key}
use streaming_server.Session.Reading.{
  Phase, accepting, reading, stopping, ReadError, connection_gone, other_code, other_exception,
  ReadEvent, accepts, refuses, receives, fails, polls, Reader, loop_head, handled, resume,
  read_failed, read_step, read_steps,
}
use streaming_server.Streaming.State.{StreamController}
use streaming_server.Streaming.Operated.{SameStream, same_trans}

abbrev pub is_stopping : Phase → Bool
is_stopping stopping = true
is_stopping _ = false

module _ (d : Doubles) (json : Json d.Double) (env : Surroundings) where
  -- The event brings no message with the key.
  abbrev pub Keyless : ReadEvent → Type 0
  Keyless (receives message) = ¬ CarriesKey d json env message
  Keyless _ = Unit

  -- The controller is as at first but for its playback, and the session has no rights but those that
  -- `s` had.
  pub record Powerless (s : WebSocketSession) (c : StreamController d.Double) (r : Reader d.Double)
      : Type 0 where
    pub same : SameStream c r.controller
    pub role : r.session.is_controller ≡ false
    pub flag : r.session.is_authenticated ≡ s.is_authenticated
    pub calm : is_stopping r.phase ≡ false

  loop_head-calm : (s : WebSocketSession) → is_stopping (loop_head s) ≡ false
  loop_head-calm s = ground arith

  read_failed-rights :
      (e : ReadError) (s : WebSocketSession)
      → ((read_failed e s).is_controller ≡ s.is_controller)
        × ((read_failed e s).is_authenticated ≡ s.is_authenticated)
  unfolding read_failed
  read_failed-rights connection_gone s = (refl, refl)
  read_failed-rights other_code s = ground arith
  read_failed-rights other_exception s = (refl, refl)

  handled-Powerless :
      (s : WebSocketSession) (c : StreamController d.Double) (h : Handling d.Double)
      → Unmoved c h
      → h.session.is_controller ≡ false
      → h.session.is_authenticated ≡ s.is_authenticated
      → Powerless s c (handled h)
  handled-Powerless s c h u role flag = record {
    same = u.same;
    role = role;
    flag = flag;
    calm = rw u.calm (loop_head-calm h.session);
  }

  receives-Powerless :
      (s : WebSocketSession) (c : StreamController d.Double) (message : Bytes) (r : Reader d.Double)
      → ¬ CarriesKey d json env message
      → Powerless s c r
      → Powerless s c (handled (handle_message d json env message r.session r.controller))
  receives-Powerless s c message r keyless v =
      elim (rights_need_key d json env message r.session r.controller) [
        | inl kept ↦
            let u = handle_message-Unmoved d json env message r.session r.controller v.role in
            let moved : Unmoved c (handle_message d json env message r.session r.controller) =
              record { same = same_trans c r.controller _ v.same u.same; calm = u.calm } in
            handled-Powerless s c (handle_message d json env message r.session r.controller) moved
              (ap (λ (t : WebSocketSession). t.is_controller) kept ∙ v.role)
              (ap (λ (t : WebSocketSession). t.is_authenticated) kept ∙ v.flag)
        | inr key ↦ absurd (keyless key)
      ]

  resume-Powerless :
      (s : WebSocketSession) (c : StreamController d.Double) (p : Phase) (e : ReadEvent)
      (r : Reader d.Double)
      → is_stopping p ≡ false
      → Keyless e
      → Powerless s c r
      → Powerless s c (resume d json env p e r)
  resume-Powerless s c accepting accepts r at k v = record {
    same = v.same;
    role = v.role;
    flag = v.flag;
    calm = refl;
  }
  resume-Powerless s c accepting refuses r at k v = record {
    same = v.same;
    role = v.role;
    flag = v.flag;
    calm = refl;
  }
  resume-Powerless s c reading (receives message) r at k v = receives-Powerless s c message r k v
  resume-Powerless s c reading (fails e) r at k v = record {
    same = v.same;
    role = (read_failed-rights e r.session).0 ∙ v.role;
    flag = (read_failed-rights e r.session).1 ∙ v.flag;
    calm = refl;
  }
  resume-Powerless s c stopping polls r at k v = ground (arith, at)
  resume-Powerless s c p e r at k v = record {
    same = v.same;
    role = v.role;
    flag = v.flag;
    calm = v.calm;
  }

  -- Whatever happens to a connection whose messages do not carry the key, and whatever the messages
  -- are: the stream controller stays as it was but for its playback, and the session gains neither
  -- the role nor the flag of authentication.
  pub unkeyed_run :
      (s : WebSocketSession) (c : StreamController d.Double) (es : List ReadEvent)
      (r : Reader d.Double)
      → All Keyless es
      → Powerless s c r
      → Powerless s c (read_steps d json env es r)
  unfolding read_steps read_step
  unkeyed_run s c [] r k v = record { same = v.same; role = v.role; flag = v.flag; calm = v.calm }
  unkeyed_run s c (e ∷ es) r k v =
      let v' = resume-Powerless s c r.phase e r v.calm k.0 v in
      let w = unkeyed_run s c es (resume d json env r.phase e r) k.1 v' in
      record { same = w.same; role = w.role; flag = w.flag; calm = w.calm }

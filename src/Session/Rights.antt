-- ===== src/Session/Rights.antt =====
-- What messages do to the rights of a session: `handle_message` of src/websocket_session.cpp.
use streaming_server.Base.{
  ℕ, ◌≡◌, refl, sym, ap, ◌∙◌, ◌⊎◌, inl, inr, Bool, true, false, ◌||◌, List, [], ◌∷◌, ◌++◌, map,
  Bool-cases, ◌==◌, ==_iff, if◌then◌else◌, arith,
}
use streaming_server.Outcome.{ok}
use streaming_server.Text.{Bytes, codes, bytes_eq, bytes_eq→eq}
use streaming_server.Playback.State.{Doubles}
use streaming_server.Session.State.{WebSocketSession}
use streaming_server.Session.Commands.{
  Json, Surroundings, Effect, sends, writes, adds_viewer, Handling,
}
use streaming_server.Session.Messages.{admit, reply, handle_message}
use streaming_server.Session.Keeps.{Keeps, keeps-handle_message}
use streaming_server.Streaming.State.{StreamController}

-- Whether the session `n` is added to the viewers.
abbrev pub adds : ℕ → List Effect → Bool
adds n [] = false
adds n (sends m frame ∷ es) = adds n es
adds n (writes frame ∷ es) = adds n es
adds n (adds_viewer m ∷ es) = m == n || adds n es

pub adds-append : (n : ℕ) (es fs : List Effect) → adds n (es ++ fs) ≡ (adds n es || adds n fs)
adds-append n [] fs = refl
adds-append n (sends m frame ∷ es) fs = adds-append n es fs
adds-append n (writes frame ∷ es) fs = adds-append n es fs
adds-append n (adds_viewer m ∷ es) fs = ground (arith, adds-append n es fs)

pub adds-sends :
    (n : ℕ) (frames : List (ℕ × Bytes)) → adds n (map (λ s. sends s.0 s.1) frames) ≡ false
adds-sends n [] = refl
adds-sends n (s ∷ frames) = adds-sends n frames

module _ (d : Doubles) (json : Json d.Double) (env : Surroundings) (message : Bytes) where
  open json use {Value, parse, text}

  -- The message is an object whose `api_key` is the server's.
  abbrev pub CarriesKey : Type 0
  CarriesKey = (j : Value) × (parse message ≡ ok j) × (text j (codes "api_key") ≡ ok env.api_key)

  key_given :
      (j : Value) (key : Bytes)
      → parse message ≡ ok j
      → text j (codes "api_key") ≡ ok key
      → bytes_eq key env.api_key ≡ true
      → CarriesKey
  key_given j key parsed given right =
      (j, parsed, given ∙ ap ok (bytes_eq→eq key env.api_key right))

  -- The session is as it was, or the message carries the key.
  record Guarded (s : WebSocketSession) (h : Handling d.Double) : Type 0 where
    pub guarded : (h.session ≡ s) ⊎ CarriesKey

  steps_kept :
      (s : WebSocketSession) (j : Value) → parse message ≡ ok j → Keeps d json env (Guarded s) j
  steps_kept s j parsed = record {
    replies = λ frame h v. record { guarded = v.guarded };
    operates = λ h c o v. record { guarded = v.guarded };
    forwards = λ h frames v. record { guarded = v.guarded };
    waits = λ h v. record { guarded = v.guarded };
    checks = λ key role h given v. elim (Bool-cases (bytes_eq key env.api_key)) [
      | inl right ↦ record { guarded = inr (key_given j key parsed given right) }
      | inr wrong ↦ rw wrong (record { guarded = v.guarded })
    ];
  }

  -- A message changes the session that handles it, so also its role and whether it counts as
  -- authenticated, only if it carries the server's key.
  pub rights_need_key :
      (s : WebSocketSession) (c : StreamController d.Double)
      → ((handle_message d json env message s c).session ≡ s) ⊎ CarriesKey
  rights_need_key s c =
      (keeps-handle_message d json env (Guarded s) message
        (λ frame h v. record { guarded = v.guarded }) (steps_kept s) s c
        (record { guarded = inl refl })).guarded

  -- The session keeps its identifier, and adds none but itself to the viewers, with the key.
  pub record Adding (n : ℕ) (s : WebSocketSession) (h : Handling d.Double) : Type 0 where
    pub own : h.session.session_id ≡ s.session_id
    pub adding : (adds n h.effects ≡ false) ⊎ ((n ≡ s.session_id) × CarriesKey)

  adding_more :
      (n : ℕ) (s : WebSocketSession) (es fs : List Effect)
      → adds n fs ≡ false
      → (adds n es ≡ false) ⊎ ((n ≡ s.session_id) × CarriesKey)
      → (adds n (es ++ fs) ≡ false) ⊎ ((n ≡ s.session_id) × CarriesKey)
  adding_more n s es fs more (inl none_yet) =
      inl (adds-append n es fs ∙ ground (arith, more, none_yet))
  adding_more n s es fs more (inr given) = inr given

  module _ (n : ℕ) (s : WebSocketSession) where
    adding_reply :
        (es : List Effect) (m : ℕ) (frame : Bytes)
        → (adds n es ≡ false) ⊎ ((n ≡ s.session_id) × CarriesKey)
        → (adds n (es ++ sends m frame ∷ []) ≡ false) ⊎ ((n ≡ s.session_id) × CarriesKey)
    adding_reply es m frame = adding_more n s es (sends m frame ∷ []) refl

    -- With the key, the session adds itself.
    adding_self :
        (es : List Effect)
        → CarriesKey
        → (adds n es ≡ false) ⊎ ((n ≡ s.session_id) × CarriesKey)
        → (adds n (es ++ adds_viewer s.session_id ∷ []) ≡ false) ⊎ ((n ≡ s.session_id) × CarriesKey)
    adding_self es given before = elim (Bool-cases (s.session_id == n)) [
      | inl self ↦ inr (sym ((==_iff s.session_id n).0 self), given)
      | inr another ↦ adding_more n s es _ (rw another refl) before
    ]

    reply-Adding :
        (frame : Bytes) (h : Handling d.Double)
        → Adding n s h
        → Adding n s (record h { effects = h.effects ++ sends h.session.session_id frame ∷ [] })
    reply-Adding frame h v = record {
      own = v.own;
      adding = adding_reply h.effects _ frame v.adding;
    }

    admit-Adding :
        (is_controller : Bool) (h : Handling d.Double)
        → CarriesKey
        → Adding n s h
        → Adding n s (admit is_controller h).1
    admit-Adding true h given v =
        let added = record h {
          session = record h.session { is_controller = true };
          effects = h.effects ++ adds_viewer h.session.session_id ∷ [];
        } in
        let w : Adding n s added = record {
          own = v.own;
          adding = rw v.own (adding_self h.effects given v.adding);
        } in
        reply-Adding (codes "AUTH_CONTROLLER_SUCCESS") added w
    admit-Adding false h given v =
        let added = record h { effects = h.effects ++ adds_viewer h.session.session_id ∷ [] } in
        let w : Adding n s added = record {
          own = v.own;
          adding = rw v.own (adding_self h.effects given v.adding);
        } in
        let viewer = codes "AUTH_VIEWER_SUCCESS" in
        reply-Adding
          (if h.controller.is_streaming then codes "STREAM_ACTIVE" else codes "STREAM_INACTIVE")
          (reply viewer added).1 (reply-Adding viewer added w)

    every_step : (j : Value) → parse message ≡ ok j → Keeps d json env (Adding n s) j
    every_step j parsed = record {
      replies = reply-Adding;
      operates = λ h c o v. record { own = v.own; adding = v.adding };
      forwards = λ h frames v. record {
        own = v.own;
        adding = adding_more n s h.effects _ (adds-sends n frames) v.adding;
      };
      waits = λ h v. record { own = v.own; adding = v.adding };
      checks = λ key role h given v. elim (Bool-cases (bytes_eq key env.api_key)) [
        | inl right ↦ rw right (
            admit-Adding (bytes_eq role (codes "controller"))
              (record h { session = record h.session { is_authenticated = true } })
              (key_given j key parsed given right) (record { own = v.own; adding = v.adding }))
        | inr wrong ↦
            rw wrong (record { own = v.own; adding = adding_more n s h.effects _ refl v.adding })
      ];
    }

    pub handle_message-Adding :
        (c : StreamController d.Double) → Adding n s (handle_message d json env message s c)
    handle_message-Adding c =
        keeps-handle_message d json env (Adding n s) message reply-Adding every_step s c
          (record { own = refl; adding = inl refl })

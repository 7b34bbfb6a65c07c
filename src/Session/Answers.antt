-- ===== src/Session/Answers.antt =====
-- The answers of `handle_message` of src/websocket_session.cpp.
use streaming_server.Base.{ℕ, ◌≡◌, ◌⊎◌, Bool, true, false, List, [], ◌∷◌, ◌==◌}
use streaming_server.Outcome.{Try, ok}
use streaming_server.Session.Commands.{Effect, sends, writes, adds_viewer, Handling}

-- A frame queued for the session `id`, or written to its connection past the queue.
abbrev pub is_reply : ℕ → Effect → Bool
is_reply id (sends n frame) = n == id
is_reply id (writes frame) = true
is_reply id (adds_viewer n) = false

-- The last effect is a reply.
abbrev pub ends_in_reply : ℕ → List Effect → Bool
ends_in_reply id [] = false
ends_in_reply id (e ∷ []) = is_reply id e
ends_in_reply id (e ∷ e' ∷ es) = ends_in_reply id (e' ∷ es)

module _ {D : Type 0} where
  -- A reply is the last effect, or the handler waits for the stream to stop.
  abbrev pub Answered : Handling D → Type 0
  Answered h = (h.waits_for_stop ≡ true) ⊎ (ends_in_reply h.session.session_id h.effects ≡ true)

  -- An action that has returned has answered.
  record Answers (t : Try (Unit {0}) × Handling D) : Type 0 where
    pub answered : t.0 ≡ ok tt → Answered t.1

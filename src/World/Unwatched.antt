-- ===== src/World/Unwatched.antt =====
-- The controller of src/stream_controller.cpp and the posted tasks, as a session that is no viewer
-- sees them.
use streaming_server.Base.{
  ℕ, zero, suc, ◌≡◌, refl, sym, ◌∙◌, inl, inr, Bool, false, not, ◌&&◌, ◌||◌, List, [], ◌∷◌, ◌++◌,
  map, Option, none, some, ◌==◌, arith, Bool-cases,
}
use streaming_server.Text.{Bytes}
use streaming_server.Ascii.{OpenCv}
use streaming_server.Session.State.{WebSocketSession}
use streaming_server.Session.Commands.{Effect}
use streaming_server.Session.Rights.{adds, adds-append}
use streaming_server.Session.Farewell.{destroy}
use streaming_server.Streaming.State.{StreamController}
use streaming_server.Streaming.Control.{stop_poll, stop_request, cleanup}
use streaming_server.Streaming.Turns.{after_frame, frames_for, capture_turn_holds}
use streaming_server.Streaming.Capture.{Turned, loop_test, capture_turn}
use streaming_server.Streaming.Broadcast.{occurs, keep_if, occurs-remove_viewer}
use streaming_server.World.{pick}

-- Whether a frame has been passed to `send_frame` of the session.
abbrev pub sent_to : ℕ → List (ℕ × Bytes) → Bool
sent_to n [] = false
sent_to n (s ∷ ss) = s.0 == n || sent_to n ss

pub sent_to-append :
    (n : ℕ) (xs ys : List (ℕ × Bytes)) → sent_to n (xs ++ ys) ≡ (sent_to n xs || sent_to n ys)
sent_to-append n [] ys = refl
sent_to-append n (s ∷ xs) ys = ground (arith, sent_to-append n xs ys)

sent_to-map :
    (n : ℕ) (frame : Bytes) (vs : List ℕ) → sent_to n (map (λ v. (v, frame)) vs) ≡ occurs n vs
sent_to-map n frame [] = refl
sent_to-map n frame (v ∷ vs) = ground (arith, sent_to-map n frame vs)

occurs-keep_if :
    (test : ℕ → Bool) (n : ℕ) (vs : List ℕ)
    → occurs n vs ≡ false
    → occurs n (keep_if test vs) ≡ false
unfolding keep_if
occurs-keep_if test n [] h = refl
occurs-keep_if test n (v ∷ vs) h = ground (arith, occurs-keep_if test n vs)

pub occurs-append : (n : ℕ) (vs ws : List ℕ) → occurs n (vs ++ ws) ≡ (occurs n vs || occurs n ws)
occurs-append n [] ws = refl
occurs-append n (v ∷ vs) ws = ground (arith, occurs-append n vs ws)

or_false : (a b : Bool) → a || b ≡ false → (a ≡ false) × (b ≡ false)
or_false a b h = ground (arith, h)

-- Neither the task that is picked nor those that stay add the session.
abbrev pub PicksNone : ℕ → Option (Effect × List Effect) → Type 0
PicksNone n none = Unit
PicksNone n (some (t, us)) = (adds n (t ∷ []) ≡ false) × (adds n us ≡ false)

pick_later :
    (n : ℕ) (x : Effect) (o : Option (Effect × List Effect))
    → adds n (x ∷ []) ≡ false
    → PicksNone n o
    → PicksNone n (elim o [ none ↦ none | some (u, us) ↦ some (u, x ∷ us) ])
pick_later n x none h k = tt
pick_later n x (some (u, us)) h (first, rest) =
    (first, adds-append n (x ∷ []) us ∙ ground (arith, h, rest))

pub pick-PicksNone : (n k : ℕ) (ts : List Effect) → adds n ts ≡ false → PicksNone n (pick k ts)
unfolding pick
pick-PicksNone n k [] h = tt
pick-PicksNone n zero (x ∷ ts) h =
    or_false (adds n (x ∷ [])) (adds n ts) (sym (adds-append n (x ∷ []) ts) ∙ h)
pick-PicksNone n (suc k) (x ∷ ts) h =
    let (first, rest) =
      or_false (adds n (x ∷ [])) (adds n ts) (sym (adds-append n (x ∷ []) ts) ∙ h) in
    pick_later n x (pick k ts) first (pick-PicksNone n k ts rest)

module _ {D : Type 0} (n : ℕ) where
  -- A turn of the capture loop of a controller that the session does not watch.
  pub record Dark (t : Turned D) : Type 0 where
    pub unwatched : occurs n t.controller.viewers ≡ false
    pub unsent : sent_to n t.sends ≡ false

  pub loop_test-Dark :
      (out : List (ℕ × Bytes)) (c : StreamController D)
      → occurs n c.viewers ≡ false
      → sent_to n out ≡ false
      → Dark (loop_test out c)
  unfolding loop_test
  loop_test-Dark out c h k = elim (Bool-cases (not c.stop_requested && c.is_streaming)) [
    | inl more ↦ rw more (record { unwatched = h; unsent = k })
    | inr done ↦ rw done (record { unwatched = h; unsent = k })
  ]

  pub capture_turn-Dark :
      (cv : OpenCv) (live : ℕ → Bool) (now : ℕ) (frame : cv.Mat) (c : StreamController D)
      → occurs n c.viewers ≡ false
      → Dark (capture_turn cv live now frame c)
  capture_turn-Dark cv live now frame c h =
      let left = occurs-keep_if live n c.viewers h in
      capture_turn_holds live now Dark cv frame c (loop_test-Dark [] c h refl)
        (record { unwatched = h; unsent = refl })
        (λ text.
          loop_test-Dark (frames_for live now text c) (after_frame live now text c) left
            (sent_to-map n text (keep_if live c.viewers) ∙ left))

  pub stop_poll-unwatched :
      (c : StreamController D)
      → occurs n c.viewers ≡ false
      → occurs n (stop_poll c).1.viewers ≡ false
  unfolding stop_poll cleanup
  stop_poll-unwatched c h = ground (arith, h)

  pub destroy-unwatched :
      (live : ℕ → Bool) (s : WebSocketSession) (c : StreamController D)
      → occurs n c.viewers ≡ false
      → occurs n (destroy live s c).viewers ≡ false
  unfolding destroy stop_request
  destroy-unwatched live s c h = ground (arith, h, (occurs-remove_viewer live s.session_id c n).1)

-- ===== src/Streaming/Broadcast.antt =====
-- Who receives a frame of src/stream_controller.cpp, and what removing a viewer leaves.
use streaming_server.Base.{
  ℕ, ◌≡◌, refl, ◌∙◌, inl, inr, Bool, true, false, not, ◌||◌, ◌&&◌, List, [], ◌∷◌, map, ◌==◌,
  if◌then◌else◌, arith, Bool-cases,
}
use streaming_server.Text.{Bytes}
use streaming_server.Streaming.State.{StreamController}
use streaming_server.Streaming.Viewers.{
  erase_if, broadcast, remove_viewer, remove_viewer_by_id, broadcast_frame,
}

-- The viewers that satisfy a test, in order.
unfoldable pub keep_if : (ℕ → Bool) → List ℕ → List ℕ
keep_if test [] = []
keep_if test (v ∷ vs) = let rest = keep_if test vs in if test v then v ∷ rest else rest

abbrev pub occurs : ℕ → List ℕ → Bool
occurs v [] = false
occurs v (w ∷ ws) = w == v || occurs v ws

broadcast_viewers :
    (alive : ℕ → Bool) (frame : Bytes) (vs : List ℕ)
    → (broadcast alive frame vs).viewers ≡ keep_if alive vs
unfolding broadcast keep_if
broadcast_viewers alive frame [] = refl
broadcast_viewers alive frame (v ∷ vs) = ground (arith, broadcast_viewers alive frame vs)

broadcast_sends :
    (alive : ℕ → Bool) (frame : Bytes) (vs : List ℕ)
    → (broadcast alive frame vs).sends ≡ map (λ v. (v, frame)) (keep_if alive vs)
unfolding broadcast keep_if
broadcast_sends alive frame [] = refl
broadcast_sends alive frame (v ∷ vs) = ground (arith, broadcast_sends alive frame vs)

module _ {D : Type 0} (alive : ℕ → Bool) (c : StreamController D) where
  -- Each viewer whose session still exists gets the frame, in the order of arrival and as often as
  -- it was added; the others leave the list, and nothing else changes.
  pub broadcast_frame_lem :
      (frame : Bytes)
      → broadcast_frame alive frame c ≡ (
        map (λ v. (v, frame)) (keep_if alive c.viewers),
        record c { viewers = keep_if alive c.viewers },
      )
  unfolding broadcast_frame
  broadcast_frame_lem frame =
      cc (broadcast_viewers alive frame c.viewers, broadcast_sends alive frame c.viewers)

erase_if-occurs :
    (drops : ℕ → Bool) (v : ℕ) (vs : List ℕ)
    → occurs v (erase_if drops vs) ≡ (not (drops v) && occurs v vs)
unfolding erase_if
erase_if-occurs drops v [] = ground arith
erase_if-occurs drops v (w ∷ vs) = elim (Bool-cases (drops w)) [
  | inl gone ↦ rw gone (ground (arith, erase_if-occurs drops v vs))
  | inr stays ↦ rw stays (ground (arith, erase_if-occurs drops v vs))
]

module _ {D : Type 0} (alive : ℕ → Bool) (session : ℕ) (c : StreamController D) where
  -- After either way of removing a session, exactly the other viewers whose sessions still exist
  -- are left, however often the session was added.
  pub occurs-remove_viewer :
      (v : ℕ)
      → (occurs v (remove_viewer alive session c).viewers
          ≡ ((alive v && not (v == session)) && occurs v c.viewers))
        × (occurs v (remove_viewer_by_id alive session c).viewers
            ≡ ((alive v && not (v == session)) && occurs v c.viewers))
  unfolding remove_viewer remove_viewer_by_id
  occurs-remove_viewer v = (
    erase_if-occurs (λ v. not (alive v) || v == session) v c.viewers ∙ ground arith,
    erase_if-occurs (λ v. if alive v then v == session else true) v c.viewers ∙ ground arith,
  )

-- ===== src/Playback/Progress.antt =====
-- How far the player of src/playback_controller.cpp is in a recording after each expiry of its timer.
use streaming_server.Base.{
  ℕ, zero, suc, ◌≤◌, ◌≡◌, refl, ap, ◌∙◌, Bool, true, List, [], ◌∷◌, ◌++◌, append_assoc, none,
  length, All, take, ltb, arith,
}
use streaming_server.Base.Int.{ℤ}
use streaming_server.Text.{Bytes}
use streaming_server.Recording.{footer}
use streaming_server.Recording.Contents.{entries}
use streaming_server.Playback.State.{PlaybackController, Played}
use streaming_server.Playback.Steps.{read_next_frame}
use streaming_server.Playback.Replay.{
  continue, prepend, IsAt, Fits, texts, play_to_end, entry_read, one_round, next_player,
  next_player-IsAt,
}

-- The frames that the playback has delivered, and whether it goes on.
pub record HasPlayed {D : Type 0} (frames : List Bytes) (goes_on : Bool) (r : Played D)
    : Type 0 where
  pub delivered : r.frames ≡ frames
  pub no_throw : r.thrown ≡ none
  pub playing : r.player.is_playing ≡ goes_on

module _ {D : Type 0} (scale : ℤ → D → ℤ) where
  -- After `k` expiries the first `k + 1` frames have been delivered.
  pub play_some :
      (k start seconds count : ℕ) (whole : Bytes) (frames : List (ℕ × Bytes)) (out : List Bytes)
      (p : PlaybackController D)
      → IsAt whole (entries start frames ++ footer seconds count) p
      → All (Fits start) frames
      → k ≤ length frames
      → HasPlayed
          (out ++ take (suc k) (texts frames))
          (ltb k (length frames))
          (continue scale k (prepend scale out (read_next_frame scale p)))
  play_some zero start seconds count whole [] out p v h few =
      let done = play_to_end scale start seconds count whole [] out p v h in
      record { delivered = done.delivered; no_throw = done.no_throw; playing = done.stopped }
  play_some (suc k) start seconds count whole [] out p v h few = absurd (omega (arith, few))
  play_some zero start seconds count whole ((now, frame) ∷ frames) out p v h few =
      let read = entry_read scale start seconds count whole now frame frames out p v h.0 in
      let more : true ≡ ltb 0 (length ((now, frame) ∷ frames)) = ground arith in
      rw read (
        unfold continue in record { delivered = refl; no_throw = refl; playing = v.playing ∙ more })
  play_some (suc k) start seconds count whole ((now, frame) ∷ frames) out p v h few =
      let next = one_round scale start seconds count whole now frame frames out p v h.0 k in
      let p2 = next_player scale start seconds count whole now frame frames out p v h.0 in
      let v2 = next_player-IsAt scale start seconds count whole now frame frames out p v h.0 in
      let rest =
        play_some k start seconds count whole frames (out ++ frame ∷ []) p2 v2 h.1
          (omega (arith, few)) in
      let same : ltb k (length frames) ≡ ltb (suc k) (suc (length frames)) = ground arith in
      record {
        delivered =
            ap (λ (r : Played D). r.frames) next
            ∙ rest.delivered
            ∙ append_assoc out (frame ∷ []) (take (suc k) (texts frames));
        no_throw = ap (λ (r : Played D). r.thrown) next ∙ rest.no_throw;
        playing = ap (λ (r : Played D). r.player.is_playing) next ∙ rest.playing ∙ same;
      }

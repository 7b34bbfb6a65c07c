-- ===== src/Streaming/Viewers.antt =====
-- src/stream_controller.cpp: the viewers. `alive` is the environment's answer to whether a session
-- still exists, which is what `lock` and `expired` of its `weak_ptr` ask.
use streaming_server.Base.{ℕ, Bool, true, not, ◌||◌, List, [], ◌∷◌, ◌++◌, ◌==◌, if◌then◌else◌}
use streaming_server.Text.{Bytes}
use streaming_server.Streaming.State.{StreamController}

-- `remove_if` with `erase`.
unfoldable pub erase_if : (ℕ → Bool) → List ℕ → List ℕ
erase_if drops [] = []
erase_if drops (v ∷ vs) = let rest = erase_if drops vs in if drops v then rest else v ∷ rest

-- The viewers that the loop of `broadcast_frame` leaves, and the calls of `send_frame` it makes.
pub record Broadcast : Type 0 where
  pub viewers : List ℕ
  pub sends : List (ℕ × Bytes)

unfoldable pub broadcast : (ℕ → Bool) → Bytes → List ℕ → Broadcast
broadcast alive frame [] = record { viewers = []; sends = [] }
broadcast alive frame (v ∷ vs) =
    let rest = broadcast alive frame vs in
    if alive v then record { viewers = v ∷ rest.viewers; sends = (v, frame) ∷ rest.sends } else rest

module _ {D : Type 0} where
  -- The task that `add_viewer` posts.
  unfoldable pub add_viewer : ℕ → StreamController D → StreamController D
  add_viewer viewer c = record c { viewers = c.viewers ++ viewer ∷ [] }

  unfoldable pub remove_viewer : (ℕ → Bool) → ℕ → StreamController D → StreamController D
  remove_viewer alive viewer c = record c {
    viewers = erase_if (λ v. not (alive v) || v == viewer) c.viewers;
  }

  unfoldable pub remove_viewer_by_id : (ℕ → Bool) → ℕ → StreamController D → StreamController D
  remove_viewer_by_id alive session_id c = record c {
    viewers = erase_if (λ v. if alive v then v == session_id else true) c.viewers;
  }

  unfoldable pub broadcast_frame :
      (ℕ → Bool) → Bytes → StreamController D → List (ℕ × Bytes) × StreamController D
  broadcast_frame alive frame c =
      let b = broadcast alive frame c.viewers in (b.sends, record c { viewers = b.viewers })

-- ===== src/Video/Cameras.antt =====
-- The cameras of src/video_source.cpp: what `list_cameras` finds, and the state after each call.
use streaming_server.Base.{
  ℕ, zero, suc, ◌+◌, ◌≡◌, inl, inr, Bool, false, List, [], ◌∷◌, ◌++◌, Bool-cases, arith,
  if◌then◌else◌, ltb, leb, ◌&&◌, ◌||◌, ◌==◌,
}
use streaming_server.Base.Int.{ℤ, pos}
use streaming_server.Text.{Bytes, codes}
use streaming_server.Text.Decimal.{to_string}
use streaming_server.Video.{VideoSource, close, open_camera, set_resolution}

pub record CameraInfo : Type 0 where
  pub index : ℕ
  pub name : Bytes

abbrev pub camera_info : ℕ → CameraInfo
camera_info i = record { index = i; name = codes "/dev/video" ++ to_string i }

-- The loop from index `i` on, `rounds` indices.
unfoldable pub list_from : (ℤ → Bool) → ℕ → ℕ → List CameraInfo
list_from can_open zero i = []
list_from can_open (suc rounds) i =
    let rest = list_from can_open rounds (i + 1) in
    if can_open (pos i) then camera_info i ∷ rest else rest

unfoldable pub list_cameras : (ℤ → Bool) → List CameraInfo
unfolding list_from
list_cameras can_open = list_from can_open 10 0

-- `is_opened_` and the capture agree.
pub record IsCoherent (v : VideoSource) : Type 0 where
  pub agree : v.is_opened ≡ v.cap_open

-- Opening, whether it succeeds or throws, closing, and setting a resolution keep `is_available`
-- equal to what the capture says; a failed opening leaves the camera closed.
pub camera_calls-IsCoherent :
    (can_open : ℤ → Bool) (index w h : ℤ) (v : VideoSource)
    → IsCoherent v
    → IsCoherent (open_camera can_open index v).1
      × IsCoherent (close v)
      × IsCoherent (set_resolution w h v)
      × (can_open index ≡ false → (open_camera can_open index v).1.cap_open ≡ false)
      × ((close v).cap_open ≡ false)
unfolding open_camera close set_resolution
camera_calls-IsCoherent can_open index w h v c = ground arith

abbrev pub lists : ℕ → List CameraInfo → Bool
lists k [] = false
lists k (c ∷ cs) = c.index == k || lists k cs

list_from-lists :
    (can_open : ℤ → Bool) (rounds i k : ℕ)
    → lists k (list_from can_open rounds i) ≡ ((leb i k && ltb k (i + rounds)) && can_open (pos k))
unfolding list_from
list_from-lists can_open zero i k = ground arith
list_from-lists can_open (suc rounds) i k = elim (Bool-cases (can_open (pos i))) [
  | inl opens ↦ rw opens (ground (arith, list_from-lists can_open rounds (i + 1) k))
  | inr shut ↦ rw shut (ground (arith, list_from-lists can_open rounds (i + 1) k))
]

-- A camera is listed exactly if its index is below ten and the system opens it.
pub lists-list_cameras :
    (can_open : ℤ → Bool) (k : ℕ) → lists k (list_cameras can_open) ≡ (ltb k 10 && can_open (pos k))
unfolding list_cameras
lists-list_cameras can_open k = ground (arith, list_from-lists can_open 10 0 k)

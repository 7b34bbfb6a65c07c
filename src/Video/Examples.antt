-- ===== src/Video/Examples.antt =====
-- The camera on concrete input, and its theorems at work.
use streaming_server.Base.{◌≡◌, refl, Bool, false, ◌==◌}
use streaming_server.Base.Int.{ℤ, pos}
use streaming_server.Video.{new_source, close, open_camera, set_resolution}
use streaming_server.Video.Cameras.{IsCoherent, camera_calls-IsCoherent}

abbrev second_only : ℤ → Bool
second_only (pos n) = n == 1
second_only _ = false

camera_calls-IsCoherent_example :
    IsCoherent (open_camera second_only (pos 0) new_source).1
    × IsCoherent (close new_source)
    × IsCoherent (set_resolution (pos 240) (pos 180) new_source)
    × (second_only (pos 0) ≡ false
        → (open_camera second_only (pos 0) new_source).1.cap_open ≡ false)
    × ((close new_source).cap_open ≡ false)
camera_calls-IsCoherent_example =
    camera_calls-IsCoherent second_only (pos 0) (pos 240) (pos 180) new_source
      (record { agree = refl })

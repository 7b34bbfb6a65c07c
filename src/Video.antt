-- ===== src/Video.antt =====
-- src/video_source.cpp (on Linux): a camera behind `cv::VideoCapture`. Which indices can be opened
-- is the environment's answer; log lines are left out.
pub mod Cameras
pub mod Examples
use streaming_server.Base.{Bool, true, false, if◌then◌else◌}
use streaming_server.Base.Int.{ℤ, pos, negsuc}
use streaming_server.Outcome.{Try, ok, throw, runtime_error}
use streaming_server.Text.{codes}

-- `cap_open` is what `cap_.isOpened()` answers.
pub record VideoSource : Type 0 where
  pub cap_open : Bool
  pub camera_index : ℤ
  pub width : ℤ
  pub height : ℤ
  pub is_opened : Bool

abbrev pub new_source : VideoSource
new_source = record {
  cap_open = false;
  camera_index = negsuc 0;
  width = pos 640;
  height = pos 480;
  is_opened = false;
}

unfoldable pub close : VideoSource → VideoSource
close v = if v.cap_open then record v { cap_open = false; is_opened = false } else v

abbrev open_at : Bool → ℤ → VideoSource → Try (Unit {0}) × VideoSource
open_at opens index v =
    if opens
    then (ok tt, record v { camera_index = index; cap_open = true; is_opened = true })
    else (
      throw (runtime_error (codes "Could not open video source")),
      record v { camera_index = index; cap_open = false },
    )

-- `can_open` says which cameras the system opens.
unfoldable pub open_camera : (ℤ → Bool) → ℤ → VideoSource → Try (Unit {0}) × VideoSource
unfolding close
open_camera can_open index v = open_at (can_open index) index (if v.cap_open then close v else v)

unfoldable pub is_available : VideoSource → Bool
is_available v = v.is_opened

unfoldable pub set_resolution : ℤ → ℤ → VideoSource → VideoSource
set_resolution width height v = record v { width = width; height = height }

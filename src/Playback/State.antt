-- ===== src/Playback/State.antt =====
-- include/playback_controller.hpp: the state of a player, and the methods that read no frame.
-- The `double` arithmetic is a parameter; log lines are left out.
use streaming_server.Base.{
  ℕ, ◌≡◌, Bool, true, false, not, ◌&&◌, List, [], Option, none, some, if◌then◌else◌,
}
use streaming_server.Base.Int.{ℤ, pos}
use streaming_server.Outcome.{Exception}
use streaming_server.Text.{Bytes}
use streaming_server.Files.{InFile, closed_file, close_in}
use streaming_server.Playback.SteadyTimer.{SteadyTimer, idle, cancel}

-- The `double` of the playback speed: its order, three constants, and the delay in milliseconds
-- divided by the speed and cast to `int`.
pub record Doubles : Type 1 where
  pub Double : Type 0
  pub lt : Double → Double → Bool
  pub tenth : Double
  pub one : Double
  pub ten : Double
  pub scale : ℤ → Double → ℤ
  pub lt_asym : (a b : Double) → lt a b ≡ true → lt b a ≡ false
  pub tenth-lt-ten : lt tenth ten ≡ true

pub record RecordingInfo : Type 0 where
  pub filename : Bytes
  pub timestamp : Bytes
  pub duration : ℤ
  pub frame_count : ℤ
  pub file_size : ℕ

abbrev pub no_info : RecordingInfo
no_info = record {
  filename = [];
  timestamp = [];
  duration = pos 0;
  frame_count = pos 0;
  file_size = 0;
}

pub record PlaybackController (D : Type 0) : Type 0 where
  pub playback_timer : SteadyTimer
  pub playback_file : InFile
  pub is_playing : Bool
  pub is_paused : Bool
  pub has_callback : Bool
  pub playback_speed : D
  pub current_recording_info : RecordingInfo
  pub current_frame : ℕ
  pub next_frame_time : ℤ

-- What a call leaves: the controller, the frames passed to the callback in order, and the
-- exception that left it, if any.
pub record Played (D : Type 0) : Type 0 where
  pub player : PlaybackController D
  pub frames : List Bytes
  pub thrown : Option Exception

abbrev pub returns : {D : Type 0} → PlaybackController D → List Bytes → Played D
returns p out = record { player = p; frames = out; thrown = none }

abbrev pub raises : {D : Type 0} → PlaybackController D → List Bytes → Exception → Played D
raises p out e = record { player = p; frames = out; thrown = some e }

module _ {D : Type 0} where
  unfoldable pub stop_playback : PlaybackController D → PlaybackController D
  unfolding cancel close_in
  stop_playback p =
      if p.is_playing
      then record p {
        is_playing = false;
        is_paused = false;
        playback_timer = cancel p.playback_timer;
        playback_file =
            if p.playback_file.is_open then close_in p.playback_file else p.playback_file;
      }
      else p

module _ {D : Type 0} where
  unfoldable pub pause_playback : PlaybackController D → PlaybackController D
  unfolding cancel
  pause_playback p =
      if p.is_playing && not p.is_paused
      then record p { is_paused = true; playback_timer = cancel p.playback_timer }
      else p

-- `std::max(0.1, std::min(10.0, speed))`
module _ (d : Doubles) where
  open d use {Double, lt, tenth, one, ten}

  abbrev pub clamp_speed : Double → Double
  clamp_speed speed =
      let low = if lt speed ten then speed else ten in if lt tenth low then low else tenth

  unfoldable pub set_playback_speed : Double → PlaybackController Double → PlaybackController Double
  set_playback_speed speed p = record p { playback_speed = clamp_speed speed }

  abbrev pub new_player : PlaybackController Double
  new_player = record {
    playback_timer = idle;
    playback_file = closed_file;
    is_playing = false;
    is_paused = false;
    has_callback = false;
    playback_speed = one;
    current_recording_info = no_info;
    current_frame = 0;
    next_frame_time = pos 0;
  }

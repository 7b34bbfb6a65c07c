-- ===== src/Playback/Examples.antt =====
-- The player on concrete input, and its theorems at work.
use streaming_server.Base.{ℕ, ◌*◌, ◌/◌, ◌≡◌, refl, true, false, [], ◌∷◌, none, some, ltb, arith}
use streaming_server.Base.Int.{ℤ, pos, negsuc}
use streaming_server.Text.{codes}
use streaming_server.Files.{Disk}
use streaming_server.Files.Lines.{good}
use streaming_server.Recording.{fresh}
use streaming_server.Recording.Contents.{fresh-IsConsistent, record_session}
use streaming_server.Recording.Examples.{noon, two_frames}
use streaming_server.Playback.State.{
  Doubles, PlaybackController, new_player, set_playback_speed, stop_playback, pause_playback,
}
use streaming_server.Playback.Loading.{Loaded, load_recording}
use streaming_server.Playback.Steps.{start_playback}
use streaming_server.Playback.Replay.{tick, continue, Finished}
use streaming_server.Playback.Progress.{HasPlayed}
use streaming_server.Playback.LoadEnds.{load_recording_ends}
use streaming_server.Playback.RoundTrip.{replay_recorded, recorded_info_zero}
use streaming_server.Playback.Control.{speed_in_range, no_frame_after_stop, load_over_open_fails}

pub tenths_asym : (a b : ℕ) → ltb a b ≡ true → ltb b a ≡ false
tenths_asym a b h = ground arith

abbrev divided : ℤ → ℕ → ℤ
divided (pos n) speed = pos (n * 10 / speed)
divided (negsuc n) speed = pos 0

-- Speeds in tenths.
abbrev pub tenths : Doubles
tenths = record {
  Double = ℕ;
  lt = ltb;
  tenth = 1;
  one = 10;
  ten = 100;
  scale = divided;
  lt_asym = tenths_asym;
  tenth-lt-ten = refl;
}

abbrev pub player : PlaybackController ℕ
player = new_player tenths

abbrev pub disk : Disk
disk path = some (record_session noon two_frames 7_900_000_000 fresh).record_file.written

load_recording_ends_example :
    (l : Loaded ℕ) × (load_recording disk (codes "recordings/a.asr") player ≡ some l)
load_recording_ends_example = load_recording_ends disk (codes "recordings/a.asr") player

replay_recorded_example :
    (l : Loaded ℕ) × (load_recording disk (codes "recordings/a.asr") player ≡ some l)
    × (l.loaded ≡ true)
    × HasPlayed
        (codes "ab\n" ∷ codes "cd\n" ∷ [])
        true
        (continue divided 1 (start_playback divided l.player))
    × Finished
        (codes "ab\n" ∷ codes "cd\n" ∷ [])
        (continue divided 2 (start_playback divided l.player))
replay_recorded_example =
    replay_recorded divided fresh fresh-IsConsistent refl noon (omega arith) 7_900_000_000
      two_frames (omega arith) player refl refl disk (codes "recordings/a.asr") refl 1 refl
      (omega arith) (omega arith)

recorded_info_zero_example :
    (l : Loaded ℕ) × (load_recording disk (codes "recordings/a.asr") player ≡ some l)
    × (l.player.current_recording_info.timestamp ≡ noon.header_stamp)
    × (l.player.current_recording_info.duration ≡ pos 0)
    × (l.player.current_recording_info.frame_count ≡ pos 0)
recorded_info_zero_example =
    recorded_info_zero divided fresh fresh-IsConsistent refl noon (omega arith) 7_900_000_000
      two_frames (omega arith) player refl refl disk (codes "recordings/a.asr") refl

speed_in_range_example :
    (ltb (set_playback_speed tenths 700 player).playback_speed 1 ≡ false)
    × (ltb 100 (set_playback_speed tenths 700 player).playback_speed ≡ false)
    × (ltb 1 700 ≡ true
        → ltb 700 100 ≡ true
        → (set_playback_speed tenths 700 player).playback_speed ≡ 700)
speed_in_range_example = speed_in_range tenths 700 player

-- A player half-way through a file whose next frame has a broken time.
abbrev broken : PlaybackController ℕ
broken = record player {
  is_playing = true;
  has_callback = true;
  playback_file = good [] (codes "frame:x:3\nabc\n");
}

no_frame_after_stop_example :
    ((tick divided (stop_playback broken)).frames ≡ [])
    × ((tick divided (stop_playback broken)).player.is_playing ≡ false)
    × ((tick divided (stop_playback broken)).thrown ≡ none)
    × ((tick divided (pause_playback broken)).frames ≡ [])
    × ((tick divided (pause_playback broken)).player.is_playing ≡ broken.is_playing)
    × ((tick divided (pause_playback broken)).thrown ≡ none)
no_frame_after_stop_example = no_frame_after_stop divided broken

load_over_open_fails_example :
    (l : Loaded ℕ) × (load_recording disk
        (codes "recordings/a.asr")
        (record broken { is_playing = false })
      ≡ some l)
    × (l.loaded ≡ false)
    × (l.thrown ≡ none)
    × (l.player.playback_file.is_open ≡ false)
load_over_open_fails_example =
    load_over_open_fails disk (codes "recordings/a.asr") (record broken { is_playing = false }) refl
      refl

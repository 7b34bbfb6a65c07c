-- ===== src/Playback/RoundTrip.antt =====
-- src/record_controller.cpp and src/playback_controller.cpp together: playing what was recorded.
use streaming_server.Base.{
  ℕ, suc, ◌^◌, ◌<◌, ◌≤◌, take, ltb, ◌≡◌, refl, ◌∙◌, ap, true, false, List, [], ◌++◌, none, some,
  length, All,
}
use streaming_server.Base.Int.{ℤ, pos}
use streaming_server.Text.{Bytes}
use streaming_server.Text.Search.{Lacks}
use streaming_server.Files.{Disk}
use streaming_server.Recording.{RecordController, Moment, footer, seconds_since}
use streaming_server.Recording.Contents.{
  IsConsistent, entries, record_session, record_session_parts,
}
use streaming_server.Playback.State.{PlaybackController}
use streaming_server.Playback.Loading.{Loaded, load_recording}
use streaming_server.Playback.Steps.{start_playback, read_next_frame}
use streaming_server.Playback.Replay.{continue, Finished, IsAt, Fits, texts, play_to_end}
use streaming_server.Playback.Progress.{HasPlayed, play_some}
use streaming_server.Playback.LoadRecorded.{whole, loaded_player, load_recorded}

module _ {D : Type 0} (scale : ℤ → D → ℤ) (r : RecordController) (consistent : IsConsistent r)
    (not_recording : r.is_recording ≡ false) (now : Moment) (printable : Lacks 10 now.header_stamp)
    (end : ℕ) (frames : List (ℕ × Bytes)) (few : length frames < 2 ^ 64) (p : PlaybackController D)
    (not_playing : p.is_playing ≡ false) (shut : p.playback_file.is_open ≡ false) (disk : Disk)
    (path : Bytes)
    (on_disk : disk path ≡ some (record_session now frames end r).record_file.written) where
  body : Bytes
  body = entries now.steady frames ++ footer (seconds_since now.steady end) (length frames)

  on_disk-eq : disk path ≡ some (whole now printable body)
  unfolding whole body
  on_disk-eq =
      on_disk ∙ ap some (record_session_parts now frames end r consistent not_recording few).0

  player : PlaybackController D
  player = loaded_player now printable body p disk path not_playing shut on_disk-eq

  loads :
      load_recording disk path p ≡ some (record { player = player; loaded = true; thrown = none })
  unfolding player
  loads = load_recorded now printable body p disk path not_playing shut on_disk-eq

  -- The player when `start_playback` has set its state.
  begun : PlaybackController D
  unfolding player
  begun = record player {
    has_callback = true;
    is_playing = true;
    is_paused = false;
    current_frame = 0;
    next_frame_time = pos 0;
  }

  start-eq : start_playback scale player ≡ read_next_frame scale begun
  unfolding start_playback player begun
  start-eq = rw not_playing

  begun-IsAt : p.playback_timer.ready ≡ 0 → IsAt (whole now printable body) body begun
  unfolding begun player
  begun-IsAt settled = record {
    playing = refl;
    running = refl;
    listening = refl;
    settled = settled;
    file = refl;
  }

  plays :
      p.playback_timer.ready ≡ 0
      → All (Fits now.steady) frames
      → Finished (texts frames) (continue scale (length frames) (start_playback scale player))
  unfolding body
  plays settled fits = rw start-eq (
      play_to_end scale now.steady (seconds_since now.steady end) (length frames) _ frames [] begun
        (begun-IsAt settled) fits)

  plays_some :
      (k : ℕ)
      → p.playback_timer.ready ≡ 0
      → All (Fits now.steady) frames
      → k ≤ length frames
      → HasPlayed
          (take (suc k) (texts frames))
          (ltb k (length frames))
          (continue scale k (start_playback scale player))
  unfolding body
  plays_some k settled fits in_time = rw start-eq (
      play_some scale k now.steady (seconds_since now.steady end) (length frames) _ frames [] begun
        (begun-IsAt settled) fits in_time)

  -- A file that the recorder wrote loads into any idle player with a closed file. `start_playback`
  -- delivers its first frame, whole, and each expiry of the timer the next one: after `k` expiries,
  -- up to the number of frames, exactly the first `k + 1` frames have been delivered in order, those
  -- there are, and the player still plays exactly if `k` is less than their number. After as many
  -- expiries as frames it has stopped and closed the file. Nothing is thrown. The times and the
  -- lengths of the frames are in range, and the printed date has no line break.
  pub replay_recorded :
      (k : ℕ)
      → p.playback_timer.ready ≡ 0
      → All (Fits now.steady) frames
      → k ≤ length frames
      → (l : Loaded D) × (load_recording disk path p ≡ some l)
        × (l.loaded ≡ true)
        × HasPlayed
            (take (suc k) (texts frames))
            (ltb k (length frames))
            (continue scale k (start_playback scale l.player))
        × Finished (texts frames) (continue scale (length frames) (start_playback scale l.player))
  replay_recorded k settled fits in_time = (
    record { player = player; loaded = true; thrown = none },
    loads,
    refl,
    plays_some k settled fits in_time,
    plays settled fits,
  )

  -- The footer's duration and number of frames are not read back: the loaded information has the
  -- time stamp of the recording, and 0 for both.
  pub recorded_info_zero :
      (l : Loaded D) × (load_recording disk path p ≡ some l)
      × (l.player.current_recording_info.timestamp ≡ now.header_stamp)
      × (l.player.current_recording_info.duration ≡ pos 0)
      × (l.player.current_recording_info.frame_count ≡ pos 0)
  unfolding player
  recorded_info_zero =
      (record { player = player; loaded = true; thrown = none }, loads, refl, refl, refl)

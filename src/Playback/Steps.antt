-- ===== src/Playback/Steps.antt =====
-- src/playback_controller.cpp: `read_next_frame`, the methods that call it, and the timer's handler.
use streaming_server.Base.{
  ℕ, zero, suc, ◌+◌, ◌-◌, ◌%◌, ◌^◌, true, false, not, ◌&&◌, ◌||◌, [], ◌∷◌, Option, none, some, ltb,
  if◌then◌else◌,
}
use streaming_server.Base.Int.{ℤ, pos, ◌-ℤ◌}
use streaming_server.Outcome.{length_error, Try, ok, throw}
use streaming_server.Text.{Bytes, codes}
use streaming_server.Files.{getline, read, ignore_one}
use streaming_server.Playback.SteadyTimer.{schedule}
use streaming_server.Playback.State.{PlaybackController, Played, returns, raises, stop_playback}
use streaming_server.Playback.Header.{parse_frame_header}

-- The tail of `read_next_frame`: the callback, the delay and the next expiry.
abbrev pub deliver : {D : Type 0} → (ℤ → D → ℤ) → PlaybackController D → Bytes → ℤ → Played D
deliver scale p frame timestamp =
    let delay = if ltb 0 p.current_frame then timestamp -ℤ p.next_frame_time else pos 0 in
    returns
      (record p {
        next_frame_time = timestamp;
        current_frame = (p.current_frame + 1) % 2 ^ 64;
        playback_timer = schedule (scale delay p.playback_speed) p.playback_timer;
      })
      (if p.has_callback then frame ∷ [] else [])

-- The longest `std::string` of a 64-bit build.
abbrev pub max_string : ℕ
max_string = 2 ^ 63 - 2

-- `frame_length` stands for `length`.
abbrev pub read_frame : {D : Type 0} → (ℤ → D → ℤ) → PlaybackController D → ℤ → ℕ → Played D
read_frame scale p timestamp frame_length =
    if ltb max_string frame_length
    then raises p [] (length_error (codes "basic_string::_M_create"))
    else (let block = read frame_length p.playback_file in
        deliver scale (record p { playback_file = ignore_one block.file }) block.bytes timestamp)

module _ {D : Type 0} (scale : ℤ → D → ℤ) where
  abbrev pub play_parsed : PlaybackController D → Option (Try (ℤ × ℕ)) → Played D
  play_parsed p none = returns (stop_playback p) []
  play_parsed p (some (throw e)) = raises p [] e
  play_parsed p (some (ok (timestamp, frame_length))) = read_frame scale p timestamp frame_length

  abbrev pub play_line : PlaybackController D → Option Bytes → Played D
  play_line p none = returns (stop_playback p) []
  play_line p (some header) = play_parsed p (parse_frame_header header)

  unfoldable pub read_next_frame : PlaybackController D → Played D
  unfolding stop_playback read ignore_one schedule
  read_next_frame p =
      if not p.is_playing || (p.is_paused || p.playback_file.fail)
      then returns p []
      else (let line = getline p.playback_file in
          play_line (record p { playback_file = line.file }) line.text)

  -- The callback is set; `start_playback` is called with one always.
  unfoldable pub start_playback : PlaybackController D → Played D
  start_playback p =
      if not p.playback_file.is_open || p.is_playing
      then returns p []
      else read_next_frame (record p {
        has_callback = true;
        is_playing = true;
        is_paused = false;
        current_frame = 0;
        next_frame_time = pos 0;
      })

  unfoldable pub resume_playback : PlaybackController D → Played D
  resume_playback p =
      if p.is_playing && p.is_paused
      then read_next_frame (record p { is_paused = false })
      else returns p []

  abbrev pub run_handler : ℕ → PlaybackController D → Played D
  run_handler zero p = returns p []
  run_handler (suc ready) p =
      let p' = record p { playback_timer = record p.playback_timer { ready = ready } } in
      if p'.is_playing && not p'.is_paused then read_next_frame p' else returns p' []

  -- The event loop runs a handler that is queued.
  unfoldable pub on_timer : PlaybackController D → Played D
  on_timer p = run_handler p.playback_timer.ready p

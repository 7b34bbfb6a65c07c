-- ===== src/Playback/Loading.antt =====
-- src/playback_controller.cpp: `load_recording`.
use streaming_server.Base.{ℕ, suc, Bool, true, false, Option, none, some, length}
use streaming_server.Outcome.{Exception}
use streaming_server.Text.{Bytes, codes, bytes_eq}
use streaming_server.Files.{InFile, Disk, open_in, close_in, getline, seek_end, seek_begin, tell}
use streaming_server.Playback.State.{RecordingInfo, no_info, PlaybackController, stop_playback}
use streaming_server.Playback.Metadata.{Metadata, read_metadata, skip_to_frames}

abbrev pub is_header : Option Bytes → Bool
is_header none = false
is_header (some line) = bytes_eq line (codes "ASCII_STREAM_RECORD")

-- What `load_recording` returns, with the exception that left it, if any.
pub record Loaded (D : Type 0) : Type 0 where
  pub player : PlaybackController D
  pub loaded : Bool
  pub thrown : Option Exception

-- A loop over the lines takes one round more than there are bytes, at most.
abbrev pub line_fuel : InFile → ℕ
line_fuel f = suc (length f.rest)

module _ {D : Type 0} where
  abbrev pub finished :
      PlaybackController D → InFile → RecordingInfo → Option InFile → Option (Loaded D)
  finished p f info none = none
  finished p f info (some at_frames) = some (record {
    player = record p {
      playback_file = at_frames;
      current_recording_info = record info { file_size = tell (seek_end f) };
    };
    loaded = true;
    thrown = none;
  })

  -- Behind the metadata: the size of the file, and the way back to its frames.
  abbrev pub finish_load : PlaybackController D → InFile → RecordingInfo → Option (Loaded D)
  finish_load p f info =
      let start = seek_begin (seek_end f) in
      finished p f info (skip_to_frames (line_fuel start) start)

  abbrev pub load_metadata :
      PlaybackController D → InFile → RecordingInfo → Option Exception → Option (Loaded D)
  load_metadata p f info none = finish_load p f info
  load_metadata p f info (some e) = some (record {
    player = record p { playback_file = f; current_recording_info = info };
    loaded = false;
    thrown = some e;
  })

  abbrev pub with_metadata : PlaybackController D → Option Metadata → Option (Loaded D)
  with_metadata p none = none
  with_metadata p (some m) = load_metadata p m.file m.info m.thrown

  -- Behind the first line, which is the header or is not.
  abbrev pub load_headed : Bytes → PlaybackController D → InFile → Bool → Option (Loaded D)
  load_headed filename p f true =
      with_metadata p (read_metadata (line_fuel f) f (record no_info { filename = filename }))
  load_headed filename p f false =
      some
        (record { player = record p { playback_file = close_in f }; loaded = false; thrown = none })

  -- Behind `open`, which succeeded or did not.
  abbrev pub load_opened : Bytes → PlaybackController D → InFile → Bool → Option (Loaded D)
  load_opened filename p f false =
      some (record { player = record p { playback_file = f }; loaded = false; thrown = none })
  load_opened filename p f true =
      load_headed filename p (getline f).file (is_header (getline f).text)

  -- `none` means that the fuel ran out: see `LoadEnds`.
  unfoldable pub load_recording : Disk → Bytes → PlaybackController D → Option (Loaded D)
  load_recording disk filename p =
      let file = open_in disk filename (stop_playback p).playback_file in
      load_opened filename (stop_playback p) file file.is_open

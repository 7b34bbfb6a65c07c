-- ===== src/Playback/LoadRecorded.antt =====
-- `load_recording` of src/playback_controller.cpp on a file that src/record_controller.cpp wrote.
use streaming_server.Base.{
  ℕ, suc, ◌-◌, ◌≡◌, refl, sym, ◌∙◌, ap, ◌≢◌, true, false, ◌∷◌, ◌++◌, append_assoc, none, some,
  length, All-append, arith,
}
use streaming_server.Base.Int.{pos}
use streaming_server.Outcome.{ok}
use streaming_server.Text.{Bytes, codes, bytes_eq, bytes_eq_refl}
use streaming_server.Text.Search.{find_char, Lacks}
use streaming_server.Files.{InFile, Line, Disk, getline, open_in, seek_begin, seek_end, tell}
use streaming_server.Files.Lines.{good, getline-good}
use streaming_server.Recording.{Moment, header}
use streaming_server.Playback.State.{RecordingInfo, no_info, PlaybackController, stop_playback}
use streaming_server.Playback.Metadata.{metadata_line, read_metadata, skip_to_frames, frames_line}
use streaming_server.Playback.Loading.{
  load_recording, finished, finish_load, with_metadata, load_headed, load_opened, is_header,
}

-- Reading goes on behind a metadata line that is understood or ignored.
metadata_step :
    (fuel : ℕ) (whole line rest : Bytes) (info info' : RecordingInfo)
    → Lacks 10 line
    → bytes_eq line frames_line ≡ false
    → metadata_line line info ≡ ok info'
    → read_metadata (suc fuel) (good whole (line ++ 10 ∷ rest)) info
      ≡ read_metadata fuel (good whole rest) info'
unfolding read_metadata
metadata_step fuel whole line rest info info' lacks other set =
    rw (getline-good whole line rest lacks, other, set, read_metadata)
      (rw (getline-good whole line rest lacks))

metadata_end :
    (fuel : ℕ) (whole rest : Bytes) (info : RecordingInfo)
    → read_metadata (suc fuel) (good whole (frames_line ++ 10 ∷ rest)) info
      ≡ some (record { file = good whole rest; info = info; thrown = none })
unfolding read_metadata
metadata_end fuel whole rest info =
    rw (getline-good whole frames_line rest (omega arith), bytes_eq_refl frames_line, read_metadata)
      (rw (getline-good whole frames_line rest (omega arith)))

skip_step :
    (fuel : ℕ) (whole line rest : Bytes)
    → Lacks 10 line
    → bytes_eq line frames_line ≡ false
    → skip_to_frames (suc fuel) (good whole (line ++ 10 ∷ rest))
      ≡ skip_to_frames fuel (good whole rest)
unfolding skip_to_frames
skip_step fuel whole line rest lacks other =
    rw (getline-good whole line rest lacks, other, skip_to_frames)
      (rw (getline-good whole line rest lacks))

skip_end :
    (fuel : ℕ) (whole rest : Bytes)
    → skip_to_frames (suc fuel) (good whole (frames_line ++ 10 ∷ rest)) ≡ some (good whole rest)
unfolding skip_to_frames
skip_end fuel whole rest =
    rw
      (getline-good whole frames_line rest (omega arith), bytes_eq_refl frames_line, skip_to_frames)
      (rw (getline-good whole frames_line rest (omega arith)))

module _ (now : Moment) (printable : Lacks 10 now.header_stamp) (body : Bytes) where
  -- The file, and what of it follows the first line.
  unfoldable pub whole : Bytes
  whole = header now ++ body

  stamp_line : Bytes
  stamp_line = codes "timestamp:" ++ now.header_stamp

  from_stamp : Bytes
  from_stamp = codes "timestamp:" ++ (now.header_stamp ++ (codes "\nframes:\n" ++ body))

  from_version : Bytes
  unfolding from_stamp
  from_version = codes "version:1.0\n" ++ from_stamp

  whole-eq : whole ≡ codes "ASCII_STREAM_RECORD\n" ++ from_version
  unfolding whole header from_version
  whole-eq =
      ap (λ (t : Bytes). codes "ASCII_STREAM_RECORD\nversion:1.0\ntimestamp:" ++ t)
        (append_assoc now.header_stamp (codes "\nframes:\n") body)

  from_stamp-eq : from_stamp ≡ stamp_line ++ 10 ∷ (frames_line ++ 10 ∷ body)
  unfolding from_stamp stamp_line
  from_stamp-eq =
      sym (append_assoc (codes "timestamp:") now.header_stamp (10 ∷ (frames_line ++ 10 ∷ body)))

  stamp_line-Lacks : Lacks 10 stamp_line
  unfolding stamp_line
  stamp_line-Lacks =
      All-append (λ c. c ≢ 10) (codes "timestamp:") now.header_stamp (omega arith) printable

  stamp_not_frames : bytes_eq stamp_line frames_line ≡ false
  unfolding stamp_line bytes_eq
  stamp_not_frames = refl

  stamp_read :
      (info : RecordingInfo)
      → metadata_line stamp_line info ≡ ok (record info { timestamp = now.header_stamp })
  unfolding stamp_line metadata_line find_char bytes_eq
  stamp_read info = refl

  version_read : (info : RecordingInfo) → metadata_line (codes "version:1.0") info ≡ ok info
  unfolding metadata_line find_char bytes_eq
  version_read info = refl

  metadata-eq :
      (fuel : ℕ) (info : RecordingInfo)
      → read_metadata (suc (suc (suc fuel))) (good whole from_version) info
        ≡ some (record {
          file = good whole body;
          info = record info { timestamp = now.header_stamp };
          thrown = none;
        })
  unfolding from_version from_stamp
  metadata-eq fuel info =
      metadata_step (suc (suc fuel)) whole (codes "version:1.0") from_stamp info info (omega arith)
        (unfold bytes_eq in refl) (version_read info)
      ∙ ap (λ (t : Bytes). read_metadata (suc (suc fuel)) (good whole t) info) from_stamp-eq
      ∙ metadata_step (suc fuel) whole stamp_line (frames_line ++ 10 ∷ body) info _ stamp_line-Lacks
          stamp_not_frames (stamp_read info)
      ∙ metadata_end fuel whole body _

  skip-eq :
      (fuel : ℕ)
      → skip_to_frames (suc (suc (suc (suc fuel)))) (good whole whole) ≡ some (good whole body)
  unfolding from_version from_stamp
  skip-eq fuel =
      ap (λ (t : Bytes). skip_to_frames (suc (suc (suc (suc fuel)))) (good whole t)) whole-eq
      ∙ skip_step (suc (suc (suc fuel))) whole (codes "ASCII_STREAM_RECORD") from_version
          (omega arith) (unfold bytes_eq in refl)
      ∙ skip_step (suc (suc fuel)) whole (codes "version:1.0") from_stamp (omega arith)
          (unfold bytes_eq in refl)
      ∙ ap (λ (t : Bytes). skip_to_frames (suc (suc fuel)) (good whole t)) from_stamp-eq
      ∙ skip_step (suc fuel) whole stamp_line (frames_line ++ 10 ∷ body) stamp_line-Lacks
          stamp_not_frames
      ∙ skip_end fuel whole body

  -- What the file says of the recording: its time stamp, and nothing else.
  abbrev pub loaded_info : Bytes → RecordingInfo
  loaded_info path = record {
    filename = path;
    timestamp = now.header_stamp;
    duration = pos 0;
    frame_count = pos 0;
    file_size = length whole;
  }

  module _ {D : Type 0} (p : PlaybackController D) (disk : Disk) (path : Bytes)
      (idle : p.is_playing ≡ false) (shut : p.playback_file.is_open ≡ false)
      (there : disk path ≡ some whole) where
    abbrev pub loaded_player : PlaybackController D
    loaded_player = record p {
      playback_file = good whole body;
      current_recording_info = loaded_info path;
    }

    opened : open_in disk path (stop_playback p).playback_file ≡ good whole whole
    unfolding open_in stop_playback
    opened = rw (idle, shut, there)

    stopped : stop_playback p ≡ p
    unfolding stop_playback
    stopped = rw idle

    first_line :
        getline (good whole whole)
        ≡ record { text = some (codes "ASCII_STREAM_RECORD"); file = good whole from_version }
    first_line =
        ap (λ (t : Bytes). getline (good whole t)) whole-eq
        ∙ getline-good whole (codes "ASCII_STREAM_RECORD") from_version (omega arith)

    finished-eq :
        finish_load p
          (good whole body)
          (record no_info { filename = path; timestamp = now.header_stamp })
        ≡ some (record { player = loaded_player; loaded = true; thrown = none })
    unfolding seek_begin seek_end tell header whole
    finished-eq =
        let e : length whole - 0 ≡ length whole = omega arith in
        let info = record no_info { filename = path; timestamp = now.header_stamp } in
        ap (finished p (good whole body) info) (skip-eq _)
        ∙ ap
            (λ (n : ℕ). some (record {
              player = record p {
                playback_file = good whole body;
                current_recording_info = record info { file_size = n };
              };
              loaded = true;
              thrown = none;
            }))
            e

    headed-eq :
        load_headed path p (good whole from_version) true
        ≡ some (record { player = loaded_player; loaded = true; thrown = none })
    unfolding from_version
    headed-eq =
        ap (with_metadata p) (metadata-eq _ (record no_info { filename = path })) ∙ finished-eq

    pub load_recorded :
        load_recording disk path p
        ≡ some (record { player = loaded_player; loaded = true; thrown = none })
    unfolding load_recording
    load_recorded =
        ap (λ (f : InFile). load_opened path (stop_playback p) f f.is_open) opened
        ∙ ap (λ (q : PlaybackController D). load_opened path q (good whole whole) true) stopped
        ∙ ap (λ (l : Line). load_headed path p l.file (is_header l.text)) first_line
        ∙ (unfold bytes_eq in headed-eq)

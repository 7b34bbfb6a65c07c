-- ===== src/Recording/Examples.antt =====
-- Recordings on concrete input.
use streaming_server.Base.{ℕ, ◌≡◌, refl, false, List, [], ◌∷◌, arith}
use streaming_server.Text.{Bytes, codes}
use streaming_server.Text.Decimal.{to_string}
use streaming_server.Recording.{
  Moment, fresh, header, footer, entry, start_recording, stop_recording, write_frame,
}
use streaming_server.Recording.Contents.{
  IsConsistent, fresh-IsConsistent, record_session, write_frames,
}
use streaming_server.Recording.Layout.{session_text, record_session_file}

abbrev pub noon : Moment
noon = record {
  file_stamp = codes "20250101_120000";
  header_stamp = codes "2025-01-01 12:00:00";
  steady = 5_000_000_000;
}

abbrev pub two_frames : List (ℕ × Bytes)
two_frames = (5_100_000_000, codes "ab\n") ∷ (5_250_999_999, codes "cd\n") ∷ []

written_file :
    (record_session noon two_frames 7_900_000_000 fresh).record_file.written
    ≡ codes
        "ASCII_STREAM_RECORD\nversion:1.0\ntimestamp:2025-01-01 12:00:00\nframes:\nframe:100:3\nab\n\nframe:250:3\ncd\n\nend_time:2\nframe_count:2\n"
unfolding record_session write_frames start_recording stop_recording write_frame header footer entry
    to_string
written_file = refl

record_session_file_example :
    ((record_session noon two_frames 7_900_000_000 fresh).record_file.written
      ≡ session_text noon two_frames 7_900_000_000)
    × ((record_session noon two_frames 7_900_000_000 fresh).is_recording ≡ false)
    × IsConsistent (record_session noon two_frames 7_900_000_000 fresh)
record_session_file_example =
    record_session_file noon two_frames 7_900_000_000 fresh fresh-IsConsistent refl (omega arith)

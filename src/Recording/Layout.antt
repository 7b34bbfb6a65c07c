-- ===== src/Recording/Layout.antt =====
-- The text of a recording file of src/record_controller.cpp, written out.
use streaming_server.Base.{
  ℕ, ◌-◌, ◌/◌, ◌^◌, ◌<◌, ◌≡◌, refl, ◌∙◌, false, List, [], ◌∷◌, ◌++◌, append_assoc, length,
}
use streaming_server.Text.{Bytes, codes}
use streaming_server.Text.Decimal.{to_string}
use streaming_server.Recording.{RecordController, Moment, header, footer, entry, seconds_since}
use streaming_server.Recording.Contents.{
  IsConsistent, entries, record_session, record_session_parts,
}

-- Each frame behind a line with its milliseconds since the start and its length.
abbrev pub frame_lines : ℕ → List (ℕ × Bytes) → Bytes
frame_lines start [] = []
frame_lines start ((now, frame) ∷ rest) =
    codes "frame:"
    ++ (to_string ((now - start) / 1_000_000)
        ++ (codes ":"
            ++ (to_string (length frame)
                ++ (codes "\n" ++ (frame ++ (codes "\n" ++ frame_lines start rest))))))

abbrev pub session_text : Moment → List (ℕ × Bytes) → ℕ → Bytes
session_text now frames end =
    codes "ASCII_STREAM_RECORD\nversion:1.0\ntimestamp:"
    ++ (now.header_stamp
        ++ (codes "\nframes:\n"
            ++ (frame_lines now.steady frames
                ++ (codes "end_time:"
                    ++ (to_string ((end - now.steady) / 1_000_000_000)
                        ++ (codes "\nframe_count:"
                            ++ (to_string (length frames) ++ codes "\n")))))))

entry-append :
    (at : ℕ) (frame rest : Bytes)
    → entry at frame ++ rest
      ≡ codes "frame:"
        ++ (to_string at
            ++ (codes ":"
                ++ (to_string (length frame) ++ (codes "\n" ++ (frame ++ (codes "\n" ++ rest))))))
unfolding entry
entry-append at frame rest = simp append_assoc

entries-frame_lines :
    (start : ℕ) (frames : List (ℕ × Bytes)) → entries start frames ≡ frame_lines start frames
entries-frame_lines start [] = refl
entries-frame_lines start ((now, frame) ∷ rest) =
    entry-append ((now - start) / 1_000_000) frame (entries start rest)
    ∙ rw (entries-frame_lines start rest) refl

header-append :
    (now : Moment) (rest : Bytes)
    → header now ++ rest
      ≡ codes "ASCII_STREAM_RECORD\nversion:1.0\ntimestamp:"
        ++ (now.header_stamp ++ (codes "\nframes:\n" ++ rest))
unfolding header
header-append now rest = simp append_assoc

-- From any consistent controller that does not record, a session writes one file: the line
-- "ASCII_STREAM_RECORD", the version 1.0 and the time stamp; for each frame, in order, a line with
-- its milliseconds since the start and its length, and the frame; then the whole seconds until the
-- end and the number of frames. The controller is consistent and idle again. The frames are fewer
-- than 2^64.
pub record_session_file :
    (now : Moment) (frames : List (ℕ × Bytes)) (end : ℕ) (r : RecordController)
    → IsConsistent r
    → r.is_recording ≡ false
    → length frames < 2 ^ 64
    → ((record_session now frames end r).record_file.written ≡ session_text now frames end)
      × ((record_session now frames end r).is_recording ≡ false)
      × IsConsistent (record_session now frames end r)
record_session_file now frames end r v idle few =
    let (parts, stopped, consistent) = record_session_parts now frames end r v idle few in
    let ending = footer (seconds_since now.steady end) (length frames) in
    (
      parts
          ∙ header-append now (entries now.steady frames ++ ending)
          ∙ rw (entries-frame_lines now.steady frames) (unfold footer in refl),
      stopped,
      consistent,
    )

-- ===== src/Playback/Footer.antt =====
-- Reading the end of a recording file of src/record_controller.cpp, which ends the playback.
use streaming_server.Base.{
  ℕ, ◌+◌, ◌≡◌, inl, inr, ◌∙◌, ap, ◌≢◌, true, false, [], ◌∷◌, ◌++◌, append_assoc, Option, none, some,
  All-append, arith,
}
use mathlib.Core.Option
use streaming_server.Base.Int.{ℤ}
use streaming_server.Text.{Bytes, codes}
use streaming_server.Text.Search.{find_char, find_char_from, find_char_absent, Lacks}
use streaming_server.Text.Decimal.{to_string}
use streaming_server.Text.Decimal.RoundTrip.{to_string-Lacks}
use streaming_server.Files.{Line, getline}
use streaming_server.Files.Lines.{good, getline-good}
use streaming_server.Recording.{footer}
use streaming_server.Playback.State.{PlaybackController, returns, stop_playback}
use streaming_server.Playback.Header.{parse_frame_header, at_second}
use streaming_server.Playback.Steps.{read_next_frame, play_line, play_parsed}
use streaming_server.Playback.Frames.{read_next_frame_ready, can_read}

footer_line : ℕ → Bytes
footer_line seconds = codes "end_time:" ++ to_string seconds

footer_line-Lacks : (seconds : ℕ) → Lacks 10 (footer_line seconds)
unfolding footer_line
footer_line-Lacks seconds =
    All-append (λ c. c ≢ 10) (codes "end_time:") _ (omega arith)
      (to_string-Lacks 10 seconds (inl (omega arith)))

footer_line_of :
    (seconds count : ℕ) (whole : Bytes)
    → getline (good whole (footer seconds count)) ≡ record {
      text = some (footer_line seconds);
      file = good whole (codes "frame_count:" ++ (to_string count ++ codes "\n"));
    }
unfolding footer footer_line
footer_line_of seconds count whole =
    let rest = codes "frame_count:" ++ (to_string count ++ codes "\n") in
    rw (← append_assoc (codes "end_time:") (to_string seconds) (10 ∷ rest)) (
      getline-good whole (codes "end_time:" ++ to_string seconds) rest
        (unfold footer_line in footer_line-Lacks seconds))

footer_line_colons : (seconds : ℕ) → parse_frame_header (footer_line seconds) ≡ none
unfolding parse_frame_header footer_line find_char find_char_from
footer_line_colons seconds =
    ap (λ (o : Option ℕ). at_second (footer_line seconds) 8 (Option.map (λ i. 9 + i) o))
      (find_char_absent b':' (to_string seconds) (to_string-Lacks b':' seconds (inr (omega arith))))

module _ {D : Type 0} (scale : ℤ → D → ℤ) where
  -- The footer has one colon in its first line, which ends the playback.
  module _ (p : PlaybackController D) (whole : Bytes) (seconds count : ℕ)
      (playing : p.is_playing ≡ true) (running : p.is_paused ≡ false)
      (file : p.playback_file ≡ good whole (footer seconds count)) where
    pub read_next_frame_footer :
        (rest : Bytes) × (read_next_frame scale p
          ≡ returns (stop_playback (record p { playback_file = good whole rest })) [])
    read_next_frame_footer = (
      rest,
      read_next_frame_ready scale p (can_read p whole _ playing running file)
          ∙ ap (λ (l : Line). play_line scale (record p { playback_file = l.file }) l.text) line
          ∙ ap (play_parsed scale (record p { playback_file = good whole rest })) one_colon,
    )
      where
        rest : Bytes
        rest = codes "frame_count:" ++ (to_string count ++ codes "\n")

        line :
            getline p.playback_file
            ≡ record { text = some (footer_line seconds); file = good whole rest }
        line = rw file (footer_line_of seconds count whole)

        one_colon : parse_frame_header (footer_line seconds) ≡ none
        one_colon = footer_line_colons seconds

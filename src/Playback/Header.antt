-- ===== src/Playback/Header.antt =====
-- src/playback_controller.cpp: the header line of a frame.
use streaming_server.Base.{ℕ, ◌+◌, ◌-◌, Option, none, some}
use streaming_server.Base.Int.{ℤ}
use streaming_server.Outcome.{Try, ok, ◌>>=◌}
use streaming_server.Text.{Bytes, substr, npos}
use streaming_server.Text.Search.{find_char, find_char_from}
use streaming_server.Text.Decimal.{stoll, stoul}

-- The two numbers, from the places of the two colons.
abbrev pub header_numbers : Bytes → ℕ → ℕ → Try (ℤ × ℕ)
header_numbers header colon1 colon2 = do
  stamp ← substr header (colon1 + 1) (colon2 - colon1 - 1)
  timestamp ← stoll stamp
  size ← substr header (colon2 + 1) npos
  frame_length ← stoul size
  ok (timestamp, frame_length)

abbrev pub at_second : Bytes → ℕ → Option ℕ → Option (Try (ℤ × ℕ))
at_second header colon1 none = none
at_second header colon1 (some colon2) = some (header_numbers header colon1 colon2)

abbrev pub at_first : Bytes → Option ℕ → Option (Try (ℤ × ℕ))
at_first header none = none
at_first header (some colon1) = at_second header colon1 (find_char_from b':' (colon1 + 1) header)

-- "frame:timestamp:length"; `none` where a colon is missing.
unfoldable pub parse_frame_header : Bytes → Option (Try (ℤ × ℕ))
unfolding find_char find_char_from substr
parse_frame_header header = at_first header (find_char b':' header)

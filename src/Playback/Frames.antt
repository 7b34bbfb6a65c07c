-- ===== src/Playback/Frames.antt =====
-- Reading a frame that `write_frame` of src/record_controller.cpp wrote.
use streaming_server.Base.{
  ℕ, suc, ◌+◌, ◌-◌, ◌%◌, ◌^◌, ◌≤◌, ◌<◌, ◌≡◌, inl, inr, ◌∙◌, ap, ◌≢◌, append-nil, not, ◌||◌, true,
  false, [], ◌∷◌, ◌++◌, append_assoc, some, length, length-append, All-append, drop, arith, ltb,
  if◌then◌else◌, take-length-append, take_all,
}
use streaming_server.Base.Int.{ℤ, pos, ◌-ℤ◌}
use streaming_server.Outcome.{ok}
use streaming_server.Text.{Bytes, codes, substr, npos}
use streaming_server.Text.Search.{find_char_from, find_char_at, Lacks}
use streaming_server.Text.Decimal.{to_string, stoll, stoul}
use streaming_server.Text.Decimal.RoundTrip.{
  stoll-to_string, stoul-to_string, to_string-Lacks, length-to_string-le,
}
use streaming_server.Files.{InFile, Line, getline}
use streaming_server.Files.Lines.{good, getline-good, read-good, ignore_one-good}
use streaming_server.Recording.{entry}
use streaming_server.Playback.State.{PlaybackController, returns}
use streaming_server.Playback.SteadyTimer.{schedule}
use streaming_server.Playback.Header.{header_numbers, at_second, parse_frame_header}
use streaming_server.Playback.Steps.{
  read_next_frame, play_line, play_parsed, read_frame, max_string,
}

-- The header line of an entry.
abbrev entry_header : ℕ → ℕ → Bytes
entry_header at size = codes "frame:" ++ (to_string at ++ (b':' ∷ to_string size))

entry_header-Lacks : (at size : ℕ) → Lacks 10 (entry_header at size)
entry_header-Lacks at size =
    All-append (λ c. c ≢ 10) (codes "frame:") _ (omega arith)
      (All-append (λ c. c ≢ 10) (to_string at) _ (to_string-Lacks 10 at (inl (omega arith)))
        ((omega arith), to_string-Lacks 10 size (inl (omega arith))))

entry-eq :
    (at : ℕ) (frame rest : Bytes)
    → entry at frame ++ rest ≡ entry_header at (length frame) ++ 10 ∷ (frame ++ 10 ∷ rest)
unfolding entry
entry-eq at frame rest = simp append_assoc

drop-add : (k : ℕ) (xs ys : Bytes) → drop (length xs + k) (xs ++ ys) ≡ drop k ys
drop-add k [] ys = let e : 0 + k ≡ k = omega arith in rw e
drop-add k (x ∷ xs) ys =
    let e : suc (length xs) + k ≡ suc (length xs + k) = omega arith in rw e (drop-add k xs ys)

module _ (at size : ℕ) where
  stamp_of_header : substr (entry_header at size) 6 (length (to_string at)) ≡ ok (to_string at)
  unfolding substr
  stamp_of_header =
      let e : ltb (length (entry_header at size)) 6 ≡ false = ground arith in
      rw (e, take-length-append (to_string at) (b':' ∷ to_string size))

  size_of_header :
      size < 2 ^ 63
      → substr (entry_header at size) (6 + length (to_string at) + 1) npos ≡ ok (to_string size)
  unfolding substr
  size_of_header h =
      let text = to_string at in
      let n : 6 + length text + 1 ≡ suc (suc (suc (suc (suc (suc (length text + 1)))))) =
        omega arith in
      let e : ltb (length (entry_header at size)) (6 + length text + 1) ≡ false =
        ground (arith, length-append text (b':' ∷ to_string size)) in
      rw (
        e,
        n,
        drop-add 1 text (b':' ∷ to_string size),
        take_all npos (to_string size) (omega (arith, length-to_string-le size)),
      )

  second_colon : find_char_from b':' 6 (entry_header at size) ≡ some (6 + length (to_string at))
  unfolding find_char_from
  second_colon = rw (
      find_char_at b':' (to_string at) (to_string size)
        (to_string-Lacks b':' at (inr (omega arith))))

  numbers_of_header :
      at < 2 ^ 63
      → size < 2 ^ 63
      → header_numbers (entry_header at size) 5 (6 + length (to_string at)) ≡ ok (pos at, size)
  numbers_of_header ha hs =
      let e : 6 + length (to_string at) - 5 - 1 ≡ length (to_string at) = omega arith in
      let stamp : stoll (to_string at) ≡ ok (pos at) =
        rw append-nil at (stoll-to_string at [] tt ha) in
      let read : stoul (to_string size) ≡ ok size =
        rw append-nil at (stoul-to_string size [] tt (omega arith)) in
      rw (e, stamp_of_header, stamp, size_of_header hs, read)

  parse_entry_header :
      at < 2 ^ 63
      → size < 2 ^ 63
      → parse_frame_header (entry_header at size) ≡ some (ok (pos at, size))
  unfolding parse_frame_header
  parse_entry_header ha hs =
      ap (at_second (entry_header at size) 5) second_colon ∙ ap some (numbers_of_header ha hs)

pub read_next_frame_ready :
    {D : Type 0} (scale : ℤ → D → ℤ) (p : PlaybackController D)
    → (not p.is_playing || (p.is_paused || p.playback_file.fail)) ≡ false
    → read_next_frame scale p
      ≡ play_line scale
          (record p { playback_file = (getline p.playback_file).file })
          (getline p.playback_file).text
unfolding read_next_frame
read_next_frame_ready scale p ready = rw ready

-- The guard of `read_next_frame` lets a playing, unpaused player with a sound file through.
pub can_read :
    {D : Type 0} (p : PlaybackController D) (whole rest : Bytes)
    → p.is_playing ≡ true
    → p.is_paused ≡ false
    → p.playback_file ≡ good whole rest
    → (not p.is_playing || (p.is_paused || p.playback_file.fail)) ≡ false
can_read p whole rest playing running file =
    let sound : p.playback_file.fail ≡ false = ap (λ (f : InFile). f.fail) file in
    cc (playing, running, sound)

module _ {D : Type 0} (scale : ℤ → D → ℤ) where
  -- The player after a frame at `at`, with `rest` left of a file `whole`.
  abbrev pub after_frame : PlaybackController D → ℕ → Bytes → Bytes → PlaybackController D
  after_frame p at whole rest = record p {
    playback_file = good whole rest;
    next_frame_time = pos at;
    current_frame = (p.current_frame + 1) % 2 ^ 64;
    playback_timer =
        schedule
          (scale (if ltb 0 p.current_frame then pos at -ℤ p.next_frame_time else pos 0)
            p.playback_speed)
          p.playback_timer;
  }

  module _ (p : PlaybackController D) (whole rest : Bytes) (at : ℕ) (frame : Bytes)
      (playing : p.is_playing ≡ true) (running : p.is_paused ≡ false)
      (listening : p.has_callback ≡ true)
      (file : p.playback_file ≡ good whole (entry at frame ++ rest)) (in_time : at < 2 ^ 63)
      (fits : length frame ≤ max_string) where
    line_of_entry : getline p.playback_file ≡ record {
      text = some (entry_header at (length frame));
      file = good whole (frame ++ 10 ∷ rest);
    }
    line_of_entry =
        rw (file, entry-eq at frame rest)
          (getline-good whole (entry_header at (length frame)) (frame ++ 10 ∷ rest)
            (entry_header-Lacks at (length frame)))

    read_frame-eq :
        read_frame scale
          (record p { playback_file = good whole (frame ++ 10 ∷ rest) })
          (pos at)
          (length frame)
        ≡ returns (after_frame p at whole rest) (frame ∷ [])
    read_frame-eq =
        let e : ltb max_string (length frame) ≡ false = ground arith in
        rw (e, read-good whole frame (10 ∷ rest), ignore_one-good whole rest 10, listening)

    -- One entry of a recording file, read by a playing and unpaused player.
    pub read_next_frame_entry :
        read_next_frame scale p ≡ returns (after_frame p at whole rest) (frame ∷ [])
    read_next_frame_entry =
        read_next_frame_ready scale p (can_read p whole _ playing running file)
        ∙ ap (λ (l : Line). play_line scale (record p { playback_file = l.file }) l.text)
            line_of_entry
        ∙ ap (play_parsed scale (record p { playback_file = good whole (frame ++ 10 ∷ rest) }))
            (parse_entry_header at (length frame) in_time (omega arith))
        ∙ read_frame-eq

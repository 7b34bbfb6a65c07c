-- ===== src/Playback/Replay.antt =====
-- Playing a recording file of src/record_controller.cpp from its first frame to its end.
use streaming_server.Base.{
  ℕ, zero, suc, ◌^◌, ◌≤◌, ◌<◌, ◌≡◌, refl, sym, subst, ltb, ◌∙◌, ap, Bool, true, false, not, List,
  [], ◌∷◌, ◌++◌, append_assoc, Option, none, some, length, All, arith, ◌&&◌, if◌then◌else◌,
}
use streaming_server.Base.Int.{ℤ, pos, ◌-ℤ◌}
use streaming_server.Outcome.{Exception}
use streaming_server.Text.{Bytes}
use streaming_server.Files.{close_in}
use streaming_server.Files.Lines.{good}
use streaming_server.Recording.{entry, footer, milliseconds_since}
use streaming_server.Recording.Contents.{entries}
use streaming_server.Playback.State.{PlaybackController, Played, returns, stop_playback}
use streaming_server.Playback.SteadyTimer.{SteadyTimer, idle, schedule, expire}
use streaming_server.Playback.Steps.{read_next_frame, on_timer, max_string}
use streaming_server.Playback.Footer.{read_next_frame_footer}
use streaming_server.Playback.Frames.{after_frame, read_next_frame_entry}

module _ {D : Type 0} (scale : ℤ → D → ℤ) where
  -- The pending wait of the timer expires and its handler runs.
  unfoldable pub tick : PlaybackController D → Played D
  unfolding expire on_timer
  tick p = on_timer scale (record p { playback_timer = expire p.playback_timer })

  abbrev pub prepend : List Bytes → Played D → Played D
  prepend out r = record r { frames = out ++ r.frames }

  abbrev continued :
      (List Bytes → PlaybackController D → Played D) → Played D → Option Exception → Played D
  continued go r none = go r.frames r.player
  continued go r (some e) = r

  -- `rounds` expiries of the timer after a call, unless an exception ends the program.
  unfoldable pub continue : ℕ → Played D → Played D
  unfolding tick
  continue zero r = r
  continue (suc rounds) r = continued (λ out p. continue rounds (prepend out (tick p))) r r.thrown

  tick_ready :
      (p : PlaybackController D) (delay : ℤ)
      → p.playback_timer ≡ record { waiting = some delay; ready = 0 }
      → p.is_playing ≡ true
      → p.is_paused ≡ false
      → tick p ≡ read_next_frame scale (record p { playback_timer = idle })
  unfolding tick
  tick_ready p delay t playing running =
      let p' = record p { playback_timer = idle } in
      let runs : (p.is_playing && not p.is_paused) ≡ true = cc (playing, running) in
      ap (λ (x : SteadyTimer). on_timer scale (record p { playback_timer = expire x })) t
      ∙ ap (λ (b : Bool). if b then read_next_frame scale p' else returns p' []) runs

-- What a frame must satisfy to be read back: its time in milliseconds fits a `long long`, and its
-- length a string.
abbrev pub Fits : ℕ → ℕ × Bytes → Type 0
Fits start (now, frame) = (milliseconds_since start now < 2 ^ 63) × (length frame ≤ max_string)

abbrev pub texts : List (ℕ × Bytes) → List Bytes
texts [] = []
texts ((now, frame) ∷ rest) = frame ∷ texts rest

-- The playback has delivered `frames`, and the player has stopped and closed its file.
pub record Finished {D : Type 0} (frames : List Bytes) (r : Played D) : Type 0 where
  pub delivered : r.frames ≡ frames
  pub no_throw : r.thrown ≡ none
  pub stopped : r.player.is_playing ≡ false
  pub closed : r.player.playback_file.is_open ≡ false

-- A player that is about to read the entries of `frames`, `whole` being the file.
pub record IsAt {D : Type 0} (whole rest : Bytes) (p : PlaybackController D) : Type 0 where
  pub playing : p.is_playing ≡ true
  pub running : p.is_paused ≡ false
  pub listening : p.has_callback ≡ true
  pub settled : p.playback_timer.ready ≡ 0
  pub file : p.playback_file ≡ good whole rest

module _ {D : Type 0} (scale : ℤ → D → ℤ) where
  stop-Finished :
      (out : List Bytes) (p : PlaybackController D)
      → p.is_playing ≡ true
      → Finished (out ++ []) (prepend scale out (returns (stop_playback p) []))
  unfolding stop_playback close_in
  stop-Finished out p playing = record {
    delivered = refl;
    no_throw = refl;
    stopped = ground arith;
    closed = ground arith;
  }

  step_on :
      (rounds : ℕ) (out : List Bytes) (p : PlaybackController D)
      → continue scale (suc rounds) (returns p out)
        ≡ continue scale rounds (prepend scale out (tick scale p))
  unfolding continue
  step_on rounds out p = refl

  delay_after : PlaybackController D → ℕ → ℤ
  delay_after p at =
      scale (if ltb 0 p.current_frame then pos at -ℤ p.next_frame_time else pos 0) p.playback_speed

  timer_after :
      (p : PlaybackController D) (at : ℕ) (whole rest : Bytes)
      → p.playback_timer.ready ≡ 0
      → (after_frame scale p at whole rest).playback_timer
        ≡ record { waiting = some (delay_after p at); ready = 0 }
  unfolding schedule delay_after
  timer_after p at whole rest settled =
      ap (λ (n : ℕ). record { waiting = some (delay_after p at); ready = n }) settled

  -- The player that has read an entry, when its timer has expired.
  abbrev pub behind : PlaybackController D → ℕ → Bytes → Bytes → PlaybackController D
  behind p at whole rest = record (after_frame scale p at whole rest) { playback_timer = idle }

  module _ (start seconds count : ℕ) (whole : Bytes) (now : ℕ) (frame : Bytes)
      (frames : List (ℕ × Bytes)) (out : List Bytes) (p : PlaybackController D)
      (v : IsAt whole (entries start ((now, frame) ∷ frames) ++ footer seconds count) p)
      (fits : Fits start (now, frame)) where
    abbrev pub rest_of_file : Bytes
    rest_of_file = entries start frames ++ footer seconds count

    abbrev pub next_player : PlaybackController D
    next_player = behind p (milliseconds_since start now) whole rest_of_file

    pub entry_read :
        read_next_frame scale p
        ≡ returns
            (after_frame scale p (milliseconds_since start now) whole rest_of_file)
            (frame ∷ [])
    entry_read =
        read_next_frame_entry scale p whole rest_of_file (milliseconds_since start now) frame
          v.playing v.running v.listening
          (v.file
            ∙ ap (good whole) (
                append_assoc (entry (milliseconds_since start now) frame) (entries start frames) _))
          fits.0 fits.1

    pub next_player-IsAt : IsAt whole rest_of_file next_player
    next_player-IsAt = record {
      playing = v.playing;
      running = v.running;
      listening = v.listening;
      settled = refl;
      file = refl;
    }

    -- One expiry of the timer reads the next entry.
    pub one_round :
        (rounds : ℕ)
        → continue scale (suc rounds) (prepend scale out (read_next_frame scale p))
          ≡ continue scale rounds
              (prepend scale (out ++ frame ∷ []) (read_next_frame scale next_player))
    one_round rounds =
        let at = milliseconds_since start now in
        let p1 = after_frame scale p at whole rest_of_file in
        ap (λ (r : Played D). continue scale (suc rounds) (prepend scale out r)) entry_read
        ∙ step_on rounds (out ++ frame ∷ []) p1
        ∙ ap (λ (r : Played D). continue scale rounds (prepend scale (out ++ frame ∷ []) r))
            (tick_ready scale p1 _ (timer_after p at whole rest_of_file v.settled) v.playing
              v.running)

  -- A playing player delivers the frames in front of it, one each time its timer expires, and
  -- stops at the footer.
  pub play_to_end :
      (start seconds count : ℕ) (whole : Bytes) (frames : List (ℕ × Bytes)) (out : List Bytes)
      (p : PlaybackController D)
      → IsAt whole (entries start frames ++ footer seconds count) p
      → All (Fits start) frames
      → Finished
          (out ++ texts frames)
          (continue scale (length frames) (prepend scale out (read_next_frame scale p)))
  play_to_end start seconds count whole [] out p v h =
      let (rest, e) =
        read_next_frame_footer scale p whole seconds count v.playing v.running v.file in
      rw e (
        unfold continue in
        stop-Finished out (record p { playback_file = good whole rest }) v.playing)
  play_to_end start seconds count whole ((now, frame) ∷ frames) out p v h =
      let next = one_round start seconds count whole now frame frames out p v h.0 (length frames) in
      let p2 = next_player start seconds count whole now frame frames out p v h.0 in
      let v2 = next_player-IsAt start seconds count whole now frame frames out p v h.0 in
      subst (λ r. Finished (out ++ frame ∷ texts frames) r) (sym next)
        (subst
          (λ o. Finished o (
            continue scale (length frames)
              (prepend scale (out ++ frame ∷ []) (read_next_frame scale p2))))
          (append_assoc out (frame ∷ []) (texts frames))
          (play_to_end start seconds count whole frames (out ++ frame ∷ []) p2 v2 h.1))

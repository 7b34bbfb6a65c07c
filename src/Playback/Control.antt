-- ===== src/Playback/Control.antt =====
-- The control methods of src/playback_controller.cpp.
use streaming_server.Base.{
  ℕ, zero, suc, ◌≡◌, refl, inl, inr, true, false, not, ◌&&◌, [], Option, none, some, arith,
  Bool-cases, ◌∙◌, ap,
}
use streaming_server.Base.Int.{ℤ}
use streaming_server.Text.{Bytes}
use streaming_server.Files.{Disk, InFile, getline, open_in, close_in}
use streaming_server.Playback.State.{
  Doubles, PlaybackController, stop_playback, pause_playback, set_playback_speed,
}
use streaming_server.Playback.SteadyTimer.{expire}
use streaming_server.Playback.Loading.{Loaded, load_recording, load_opened, load_headed, is_header}
use streaming_server.Playback.Steps.{run_handler}
use streaming_server.Playback.Replay.{tick}

module _ (d : Doubles) where
  open d use {Double, lt, tenth, ten, lt_asym}

  irreflexive : (a : Double) → lt a a ≡ false
  irreflexive a = elim (Bool-cases (lt a a)) [ inl e ↦ lt_asym a a e | inr e ↦ e ]

  -- After `set_playback_speed` the speed is neither below 0.1 nor above 10, whatever was asked for,
  -- and a speed strictly between the two is taken as it is.
  pub speed_in_range :
      (speed : Double) (p : PlaybackController Double)
      → (lt (set_playback_speed d speed p).playback_speed tenth ≡ false)
        × (lt ten (set_playback_speed d speed p).playback_speed ≡ false)
        × (lt tenth speed ≡ true
            → lt speed ten ≡ true
            → (set_playback_speed d speed p).playback_speed ≡ speed)
  unfolding set_playback_speed
  speed_in_range speed p = ground (
    arith,
    irreflexive tenth,
    irreflexive ten,
    lt_asym tenth speed,
    lt_asym speed ten,
    lt_asym tenth ten,
    d.tenth-lt-ten,
  )

module _ {D : Type 0} (scale : ℤ → D → ℤ) where
  handler_silent :
      (ready : ℕ) (p : PlaybackController D)
      → (p.is_playing && not p.is_paused) ≡ false
      → ((run_handler scale ready p).frames ≡ [])
        × ((run_handler scale ready p).player.is_playing ≡ p.is_playing)
        × ((run_handler scale ready p).thrown ≡ none)
  handler_silent zero p h = (refl, refl, refl)
  handler_silent (suc ready) p h = rw h (refl, refl, refl)

  tick_silent :
      (p : PlaybackController D)
      → (p.is_playing && not p.is_paused) ≡ false
      → ((tick scale p).frames ≡ [])
        × ((tick scale p).player.is_playing ≡ p.is_playing)
        × ((tick scale p).thrown ≡ none)
  unfolding tick
  tick_silent p h =
      let t = expire p.playback_timer in handler_silent t.ready (record p { playback_timer = t }) h

  stop_silences : (p : PlaybackController D) → (stop_playback p).is_playing ≡ false
  unfolding stop_playback
  stop_silences p = ground arith

  pause_silences :
      (p : PlaybackController D)
      → ((pause_playback p).is_playing && not (pause_playback p).is_paused) ≡ false
  unfolding pause_playback
  pause_silences p = ground arith

  pause_keeps_playing : (p : PlaybackController D) → (pause_playback p).is_playing ≡ p.is_playing
  unfolding pause_playback
  pause_keeps_playing p = ground arith

  -- A handler that is queued when the player stops or pauses delivers nothing: the next expiry
  -- passes no frame to the callback and throws nothing, and the player stays stopped, or plays on
  -- as before.
  pub no_frame_after_stop :
      (p : PlaybackController D)
      → ((tick scale (stop_playback p)).frames ≡ [])
        × ((tick scale (stop_playback p)).player.is_playing ≡ false)
        × ((tick scale (stop_playback p)).thrown ≡ none)
        × ((tick scale (pause_playback p)).frames ≡ [])
        × ((tick scale (pause_playback p)).player.is_playing ≡ p.is_playing)
        × ((tick scale (pause_playback p)).thrown ≡ none)
  no_frame_after_stop p =
      let s = tick_silent (stop_playback p) (rw (stop_silences p)) in
      let q = tick_silent (pause_playback p) (pause_silences p) in
      (s.0, s.1 ∙ stop_silences p, s.2, q.0, q.1 ∙ pause_keeps_playing p, q.2)

failed_open :
    (disk : Disk) (path : Bytes) (f : InFile)
    → f.is_open ≡ true
    → open_in disk path f ≡ record f { fail = true }
unfolding open_in
failed_open disk path f h = rw h

failed_line : (f : InFile) → f.fail ≡ true → (getline f).text ≡ none
unfolding getline
failed_line f h = ground arith

closed_after_line : (f : InFile) → (close_in (getline f).file).is_open ≡ false
unfolding close_in
closed_after_line f = refl

module _ {D : Type 0} where
  still : (p : PlaybackController D) → p.is_playing ≡ false → stop_playback p ≡ p
  unfolding stop_playback
  still p h = rw h

  -- While a file is still open in a player that does not play, no recording loads, whatever is on
  -- the disk: the old file is closed instead, and the next load finds it so.
  pub load_over_open_fails :
      (disk : Disk) (path : Bytes) (p : PlaybackController D)
      → p.is_playing ≡ false
      → p.playback_file.is_open ≡ true
      → (l : Loaded D) × (load_recording disk path p ≡ some l)
        × (l.loaded ≡ false)
        × (l.thrown ≡ none)
        × (l.player.playback_file.is_open ≡ false)
  unfolding load_recording
  load_over_open_fails disk path p idle ready =
      let f = record p.playback_file { fail = true } in
      (
        record {
          player = record p { playback_file = close_in (getline f).file };
          loaded = false;
          thrown = none;
        },
        ap
              (λ (q : PlaybackController D).
                let g = open_in disk path q.playback_file in load_opened path q g g.is_open)
              (still p idle)
            ∙ ap (λ (g : InFile). load_opened path p g g.is_open)
                (failed_open disk path p.playback_file ready)
            ∙ ap (load_opened path p f) ready
            ∙ ap (λ (o : Option Bytes). load_headed path p (getline f).file (is_header o))
                (failed_line f refl),
        refl,
        refl,
        closed_after_line f,
      )

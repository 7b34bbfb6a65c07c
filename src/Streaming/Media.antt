-- ===== src/Streaming/Media.antt =====
-- src/stream_controller.cpp: recording and playback, passed on to their controllers.
use streaming_server.Base.{
  ℕ, Bool, true, false, List, [], ◌++◌, map, Option, none, some, if◌then◌else◌,
}
use streaming_server.Base.Int.{ℤ}
use streaming_server.Outcome.{Exception}
use streaming_server.Text.{Bytes, codes}
use streaming_server.Files.{Disk}
use streaming_server.Recording
use streaming_server.Recording.{Moment}
use streaming_server.Playback.State.{Doubles, PlaybackController, Played}
use streaming_server.Playback.State as PlayerState
use streaming_server.Playback.Loading.{Loaded, load_recording}
use streaming_server.Playback.Steps as PlayerSteps
use streaming_server.Streaming.State.{StreamController}

-- What a playback call leaves: the controller, the frames sent to sessions, and the exception that
-- left the call, if any.
pub record Outcome (D : Type 0) : Type 0 where
  pub controller : StreamController D
  pub sends : List (ℕ × Bytes)
  pub thrown : Option Exception

-- The callback sends each frame to the playback session, if there is one.
abbrev pub to_session : Option ℕ → List Bytes → List (ℕ × Bytes)
to_session none frames = []
to_session (some session) frames = map (λ frame. (session, frame)) frames

module _ {D : Type 0} where
  unfoldable pub start_recording : Moment → Bool → StreamController D → StreamController D
  start_recording now can_open c =
      if Recording.is_recording c.record_controller then c else record c {
        record_controller = (Recording.start_recording now can_open c.record_controller).1;
      }

  unfoldable pub stop_recording : ℕ → StreamController D → StreamController D
  stop_recording now c =
      if Recording.is_recording c.record_controller
      then record c { record_controller = Recording.stop_recording now c.record_controller }
      else c

  unfoldable pub stop_playback : StreamController D → StreamController D
  stop_playback c = record c {
    playback_controller = PlayerState.stop_playback c.playback_controller;
    playback_session = none;
  }

  unfoldable pub pause_playback : StreamController D → StreamController D
  pause_playback c = record c {
    playback_controller = PlayerState.pause_playback c.playback_controller;
  }

  abbrev pub played : StreamController D → Played D → Outcome D
  played c r = record {
    controller = record c { playback_controller = r.player };
    sends = to_session c.playback_session r.frames;
    thrown = r.thrown;
  }

  module _ (scale : ℤ → D → ℤ) where
    unfoldable pub resume_playback : StreamController D → Outcome D
    resume_playback c = played c (PlayerSteps.resume_playback scale c.playback_controller)

    -- The timer of the player expires and its handler runs.
    unfoldable pub playback_tick : StreamController D → Outcome D
    playback_tick c = played c (PlayerSteps.on_timer scale c.playback_controller)

    abbrev pub start_loaded : ℕ → StreamController D → Bool → Outcome D
    start_loaded session c true =
        played (record c { playback_session = some session })
          (PlayerSteps.start_playback scale c.playback_controller)
    start_loaded session c false = record { controller = c; sends = []; thrown = none }

    abbrev pub with_loaded :
        ℕ → StreamController D → PlaybackController D → Bool → Option Exception → Outcome D
    with_loaded session c player loaded (some e) = record {
      controller = record c { playback_controller = player };
      sends = [];
      thrown = some e;
    }
    with_loaded session c player loaded none =
        start_loaded session (record c { playback_controller = player }) loaded

    -- `none` is the end of the fuel: see `LoadEnds`.
    abbrev pub after_load : ℕ → StreamController D → Option (Loaded D) → Outcome D
    after_load session c none = record { controller = c; sends = []; thrown = none }
    after_load session c (some l) = with_loaded session c l.player l.loaded l.thrown

    unfoldable pub start_playback : Disk → Bytes → ℕ → StreamController D → Outcome D
    unfolding stop_playback
    start_playback disk filename session c =
        let stopped = stop_playback c in
        after_load session stopped
          (load_recording disk (codes "recordings/" ++ filename) stopped.playback_controller)

module _ (d : Doubles) where
  unfoldable pub set_playback_speed :
      d.Double → StreamController d.Double → StreamController d.Double
  set_playback_speed speed c = record c {
    playback_controller = PlayerState.set_playback_speed d speed c.playback_controller;
  }

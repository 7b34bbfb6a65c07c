-- ===== src/Streaming/State.antt =====
-- include/stream_controller.hpp: the state of the stream.
use streaming_server.Base.{ℕ, Bool, false, List, [], Option, none}
use streaming_server.Base.Int.{ℤ, pos}
use streaming_server.Ascii.{AsciiConverter, default_chars}
use streaming_server.Video.{VideoSource, new_source}
use streaming_server.Recording.{RecordController, fresh}
use streaming_server.Playback.State.{Doubles, PlaybackController, new_player}

-- A viewer is the identifier of its session: the `weak_ptr` itself holds nothing alive. `loops`
-- counts the capture loops that are spawned and have not ended.
pub record StreamController (D : Type 0) : Type 0 where
  pub video_source : VideoSource
  pub ascii_converter : AsciiConverter
  pub viewers : List ℕ
  pub frame_width : ℤ
  pub frame_height : ℤ
  pub fps : ℤ
  pub is_streaming : Bool
  pub stop_requested : Bool
  pub record_controller : RecordController
  pub playback_controller : PlaybackController D
  pub playback_session : Option ℕ
  pub loops : ℕ

abbrev pub new_controller : (d : Doubles) → StreamController d.Double
new_controller d = record {
  video_source = new_source;
  ascii_converter = record { ascii_chars = default_chars };
  viewers = [];
  frame_width = pos 120;
  frame_height = pos 90;
  fps = pos 10;
  is_streaming = false;
  stop_requested = false;
  record_controller = fresh;
  playback_controller = new_player d;
  playback_session = none;
  loops = 0;
}

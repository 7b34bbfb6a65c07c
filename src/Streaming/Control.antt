-- ===== src/Streaming/Control.antt =====
-- src/stream_controller.cpp: starting and stopping the stream.
use streaming_server.Base.{◌+◌, ◌*◌, ◌-◌, ◌%◌, ◌^◌, Bool, true, false, not, [], if◌then◌else◌}
use streaming_server.Base.Int.{ℤ, pos, negsuc}
use streaming_server.Outcome.{Try, ok, throw, Action}
use streaming_server.Outcome.Actions.{lift, modify, ◌>>=◌, ◌>>◌}
use streaming_server.Text.{Bytes, codes, substr, index}
use streaming_server.Text.Search.{find_char}
use streaming_server.Text.Decimal.{stoi}
use streaming_server.Ascii.{default_chars, set_ascii_chars}
use streaming_server.Video.{open_camera, set_resolution, close}
use streaming_server.Streaming.State.{StreamController}

-- `2 * n`; an `int` that overflows here is not modelled.
abbrev pub double_ℤ : ℤ → ℤ
double_ℤ (pos n) = pos (n * 2)
double_ℤ (negsuc n) = negsuc (n * 2 + 1)

-- The parts of `resolution` before and behind its first `x`. Without one, `find` gives `npos`, and
-- `npos + 1` is 0.
abbrev pub width_text : Bytes → Try Bytes
width_text resolution = substr resolution 0 (index (find_char b'x' resolution))

abbrev pub height_text : Bytes → Try Bytes
height_text resolution =
    substr resolution ((index (find_char b'x' resolution) + 1) % 2 ^ 64) (2 ^ 64 - 1)

abbrev pub number_in : Try Bytes → Try ℤ
number_in (ok text) = stoi text
number_in (throw e) = throw e

module _ {D : Type 0} where
  abbrev open_video : (ℤ → Bool) → ℤ → Action (StreamController D) (Unit {0})
  open_video can_open camera c =
      let (result, video) = open_camera can_open camera c.video_source in
      (result, record c { video_source = video })

  -- The `try` block, with the conversions of the two texts. `co_spawn` counts one more capture loop.
  abbrev pub start_body :
      (ℤ → Bool) → ℤ → Try ℤ → Try ℤ → ℤ → Action (StreamController D) (Unit {0})
  start_body can_open camera width height fps = do
    w ← lift width
    modify (λ c. record c { frame_width = w })
    h ← lift height
    modify (λ c. record c { frame_height = h; fps = fps })
    open_video can_open camera
    modify (λ c. record c {
      video_source = set_resolution (double_ℤ w) (double_ℤ h) c.video_source;
      ascii_converter = set_ascii_chars default_chars c.ascii_converter;
      is_streaming = true;
      stop_requested = false;
      loops = c.loops + 1;
    })

  -- The `catch` block, which throws on.
  abbrev pub caught : Try (Unit {0}) → StreamController D → Try (Unit {0}) × StreamController D
  caught (ok u) c = (ok u, c)
  caught (throw e) c = (throw e, record c { is_streaming = false })

  unfoldable pub start_streaming :
      (ℤ → Bool) → ℤ → Bytes → ℤ → Action (StreamController D) (Unit {0})
  start_streaming can_open camera resolution fps c =
      if c.is_streaming
      then (ok tt, c)
      else (let width = number_in (width_text resolution) in
          let height = number_in (height_text resolution) in
          let (result, c') = start_body can_open camera width height fps c in caught result c')

  unfoldable pub cleanup : StreamController D → StreamController D
  cleanup c = record c { video_source = close c.video_source; viewers = []; is_streaming = false }

  -- `stop_streaming` up to its first wait; `true` means that it waits.
  unfoldable pub stop_request : StreamController D → Bool × StreamController D
  stop_request c =
      if not c.is_streaming then (false, c) else (true, record c { stop_requested = true })

  -- `stop_streaming` after each wait of 10 ms; `true` means that it waits again.
  unfoldable pub stop_poll : StreamController D → Bool × StreamController D
  unfolding cleanup
  stop_poll c = if c.is_streaming then (true, c) else (false, cleanup c)

  unfoldable pub get_status : StreamController D → Bytes
  get_status c = if c.is_streaming then codes "active" else codes "inactive"

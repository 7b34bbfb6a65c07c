-- ===== src/Session/Commands.antt =====
-- src/websocket_session.cpp, `handle_message`: what a message asks for, and what the handler works
-- on. JSON is a parameter.
use streaming_server.Base.{ℕ, Bool, ◌&&◌, List, if◌then◌else◌}
use streaming_server.Base.Int.{ℤ}
use streaming_server.Outcome.{Try}
use streaming_server.Text.{Bytes, codes, bytes_eq}
use streaming_server.Files.{Disk}
use streaming_server.Recording.{Moment}
use streaming_server.Session.State.{WebSocketSession}
use streaming_server.Streaming.State.{StreamController}

-- `nlohmann::json`: parsing, `std::string s = j[key]`, and `j.value(key, default)` for the types
-- that the program reads.
pub record Json (D : Type 0) : Type 1 where
  pub Value : Type 0
  pub parse : Bytes → Try Value
  pub text : Value → Bytes → Try Bytes
  pub text_or : Value → Bytes → Bytes → Try Bytes
  pub int_or : Value → Bytes → ℤ → Try ℤ
  pub double_or : Value → Bytes → D → Try D

-- What the surroundings answer while a message is handled: `authorized` is the end of the direct
-- `async_write`, the clocks stand still.
pub record Surroundings : Type 0 where
  pub api_key : Bytes
  pub can_open : ℤ → Bool
  pub disk : Disk
  pub now : Moment
  pub recorder_opens : Bool
  pub authorized : Try (Unit {0})

-- The calls that a message leads to, in order: `send_frame` of a session, `async_write` past the
-- queue, and `add_viewer` of a session, which only posts a task.
pub data Effect : Type 0 where
  sends : ℕ → Bytes → Effect
  writes : Bytes → Effect
  adds_viewer : ℕ → Effect

-- The session that handles, the controller, the effects so far, and whether the handler waits in
-- `stop_streaming`.
pub record Handling (D : Type 0) : Type 0 where
  pub session : WebSocketSession
  pub controller : StreamController D
  pub effects : List Effect
  pub waits_for_stop : Bool

pub data Command : Type 0 where
  auth : Command
  config : Command
  stop : Command
  playback_start : Command
  playback_pause : Command
  playback_resume : Command
  playback_stop : Command
  playback_speed : Command
  record_start : Command
  record_stop : Command
  unknown : Command

-- The conditions of the chain of `if` in order.
unfoldable pub command_of : Bytes → Bool → Command
command_of type is_controller =
    if bytes_eq type (codes "auth")
    then auth
    else if bytes_eq type (codes "config") && is_controller
    then config
    else if bytes_eq type (codes "stop") && is_controller
    then stop
    else if bytes_eq type (codes "playback_start")
    then playback_start
    else if bytes_eq type (codes "playback_pause")
    then playback_pause
    else if bytes_eq type (codes "playback_resume")
    then playback_resume
    else if bytes_eq type (codes "playback_stop")
    then playback_stop
    else if bytes_eq type (codes "playback_speed")
    then playback_speed
    else if bytes_eq type (codes "record_start") && is_controller
    then record_start
    else if bytes_eq type (codes "record_stop") && is_controller
    then record_stop
    else unknown

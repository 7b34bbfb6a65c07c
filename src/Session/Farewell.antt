-- ===== src/Session/Farewell.antt =====
-- src/websocket_session.cpp, the destructor: what the end of a session does to the stream.
use streaming_server.Base.{ℕ, Bool, if◌then◌else◌}
use streaming_server.Session.State.{WebSocketSession}
use streaming_server.Streaming.State.{StreamController}
use streaming_server.Streaming.Viewers.{remove_viewer_by_id}
use streaming_server.Streaming.Control.{stop_request}

module _ {D : Type 0} where
  -- The coroutine that the destructor spawns, up to its first wait.
  unfoldable pub destroy : (ℕ → Bool) → WebSocketSession → StreamController D → StreamController D
  destroy alive s c =
      if s.is_controller
      then (stop_request c).1
      else if s.is_authenticated
      then remove_viewer_by_id alive s.session_id c
      else c

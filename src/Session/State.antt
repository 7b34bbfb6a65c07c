-- ===== src/Session/State.antt =====
-- include/websocket_session.hpp: the state of a session, and its identifier.
use streaming_server.Base.{ℕ, ◌+◌, ◌%◌, ◌^◌, Bool, true, false, List, [], if◌then◌else◌}
use streaming_server.Text.{Bytes}

-- Where the coroutine `do_write` stands: none runs, it is spawned and has not started, or it waits
-- for the end of an `async_write` of a frame.
pub data Writer : Type 0 where
  absent : Writer
  spawned : Writer
  writing : Bytes → Writer

-- `is_open` is what `ws_.is_open()` answers and `close_requested` whether `async_close` was called.
pub record WebSocketSession : Type 0 where
  pub session_id : ℕ
  pub is_open : Bool
  pub close_requested : Bool
  pub write_queue : List Bytes
  pub is_writing : Bool
  pub writer : Writer
  pub is_authenticated : Bool
  pub is_controller : Bool

abbrev pub max_queue_size : ℕ
max_queue_size = 10

-- The counter that is shared by all sessions: the identifier, and the counter after it.
unfoldable pub generate_session_id : ℕ → ℕ × ℕ
generate_session_id next_id = (next_id, (next_id + 1) % 2 ^ 64)

-- The constructor, for a stream that is about to be accepted.
unfoldable pub new_session : ℕ → WebSocketSession × ℕ
unfolding generate_session_id
new_session next_id =
    let (id, next) = generate_session_id next_id in
    (
      record {
        session_id = id;
        is_open = false;
        close_requested = false;
        write_queue = [];
        is_writing = false;
        writer = absent;
        is_authenticated = false;
        is_controller = false;
      },
      next,
    )

-- `close`
unfoldable pub close : WebSocketSession → WebSocketSession
close s = if s.is_open then record s { close_requested = true } else s

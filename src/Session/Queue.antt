-- ===== src/Session/Queue.antt =====
-- src/websocket_session.cpp, `send_frame` and `do_write`: the queue of outgoing frames and the one
-- coroutine that writes them. The session's executor runs one piece of this at a time: a posted
-- frame, or the writer up to its next wait.
use streaming_server.Base.{true, false, not, List, [], ◌∷◌, ◌++◌, leb, if◌then◌else◌, length}
use streaming_server.Text.{Bytes}
use streaming_server.Session.State.{
  WebSocketSession, Writer, absent, spawned, writing, max_queue_size, close,
}

abbrev pub pop_front : List Bytes → List Bytes
pop_front [] = []
pop_front (frame ∷ rest) = rest

-- The task that `send_frame` posts.
unfoldable pub enqueue : Bytes → WebSocketSession → WebSocketSession
enqueue frame s =
    if not s.is_open
    then s
    else (let kept =
          if leb max_queue_size (length s.write_queue)
          then pop_front s.write_queue
          else s.write_queue in
        if s.is_writing
        then record s { write_queue = kept ++ frame ∷ [] }
        else record s { write_queue = kept ++ frame ∷ []; is_writing = true; writer = spawned })

abbrev pub next_write : List Bytes → WebSocketSession → WebSocketSession
next_write [] s = record s { is_writing = false; writer = absent }
next_write (frame ∷ rest) s =
    if s.is_open
    then record s { write_queue = rest; writer = writing frame }
    else record s { is_writing = false; writer = absent }

-- The head of the writer's loop: the next frame goes to `async_write`, or the writer ends.
unfoldable pub write_loop : WebSocketSession → WebSocketSession
write_loop s = next_write s.write_queue s

-- Why a write failed: a code of a closed connection, another code, or another exception.
pub data WriteError : Type 0 where
  connection_closed : WriteError
  other_code : WriteError
  other_exception : WriteError

-- The handlers behind the loop. `close` itself tests whether the stream is open.
unfoldable pub write_failed : WriteError → WebSocketSession → WebSocketSession
unfolding close
write_failed connection_closed s = record s { is_writing = false; writer = absent }
write_failed other_code s = record (close s) { is_writing = false; writer = absent }
write_failed other_exception s = record (if s.is_open then close s else s) {
  is_writing = false;
  writer = absent;
}

-- What the executor runs next: a posted frame, the spawned writer, the end of a write, or the news
-- that the connection is closed.
pub data Event : Type 0 where
  posted : Bytes → Event
  writer_starts : Event
  write_ends : Event
  write_fails : WriteError → Event
  stream_closes : Event

abbrev pub on_start : Writer → WebSocketSession → WebSocketSession
on_start spawned s = write_loop s
on_start _ s = s

abbrev pub on_written : Writer → WebSocketSession → WebSocketSession
on_written (writing frame) s = write_loop s
on_written _ s = s

abbrev pub on_failed : Writer → WriteError → WebSocketSession → WebSocketSession
on_failed (writing frame) e s = write_failed e s
on_failed _ e s = s

-- An event that cannot happen in a state changes nothing.
unfoldable pub step : WebSocketSession → Event → WebSocketSession
unfolding enqueue write_loop write_failed
step s (posted frame) = enqueue frame s
step s writer_starts = on_start s.writer s
step s write_ends = on_written s.writer s
step s (write_fails e) = on_failed s.writer e s
step s stream_closes = record s { is_open = false }

unfoldable pub run : WebSocketSession → List Event → WebSocketSession
unfolding step
run s [] = s
run s (e ∷ es) = run (step s e) es

-- ===== src/Session/Bounded.antt =====
-- The length of the queue of src/websocket_session.cpp, and its writer.
use streaming_server.Base.{
  ◌≤◌, ◌≡◌, refl, ap, ◌∙◌, Bool, true, false, List, [], ◌∷◌, ◌++◌, length, length-append, arith,
}
use streaming_server.Text.{Bytes}
use streaming_server.Session.State.{
  WebSocketSession, Writer, absent, spawned, writing, max_queue_size,
}
use streaming_server.Session.Queue.{
  enqueue, write_loop, write_failed, WriteError, connection_closed, Event, posted, writer_starts,
  write_ends, write_fails, stream_closes, step, run, pop_front, on_start, on_written, on_failed,
}

abbrev pub is_present : Writer → Bool
is_present absent = false
is_present _ = true

-- The queue keeps its limit, and the flag `is_writing_` says whether a writer runs.
pub record IsSound (s : WebSocketSession) : Type 0 where
  pub bounded : length s.write_queue ≤ max_queue_size
  pub flagged : s.is_writing ≡ is_present s.writer

length-pop_front : (q : List Bytes) → length (pop_front q) ≤ length q
length-pop_front [] = omega arith
length-pop_front (x ∷ q) = omega arith

length-kept :
    (q : List Bytes) (frame : Bytes)
    → length q ≤ max_queue_size
    → length (pop_front q ++ frame ∷ []) ≤ max_queue_size
length-kept [] frame h = omega arith
length-kept (x ∷ q) frame h = omega (arith, length-append q (frame ∷ []))

pub enqueue-IsSound : (frame : Bytes) (s : WebSocketSession) → IsSound s → IsSound (enqueue frame s)
unfolding enqueue
enqueue-IsSound frame s v = ground (
  arith,
  length-kept s.write_queue frame,
  length-append s.write_queue (frame ∷ []),
  v.bounded,
  v.flagged,
)

write_loop-IsSound :
    (q : List Bytes) (s : WebSocketSession)
    → s.write_queue ≡ q
    → s.is_writing ≡ true
    → is_present s.writer ≡ true
    → IsSound s
    → IsSound (write_loop s)
unfolding write_loop
write_loop-IsSound q s e w p v = ground arith

write_failed-IsSound :
    (e : WriteError) (s : WebSocketSession) → IsSound s → IsSound (write_failed e s)
unfolding write_failed
write_failed-IsSound connection_closed s v = ground arith
write_failed-IsSound _ s v = ground arith

on_start-IsSound :
    (w : Writer) (s : WebSocketSession) → s.writer ≡ w → IsSound s → IsSound (on_start w s)
on_start-IsSound spawned s e v =
    write_loop-IsSound s.write_queue s refl (v.flagged ∙ ap is_present e) (ap is_present e) v
on_start-IsSound absent s e v = v
on_start-IsSound (writing frame) s e v = v

on_written-IsSound :
    (w : Writer) (s : WebSocketSession) → s.writer ≡ w → IsSound s → IsSound (on_written w s)
on_written-IsSound (writing frame) s e v =
    write_loop-IsSound s.write_queue s refl (v.flagged ∙ ap is_present e) (ap is_present e) v
on_written-IsSound absent s e v = v
on_written-IsSound spawned s e v = v

on_failed-IsSound :
    (w : Writer) (err : WriteError) (s : WebSocketSession) → IsSound s → IsSound (on_failed w err s)
on_failed-IsSound (writing frame) err s v = write_failed-IsSound err s v
on_failed-IsSound absent err s v = v
on_failed-IsSound spawned err s v = v

pub step-IsSound : (s : WebSocketSession) (e : Event) → IsSound s → IsSound (step s e)
unfolding step
step-IsSound s (posted frame) v = enqueue-IsSound frame s v
step-IsSound s writer_starts v = on_start-IsSound s.writer s refl v
step-IsSound s write_ends v = on_written-IsSound s.writer s refl v
step-IsSound s (write_fails err) v = on_failed-IsSound s.writer err s v
step-IsSound s stream_closes v = record { bounded = v.bounded; flagged = v.flagged }

-- In any order of events, failed writes included, the queue never holds more than ten frames, and
-- `is_writing_` says exactly whether a writer runs, so a second one is never spawned beside it.
pub run-IsSound : (s : WebSocketSession) (es : List Event) → IsSound s → IsSound (run s es)
unfolding run
run-IsSound s [] v = v
run-IsSound s (e ∷ es) v = run-IsSound (step s e) es (step-IsSound s e v)

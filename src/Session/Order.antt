-- ===== src/Session/Order.antt =====
-- What src/websocket_session.cpp hands to the socket, against what was sent.
use mathlib.Core.List.{Sublist, sublist-append_left}
use mathlib.Core.List.Sublist
use streaming_server.Base.{
  ◌≡◌, refl, sym, subst, Bool, true, false, List, [], ◌∷◌, ◌++◌, append_assoc, append-nil, length,
  inl, inr, arith, leb, Bool-cases, if◌then◌else◌,
}
use streaming_server.Text.{Bytes}
use streaming_server.Session.State.{
  WebSocketSession, Writer, absent, spawned, writing, max_queue_size,
}
use streaming_server.Session.Latest.{enqueue-eq}
use streaming_server.Session.Queue.{
  enqueue, write_loop, write_failed, WriteError, Event, posted, connection_closed, writer_starts,
  write_ends, write_fails, stream_closes, step, run, pop_front, on_start, on_written, on_failed,
  next_write,
}

-- The frame that a writer has passed to `async_write`.
abbrev pub passed : Writer → List Bytes
passed (writing frame) = frame ∷ []
passed _ = []

-- What an event has passed to `async_write`, by the writer before it and the writer after it: the
-- writer passes a frame when it starts and when a write is over.
abbrev pub newly : Writer → Event → Writer → List Bytes
newly (writing frame) write_ends after = passed after
newly (writing frame) (write_fails e) after = passed after
newly (writing frame) _ after = []
newly absent _ after = passed after
newly spawned _ after = passed after

-- The frames that a run passes to `async_write`, in order.
unfoldable pub handed : WebSocketSession → List Event → List Bytes
unfolding step
handed s [] = []
handed s (e ∷ es) = newly s.writer e (step s e).writer ++ handed (step s e) es

abbrev sent_by : Event → List Bytes
sent_by (posted frame) = frame ∷ []
sent_by _ = []

-- The frames that were sent to the session, in order.
unfoldable pub sent : List Event → List Bytes
sent [] = []
sent (e ∷ es) = sent_by e ++ sent es

pop_front-sublist : (q : List Bytes) → Sublist (pop_front q) q
pop_front-sublist [] = Sublist.refl []
pop_front-sublist (x ∷ q) = Sublist.cons x (Sublist.refl q)

kept-sublist : (full : Bool) (q : List Bytes) → Sublist (if full then pop_front q else q) q
kept-sublist true q = pop_front-sublist q
kept-sublist false q = Sublist.refl q

enqueue_shut : (frame : Bytes) (s : WebSocketSession) → s.is_open ≡ false → enqueue frame s ≡ s
unfolding enqueue
enqueue_shut frame s shut = rw shut

enqueue-sublist :
    (frame : Bytes) (s : WebSocketSession)
    → Sublist (enqueue frame s).write_queue (s.write_queue ++ frame ∷ [])
enqueue-sublist frame s = elim (Bool-cases s.is_open) [
  | inl ready ↦ rw (enqueue-eq frame s ready) (
      Sublist.append (kept-sublist (leb max_queue_size (length s.write_queue)) s.write_queue)
        (Sublist.refl (frame ∷ [])))
  | inr shut ↦
      subst (λ (t : WebSocketSession). Sublist t.write_queue (s.write_queue ++ frame ∷ []))
        (sym (enqueue_shut frame s shut)) (sublist-append_left s.write_queue (frame ∷ []))
]

-- The head of the loop takes the frame in front and writes it, or leaves the queue.
loop_splits :
    (q : List Bytes) (s : WebSocketSession)
    → s.write_queue ≡ q
    → passed (next_write q s).writer ++ (next_write q s).write_queue ≡ s.write_queue
loop_splits [] s e = refl
loop_splits (x ∷ q) s e = ground arith

failed_keeps_queue :
    (e : WriteError) (s : WebSocketSession)
    → passed (write_failed e s).writer ++ (write_failed e s).write_queue ≡ s.write_queue
unfolding write_failed
failed_keeps_queue connection_closed s = ground arith
failed_keeps_queue _ s = ground arith

start_splits :
    (w : Writer) (s : WebSocketSession)
    → s.writer ≡ w
    → newly w writer_starts (on_start w s).writer ++ (on_start w s).write_queue ≡ s.write_queue
unfolding write_loop
start_splits absent s e = rw e refl
start_splits spawned s e = loop_splits s.write_queue s refl
start_splits (writing frame) s e = refl

written_splits :
    (w : Writer) (s : WebSocketSession)
    → s.writer ≡ w
    → newly w write_ends (on_written w s).writer ++ (on_written w s).write_queue ≡ s.write_queue
unfolding write_loop
written_splits absent s e = rw e refl
written_splits spawned s e = rw e refl
written_splits (writing frame) s e = loop_splits s.write_queue s refl

failed_splits :
    (w : Writer) (e : WriteError) (s : WebSocketSession)
    → s.writer ≡ w
    → newly w (write_fails e) (on_failed w e s).writer ++ (on_failed w e s).write_queue
      ≡ s.write_queue
failed_splits absent e s at = rw at refl
failed_splits spawned e s at = rw at refl
failed_splits (writing frame) e s at = failed_keeps_queue e s

enqueue_passes_none :
    (w : Writer) (frame : Bytes) (s : WebSocketSession)
    → s.writer ≡ w
    → newly w (posted frame) (enqueue frame s).writer ≡ []
unfolding enqueue
enqueue_passes_none absent frame s e = ground arith
enqueue_passes_none spawned frame s e = ground arith
enqueue_passes_none (writing f) frame s e = refl

closing_passes_none :
    (w : Writer) (s : WebSocketSession) → s.writer ≡ w → newly w stream_closes s.writer ≡ []
closing_passes_none absent s e = rw e refl
closing_passes_none spawned s e = rw e refl
closing_passes_none (writing f) s e = refl

-- One event: what is handed over and what is left come from what was there and what was sent.
sublist_of_eq : {xs ys : List Bytes} → xs ≡ ys → Sublist xs (ys ++ [])
sublist_of_eq {xs} {ys} e = rw (append-nil ys) (subst (Sublist xs) e (Sublist.refl xs))

step-sublist :
    (s : WebSocketSession) (e : Event)
    → Sublist
        (newly s.writer e (step s e).writer ++ (step s e).write_queue)
        (s.write_queue ++ sent_by e)
unfolding step
step-sublist s (posted frame) =
    rw (enqueue_passes_none s.writer frame s refl) (enqueue-sublist frame s)
step-sublist s writer_starts = sublist_of_eq (start_splits s.writer s refl)
step-sublist s write_ends = sublist_of_eq (written_splits s.writer s refl)
step-sublist s (write_fails e) = sublist_of_eq (failed_splits s.writer e s refl)
step-sublist s stream_closes = rw (closing_passes_none s.writer s refl) (sublist_of_eq refl)

-- In any order of events, the frames passed to `async_write` followed by those still queued are a
-- subsequence of the frames queued at first followed by those sent since: frames may be dropped,
-- and are never made up, repeated or put in another order.
pub handed_in_order :
    (s : WebSocketSession) (es : List Event)
    → Sublist (handed s es ++ (run s es).write_queue) (s.write_queue ++ sent es)
unfolding handed run sent
handed_in_order s [] = sublist_of_eq refl
handed_in_order s (e ∷ es) =
    let now = newly s.writer e (step s e).writer in
    rw
      (
        append_assoc now (handed (step s e) es) (run (step s e) es).write_queue,
        ← append_assoc s.write_queue (sent_by e) (sent es),
      )
      (Sublist.trans (Sublist.append (Sublist.refl now) (handed_in_order (step s e) es)) (
        rw (← append_assoc now (step s e).write_queue (sent es))
          (Sublist.append (step-sublist s e) (Sublist.refl (sent es)))))

-- ===== src/Session/Drain.antt =====
-- The writer of src/websocket_session.cpp and the frames that wait for it.
use streaming_server.Base.{
  suc, ◌≡◌, ◌≢◌, refl, ap, ◌∙◌, true, false, List, [], ◌∷◌, ◌++◌, length, replicate, All, arith,
  ◌⊎◌, inl, inr,
}
use streaming_server.Text.{Bytes}
use streaming_server.Session.State.{WebSocketSession, Writer, absent, spawned, writing}
use streaming_server.Session.Queue.{
  enqueue, write_loop, Event, posted, writer_starts, write_ends, write_fails, stream_closes, step,
  run, on_start, on_written, next_write,
}
use streaming_server.Session.Bounded.{IsSound, is_present, step-IsSound}
use streaming_server.Session.Order.{handed, newly, passed}

written_next :
    (x : Bytes) (q : List Bytes) (s : WebSocketSession)
    → s.write_queue ≡ x ∷ q
    → s.is_open ≡ true
    → write_loop s ≡ record s { write_queue = q; writer = writing x }
unfolding write_loop
written_next x q s e o = ground arith

written_last :
    (s : WebSocketSession)
    → s.write_queue ≡ []
    → write_loop s ≡ record s { is_writing = false; writer = absent }
unfolding write_loop
written_last s e = ap (λ (q : List Bytes). next_write q s) e

after_write :
    (s : WebSocketSession) {frame : Bytes}
    → s.writer ≡ writing frame
    → step s write_ends ≡ write_loop s
unfolding step
after_write s w = ap (λ (v : Writer). on_written v s) w

passed_next :
    (s t : WebSocketSession) {frame : Bytes}
    → s.writer ≡ writing frame
    → step s write_ends ≡ t
    → newly s.writer write_ends (step s write_ends).writer ≡ passed t.writer
passed_next s t w on =
    ap (λ (v : Writer). newly v write_ends (step s write_ends).writer) w
    ∙ ap (λ (v : WebSocketSession). passed v.writer) on

-- If an open session's writer waits for a write and nothing more is sent or fails, then after one
-- end of a write for each queued frame and one more, the queued frames have been passed to
-- `async_write` in order, the queue is empty and the writer has ended.
pub writer_drains :
    (q : List Bytes) (s : WebSocketSession) (frame : Bytes)
    → s.write_queue ≡ q
    → s.writer ≡ writing frame
    → s.is_open ≡ true
    → (handed s (replicate (suc (length q)) write_ends) ≡ q)
      × ((run s (replicate (suc (length q)) write_ends)).write_queue ≡ [])
      × ((run s (replicate (suc (length q)) write_ends)).writer ≡ absent)
      × ((run s (replicate (suc (length q)) write_ends)).is_writing ≡ false)
unfolding handed run
writer_drains [] s frame e w o =
    let end = after_write s w ∙ written_last s e in
    (
      ap (λ (xs : List Bytes). xs ++ [])
          (passed_next s (record s { is_writing = false; writer = absent }) w end),
      ap (λ (t : WebSocketSession). t.write_queue) end ∙ e,
      ap (λ (t : WebSocketSession). t.writer) end,
      ap (λ (t : WebSocketSession). t.is_writing) end,
    )
writer_drains (x ∷ q) s frame e w o =
    let s' = record s { write_queue = q; writer = writing x } in
    let es = replicate (suc (length q)) write_ends in
    let on = after_write s w ∙ written_next x q s e o in
    let ih = writer_drains q s' x refl refl o in
    (
      ap (λ (xs : List Bytes). xs ++ handed (step s write_ends) es) (passed_next s s' w on)
          ∙ ap (λ (t : WebSocketSession). x ∷ handed t es) on
          ∙ ap (◌∷◌ x) ih.0,
      ap (λ (t : WebSocketSession). (run t es).write_queue) on ∙ ih.1,
      ap (λ (t : WebSocketSession). (run t es).writer) on ∙ ih.2,
      ap (λ (t : WebSocketSession). (run t es).is_writing) on ∙ ih.3,
    )

-- No queued frame of an open session is without a writer.
abbrev pub IsServed : WebSocketSession → Type 0
IsServed s = s.is_open ≡ true → s.write_queue ≢ [] → is_present s.writer ≡ true

abbrev pub IsNoFailure : Event → Type 0
IsNoFailure (write_fails e) = ⊥
IsNoFailure _ = Unit

enqueue-IsServed :
    (frame : Bytes) (s : WebSocketSession) → IsSound s → IsServed s → IsServed (enqueue frame s)
unfolding enqueue
enqueue-IsServed frame s v h = ground (arith, v.flagged)

loop-IsServed :
    (q : List Bytes) (s : WebSocketSession) → s.write_queue ≡ q → IsServed (next_write q s)
loop-IsServed [] s e o ne = absurd (ne e)
loop-IsServed (x ∷ q) s e o ne = ground arith

start-IsServed : (w : Writer) (s : WebSocketSession) → IsServed s → IsServed (on_start w s)
unfolding write_loop
start-IsServed absent s h = h
start-IsServed spawned s h = loop-IsServed s.write_queue s refl
start-IsServed (writing frame) s h = h

written-IsServed : (w : Writer) (s : WebSocketSession) → IsServed s → IsServed (on_written w s)
unfolding write_loop
written-IsServed absent s h = h
written-IsServed spawned s h = h
written-IsServed (writing frame) s h = loop-IsServed s.write_queue s refl

step-IsServed :
    (s : WebSocketSession) (e : Event)
    → IsNoFailure e
    → IsSound s
    → IsServed s
    → IsServed (step s e)
unfolding step
step-IsServed s (posted frame) n v h = enqueue-IsServed frame s v h
step-IsServed s writer_starts n v h = start-IsServed s.writer s h
step-IsServed s write_ends n v h = written-IsServed s.writer s h
step-IsServed s (write_fails e) n v h = absurd n
step-IsServed s stream_closes n v h = λ o ne. cc

run-IsServed :
    (s : WebSocketSession) (es : List Event)
    → All IsNoFailure es
    → IsSound s
    → IsServed s
    → IsServed (run s es)
unfolding run
run-IsServed s [] n v h = h
run-IsServed s (e ∷ es) n v h =
    run-IsServed (step s e) es n.1 (step-IsSound s e v) (step-IsServed s e n.0 v h)

loop_takes :
    (x : Bytes) (q : List Bytes) (s : WebSocketSession)
    → s.write_queue ≡ x ∷ q
    → s.is_open ≡ true
    → ((write_loop s).writer ≡ writing x) × ((write_loop s).write_queue ≡ q)
loop_takes x q s e o =
    let on = written_next x q s e o in
    (ap (λ (t : WebSocketSession). t.writer) on, ap (λ (t : WebSocketSession). t.write_queue) on)

writer_takes :
    (w : Writer) (s : WebSocketSession) (x : Bytes) (q : List Bytes)
    → s.writer ≡ w
    → is_present w ≡ true
    → s.is_open ≡ true
    → s.write_queue ≡ x ∷ q
    → (e : Event) × ((e ≡ writer_starts) ⊎ (e ≡ write_ends))
      × ((step s e).writer ≡ writing x)
      × ((step s e).write_queue ≡ q)
unfolding step
writer_takes absent s x q at here o e = ground arith
writer_takes spawned s x q at here o e =
    let taken = loop_takes x q s e o in
    (
      writer_starts,
      inl refl,
      ap (λ (v : Writer). (on_start v s).writer) at ∙ taken.0,
      ap (λ (v : Writer). (on_start v s).write_queue) at ∙ taken.1,
    )
writer_takes (writing f) s x q at here o e =
    let taken = loop_takes x q s e o in
    (
      write_ends,
      inr refl,
      ap (λ (v : Writer). (on_written v s).writer) at ∙ taken.0,
      ap (λ (v : Writer). (on_written v s).write_queue) at ∙ taken.1,
    )

-- A session starts with at most ten queued frames, with a writer exactly if `is_writing_` says so,
-- and with one if it is open and a frame is queued. After any events with no failed write, if the
-- session is open and a frame is queued, then the frame in front is taken at the next step of the
-- writer: its start, or the end of its write, passes this frame to `async_write` and leaves the rest.
pub queued_frame_taken :
    (s : WebSocketSession) (es : List Event) (x : Bytes) (q : List Bytes)
    → All IsNoFailure es
    → IsSound s
    → IsServed s
    → (run s es).is_open ≡ true
    → (run s es).write_queue ≡ x ∷ q
    → (e : Event) × ((e ≡ writer_starts) ⊎ (e ≡ write_ends))
      × ((step (run s es) e).writer ≡ writing x)
      × ((step (run s es) e).write_queue ≡ q)
queued_frame_taken s es x q n v h o e =
    let there : (run s es).write_queue ≢ [] = λ none_left. ground arith in
    writer_takes (run s es).writer (run s es) x q refl (run-IsServed s es n v h o there) o e

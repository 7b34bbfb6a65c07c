-- ===== src/Session/Enqueued.antt =====
-- An open session of src/websocket_session.cpp behind a frame that was sent to it.
use streaming_server.Base.{
  ◌≡◌, refl, ap, ◌∙◌, true, List, [], ◌∷◌, ◌++◌, length, leb, drop, if◌then◌else◌, arith,
}
use streaming_server.Text.{Bytes}
use streaming_server.Session.State.{WebSocketSession}
use streaming_server.Session.Queue.{enqueue, pop_front}
use streaming_server.Session.Latest.{enqueue-eq}

pop_front-drop : (q : List Bytes) → pop_front q ≡ drop 1 q
pop_front-drop [] = refl
pop_front-drop (x ∷ q) = refl

-- An open session behind a frame that was sent to it.
pub record Queued (out : Bytes) (s t : WebSocketSession) : Type 0 where
  pub queue :
      t.write_queue
      ≡ (if leb 10 (length s.write_queue) then drop 1 s.write_queue else s.write_queue) ++ out ∷ []
  pub writes : t.is_writing ≡ true
  pub authenticated : t.is_authenticated ≡ s.is_authenticated
  pub controls : t.is_controller ≡ s.is_controller

pub enqueue_open :
    (out : Bytes) (s : WebSocketSession) → s.is_open ≡ true → Queued out s (enqueue out s)
enqueue_open out s ready = record {
  queue =
      enqueue-eq out s ready
      ∙ ap (λ xs. (if leb 10 (length s.write_queue) then xs else s.write_queue) ++ out ∷ [])
          (pop_front-drop s.write_queue);
  writes = unfold enqueue in ground arith;
  authenticated = unfold enqueue in ground arith;
  controls = unfold enqueue in ground arith;
}

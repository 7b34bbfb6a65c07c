-- ===== src/World/Queues.antt =====
-- The invariants of src/websocket_session.cpp and src/stream_controller.cpp in a run of src/main.cpp.
use streaming_server.Base.{
  ℕ, inl, inr, Bool, List, [], ◌∷◌, ◌++◌, Option, none, some, arith, Bool-cases,
}
use streaming_server.Session.State.{WebSocketSession, close}
use streaming_server.Session.Queue.{
  Event, posted, writer_starts, write_ends, write_fails, stream_closes,
}
use streaming_server.Session.Bounded.{IsSound, step-IsSound}
use streaming_server.Session.Farewell.{destroy}
use streaming_server.Session.Reading.{
  ReadError, connection_gone, other_code, other_exception, read_failed,
}
use streaming_server.Streaming.State.{StreamController}
use streaming_server.Streaming.Viewers.{remove_viewer_by_id}
use streaming_server.Streaming.Loops.{HasOneLoop, stop_request-HasOneLoop}
use streaming_server.World.{Client, has_id, find_client, change_client, drop_client}
use streaming_server.World.Events.{writer_step}

-- Every session keeps its queue in order.
abbrev pub AllSound : List Client → Type 0
AllSound [] = Unit
AllSound (k ∷ ks) = IsSound k.session × AllSound ks

pub change_client-AllSound :
    (id : ℕ) (f : Client → Client) (ks : List Client)
    → ((k : Client) → IsSound k.session → IsSound (f k).session)
    → AllSound ks
    → AllSound (change_client id f ks)
unfolding change_client
change_client-AllSound id f [] keeps v = v
change_client-AllSound id f (k ∷ ks) keeps v = elim (Bool-cases (has_id id k)) [
  | inl found ↦ rw found (keeps k v.0, change_client-AllSound id f ks keeps v.1)
  | inr another ↦ rw another (v.0, change_client-AllSound id f ks keeps v.1)
]

pub drop_client-AllSound : (id : ℕ) (ks : List Client) → AllSound ks → AllSound (drop_client id ks)
unfolding drop_client
drop_client-AllSound id [] v = v
drop_client-AllSound id (k ∷ ks) v = elim (Bool-cases (has_id id k)) [
  | inl found ↦ rw found (drop_client-AllSound id ks v.1)
  | inr another ↦ rw another (v.0, drop_client-AllSound id ks v.1)
]

pub AllSound-append :
    (ks : List Client) (k : Client) → AllSound ks → IsSound k.session → AllSound (ks ++ k ∷ [])
AllSound-append [] k v new = (new, tt)
AllSound-append (k' ∷ ks) k v new = (v.0, AllSound-append ks k v.1 new)

abbrev pub FoundSound : Option Client → Type 0
FoundSound none = Unit
FoundSound (some k) = IsSound k.session

pub find_client-FoundSound :
    (id : ℕ) (ks : List Client) → AllSound ks → FoundSound (find_client id ks)
unfolding find_client
find_client-FoundSound id [] v = tt
find_client-FoundSound id (k ∷ ks) v = elim (Bool-cases (has_id id k)) [
  | inl found ↦ rw found v.0
  | inr another ↦ rw another (find_client-FoundSound id ks v.1)
]

pub writer_step-IsSound : (e : Event) (s : WebSocketSession) → IsSound s → IsSound (writer_step e s)
writer_step-IsSound (posted frame) s v = v
writer_step-IsSound writer_starts s v = step-IsSound s writer_starts v
writer_step-IsSound write_ends s v = step-IsSound s write_ends v
writer_step-IsSound (write_fails err) s v = step-IsSound s (write_fails err) v
writer_step-IsSound stream_closes s v = step-IsSound s stream_closes v

pub destroy-HasOneLoop :
    {D : Type 0} (live : ℕ → Bool) (s : WebSocketSession) (c : StreamController D)
    → HasOneLoop c
    → HasOneLoop (destroy live s c)
unfolding destroy remove_viewer_by_id
destroy-HasOneLoop live s c v = elim (Bool-cases s.is_controller) [
  | inl controls ↦ rw controls (stop_request-HasOneLoop c v)
  | inr watches ↦ elim (Bool-cases s.is_authenticated) [
    | inl authentic ↦ rw (watches, authentic) (record { counted = v.counted })
    | inr anonymous ↦ rw (watches, anonymous) v
  ]
]

pub read_failed-IsSound :
    (e : ReadError) (s : WebSocketSession) → IsSound s → IsSound (read_failed e s)
unfolding read_failed close
read_failed-IsSound connection_gone s v = v
read_failed-IsSound other_code s v = record {
  bounded = ground (arith, v.bounded);
  flagged = ground (arith, v.flagged);
}
read_failed-IsSound other_exception s v = v

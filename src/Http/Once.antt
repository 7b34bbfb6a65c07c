-- ===== src/Http/Once.antt =====
-- What a connection of src/http_session.cpp comes to, by the handlers that run for it.
use streaming_server.Base.{ℕ, ◌≡◌, refl, sym, subst, List, [], ◌∷◌, Option, none, some}
use streaming_server.Outcome.{runtime_error, Try, ok, throw}
use streaming_server.Outcome.Actions.{◌>>◌}
use streaming_server.Text.{Bytes}
use streaming_server.Http.{Verb, Answer, Surroundings, handle_request}
use streaming_server.Http.Connection.{
  reading, ended, cors_headers, Response, HttpSession, new_session, Arrival, handshake_fails,
  shakes_hands, read_fails, upgrades_request, requests, throws, write, arrive_all,
}

-- A connection is never answered, is handed to a WebSocket session, or is answered once. The answer
-- is lost to an exception, if there is one.
pub data Fate : Type 0 where
  silent : Fate
  upgraded : Fate
  answered : Verb → Bytes → Option Bytes → Fate

-- The first read that ends decides, behind the handshake.
abbrev pub first_read : List Arrival → Fate
first_read [] = silent
first_read (read_fails ∷ es) = silent
first_read (upgrades_request ∷ es) = upgraded
first_read (requests method target failure ∷ es) = answered method target failure
first_read (handshake_fails ∷ es) = first_read es
first_read (shakes_hands ∷ es) = first_read es

-- The first end of the handshake decides whether anything is read.
abbrev pub after_handshake : List Arrival → Fate
after_handshake [] = silent
after_handshake (handshake_fails ∷ es) = silent
after_handshake (shakes_hands ∷ es) = first_read es
after_handshake (read_fails ∷ es) = after_handshake es
after_handshake (upgrades_request ∷ es) = after_handshake es
after_handshake (requests method target failure ∷ es) = after_handshake es

-- What is sent, how often the connection is handed on, and whether the handlers return.
pub record ComesTo (sent : List Response) (upgrades : ℕ) (result : Try (Unit {0}))
    (r : Try (Unit {0}) × HttpSession) : Type 0 where
  pub responses : r.1.responses ≡ sent
  pub handed : r.1.upgrades ≡ upgrades
  pub outcome : r.0 ≡ result

-- The first of the two errors is thrown: that of making the answer, or that of writing it.
abbrev pub AnsweredWith :
    Answer → Option Bytes → Option Bytes → Try (Unit {0}) × HttpSession → Type 0
AnsweredWith answer (some m) failure = ComesTo [] 0 (throw (runtime_error m))
AnsweredWith answer none (some m) = ComesTo [] 0 (throw (runtime_error m))
AnsweredWith answer none none =
    ComesTo (record { headers = cors_headers; answer = answer } ∷ []) 0 (ok tt)

module _ (env : Surroundings) where
  abbrev pub Meets : Fate → Try (Unit {0}) × HttpSession → Type 0
  Meets silent = ComesTo [] 0 (ok tt)
  Meets upgraded = ComesTo [] 1 (ok tt)
  Meets (answered method target failure) =
      AnsweredWith (handle_request env method target) (handle_request env method target).thrown
        failure

  abbrev at_end : List Response → ℕ → HttpSession
  at_end rs n = record { phase = ended; responses = rs; upgrades = n }

  abbrev at_read : HttpSession
  at_read = record new_session { phase = reading }

  nothing_more :
      (es : List Arrival) (rs : List Response) (n : ℕ)
      → arrive_all env es (at_end rs n) ≡ (ok tt, at_end rs n)
  unfolding arrive_all
  nothing_more [] rs n = refl
  nothing_more (e ∷ es) rs n = nothing_more es rs n

  ends_here :
      (es : List Arrival) (rs : List Response) (n : ℕ)
      → ComesTo rs n (ok tt) (arrive_all env es (at_end rs n))
  ends_here es rs n =
      subst (ComesTo rs n (ok tt)) (sym (nothing_more es rs n))
        (record { responses = refl; handed = refl; outcome = refl })

  request_answered :
      (answer : Answer) (error failure : Option Bytes) (es : List Arrival)
      → AnsweredWith answer error failure (
          ((throws error >> write (record { headers = cors_headers; answer = answer }) failure)
              >> arrive_all env es)
            (at_end [] 0))
  request_answered answer (some m) failure es = record {
    responses = refl;
    handed = refl;
    outcome = refl;
  }
  request_answered answer none (some m) es = record {
    responses = refl;
    handed = refl;
    outcome = refl;
  }
  request_answered answer none none es =
      ends_here es (record { headers = cors_headers; answer = answer } ∷ []) 0

  reading-Meets : (es : List Arrival) → Meets (first_read es) (arrive_all env es at_read)
  unfolding arrive_all
  reading-Meets [] = record { responses = refl; handed = refl; outcome = refl }
  reading-Meets (read_fails ∷ es) = ends_here es [] 0
  reading-Meets (upgrades_request ∷ es) = ends_here es [] 1
  reading-Meets (requests method target failure ∷ es) =
      let answer = handle_request env method target in
      request_answered answer answer.thrown failure es
  reading-Meets (handshake_fails ∷ es) = reading-Meets es
  reading-Meets (shakes_hands ∷ es) = reading-Meets es

  -- Whatever the handlers of a new connection bring and in whatever order, what it comes to is decided by
  -- the first end of its handshake and, if that succeeds, the first end of a read behind it. If one of
  -- them is missing or fails, nothing is sent and nothing is handed on. A WebSocket upgrade hands the
  -- connection on once, and sends nothing. Any other request is sent one answer, that of
  -- `handle_request` with the headers of every answer, unless making it or writing it throws; then
  -- nothing is sent, and the exception leaves the handler. What comes later changes nothing.
  pub arrive_all_lem :
      (es : List Arrival) → Meets (after_handshake es) (arrive_all env es new_session)
  unfolding arrive_all
  arrive_all_lem [] = record { responses = refl; handed = refl; outcome = refl }
  arrive_all_lem (handshake_fails ∷ es) = ends_here es [] 0
  arrive_all_lem (shakes_hands ∷ es) = reading-Meets es
  arrive_all_lem (read_fails ∷ es) = arrive_all_lem es
  arrive_all_lem (upgrades_request ∷ es) = arrive_all_lem es
  arrive_all_lem (requests method target failure ∷ es) = arrive_all_lem es

-- ===== src/Http/Connection.antt =====
-- src/http_session.cpp, `run` and `do_read`: one connection, from its TLS handshake to its answer.
-- Whether a request is a WebSocket upgrade, and whether writing the answer fails, is an argument.
use streaming_server.Base.{ℕ, ◌+◌, List, [], ◌∷◌, ◌++◌, Option, none, some}
use streaming_server.Outcome.{throw, runtime_error, Action}
use streaming_server.Outcome.Actions.{pure, lift, modify, ◌>>◌}
use streaming_server.Text.{Bytes, codes}
use streaming_server.Http.{Verb, Answer, Surroundings, handle_request}

-- What the connection waits for; `ended` is the end of the session, or its WebSocket's beginning.
pub data Phase : Type 0 where
  handshaking : Phase
  reading : Phase
  ended : Phase

-- The headers that every answer carries.
abbrev pub cors_headers : List (Bytes × Bytes)
cors_headers =
    (codes "Access-Control-Allow-Origin", codes "*")
    ∷ (codes "Access-Control-Allow-Methods", codes "GET, POST, OPTIONS")
    ∷ (codes "Access-Control-Allow-Headers", codes "Content-Type, Authorization")
    ∷ (codes "Access-Control-Max-Age", codes "86400")
    ∷ []

pub record Response : Type 0 where
  pub headers : List (Bytes × Bytes)
  pub answer : Answer

-- `upgrades` counts the WebSocket sessions that the connection has been handed to.
pub record HttpSession : Type 0 where
  pub phase : Phase
  pub responses : List Response
  pub upgrades : ℕ

abbrev pub new_session : HttpSession
new_session = record { phase = handshaking; responses = []; upgrades = 0 }

-- The end of the handshake or of the read, the latter with a request, and the message of the error
-- that writing its answer would have.
pub data Arrival : Type 0 where
  handshake_fails : Arrival
  shakes_hands : Arrival
  read_fails : Arrival
  upgrades_request : Arrival
  requests : Verb → Bytes → Option Bytes → Arrival

abbrev pub ends : Action HttpSession (Unit {0})
ends = modify (λ s. record s { phase = ended })

abbrev pub throws : Option Bytes → Action HttpSession (Unit {0})
throws none = pure tt
throws (some message) = lift (throw (runtime_error message))

-- `http::write(stream_, res)`, which throws what goes wrong.
abbrev pub write : Response → Option Bytes → Action HttpSession (Unit {0})
write response none = modify (λ s. record s { responses = s.responses ++ response ∷ [] })
write response (some message) = lift (throw (runtime_error message))

abbrev pub on_arrival : Surroundings → Phase → Arrival → Action HttpSession (Unit {0})
on_arrival env handshaking handshake_fails = ends
on_arrival env handshaking shakes_hands = modify (λ s. record s { phase = reading })
on_arrival env reading read_fails = ends
on_arrival env reading upgrades_request =
    modify (λ s. record s { phase = ended; upgrades = s.upgrades + 1 })
on_arrival env reading (requests method target failure) = do
  ends
  throws (handle_request env method target).thrown
  write (record { headers = cors_headers; answer = handle_request env method target }) failure
on_arrival env p e = pure tt

-- The handler that is waiting runs.
unfoldable pub arrive : Surroundings → Arrival → Action HttpSession (Unit {0})
arrive env e s = on_arrival env s.phase e s

-- A run of handlers, which an exception ends.
unfoldable pub arrive_all : Surroundings → List Arrival → Action HttpSession (Unit {0})
unfolding arrive
arrive_all env [] = pure tt
arrive_all env (e ∷ es) = do arrive env e; arrive_all env es

-- ===== src/Server/Steps.antt =====
-- Several calls in the start of src/server.cpp of which each may raise an error.
use streaming_server.Base.{◌≡◌, refl, List, [], ◌∷◌, ◌++◌, Option, none, some}
use streaming_server.Outcome.{runtime_error, Try, ok, throw, Action}
use streaming_server.Outcome.Actions.{pure, lift, after, ◌>>◌}
use streaming_server.Text.{Bytes}
use streaming_server.Tunnel.Commands.{Commands}
use streaming_server.Server.{Server, raised, do_accept}

-- The first error of several steps.
abbrev pub first_error : List (Option Bytes) → Option Bytes
first_error [] = none
first_error (none ∷ os) = first_error os
first_error (some e ∷ os) = some e

-- Steps that may raise an error, and what comes behind them.
abbrev pub chain : List (Option Bytes) → Action Commands Server → Action Commands Server
chain [] k = k
chain (o ∷ os) k = lift (raised o) >> chain os k

abbrev pub by_error : Option Bytes → Action Commands Server → Action Commands Server
by_error none k cs = k cs
by_error (some message) k cs = (throw (runtime_error message), cs)

pub chain_outcome :
    (os : List (Option Bytes)) (k : Action Commands Server) (cs : Commands)
    → chain os k cs ≡ by_error (first_error os) k cs
chain_outcome [] k cs = refl
chain_outcome (none ∷ os) k cs = chain_outcome os k cs
chain_outcome (some message ∷ os) k cs = refl

abbrev pub or_first : Option Bytes → Option Bytes → Option Bytes
or_first none b = b
or_first (some message) b = some message

pub first_error-append :
    (os ps : List (Option Bytes))
    → first_error (os ++ ps) ≡ or_first (first_error os) (first_error ps)
first_error-append [] ps = refl
first_error-append (none ∷ os) ps = first_error-append os ps
first_error-append (some message ∷ os) ps = refl

-- The server that has been constructed accepts.
abbrev pub accepting : Try Server × Commands → Try Server × Commands
accepting (ok s, c) = (ok (do_accept s), c)
accepting (throw e, c) = (throw e, c)

pub accepting_eq :
    (r : Try Server × Commands) → after r.0 (λ s. pure (do_accept s)) r.1 ≡ accepting r
accepting_eq (ok s, c) = refl
accepting_eq (throw e, c) = refl

pub errors_join :
    (a b : Option Bytes) (k inner : Action Commands Server) (cs : Commands)
    → inner cs ≡ accepting (by_error b k cs)
    → by_error a inner cs ≡ by_error (or_first a b) (λ c. accepting (k c)) cs
errors_join none none k inner cs e = e
errors_join none (some message) k inner cs e = e
errors_join (some message) b k inner cs e = refl

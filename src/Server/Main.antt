-- ===== src/Server/Main.antt =====
-- src/main.cpp: the start of the program, its run as long as it lasts, and its exit code.
use streaming_server.Base.{ℕ, Bool, true, not, ◌&&◌, List, [], ◌∷◌, Option, ◌==◌, if◌then◌else◌}
use streaming_server.Outcome.{Try, ok, throw, Action}
use streaming_server.Outcome.Actions.{pure, lift, ◌>>◌}
use streaming_server.Text.{Bytes, codes}
use streaming_server.Tunnel.Commands.{Commands}
use streaming_server.Server.{
  Server, Start, raised, make_server, destroy_server, Accepted, handle_accept,
}

-- What `ioc.run()` runs next: the handler of an accept, or another one, with the message of the
-- exception that leaves it, if any.
pub data Handler : Type 0 where
  accepts : Accepted → Handler
  runs : Option Bytes → Handler

abbrev pub handle : Handler → Action Server (Unit {0})
handle (accepts e) = handle_accept e
handle (runs thrown) = lift (raised thrown)

-- `ioc.run()`, which an exception leaves.
unfoldable pub serve : List Handler → Action Server (Unit {0})
serve [] = pure tt
serve (e ∷ es) = do handle e; serve es

-- The program still serves, or `main` has returned.
pub data Progress : Type 0 where
  serving : Server → Progress
  exits : ℕ → Progress

-- What the handlers that are no accepts have left when the run is over: whether one of them waits for
-- more, and whether the stream controller still has its `playback_session_`. That session holds the
-- server and, like the callback that plays for it, the controller, so that the server is not destroyed
-- with the event loop.
pub record Rest : Type 0 where
  pub others_wait : Bool
  pub has_playback_session : Bool

-- The end of `server` and `ioc` in `main`.
abbrev pub released : Rest → Server → Commands → Commands
released rest s cs = if rest.has_playback_session then cs else (destroy_server s cs).1

-- `ioc.run()` returns when nothing waits any more.
abbrev pub served : Rest → Commands → Try (Unit {0}) × Server → Progress × Commands
served rest cs (ok u, s) =
    if s.accepts_waiting == 0 && not rest.others_wait
    then (exits 0, released rest s cs)
    else (serving s, cs)
served rest cs (throw e, s) = (exits 1, released rest s cs)

abbrev pub started : List Handler → Rest → Try Server × Commands → Progress × Commands
started es rest (ok s, cs) = served rest cs (serve es s)
started es rest (throw e, cs) = (exits 1, cs)

-- `main`, with the shell commands that it has run.
unfoldable pub main : Start → List Handler → Rest → Progress × Commands
unfolding serve
main st es rest = started es rest (make_server st (codes "../web") true [])

-- ===== src/Server/Exits.antt =====
-- When `main` of src/main.cpp returns, and what becomes of the tunnel that it has started.
use streaming_server.Base.{
  ℕ, ◌≡◌, refl, ap, ◌∙◌, sym, true, List, [], ◌∷◌, ◌++◌, append-nil, append_assoc, map, Option,
  none, some, Option-cases, Bool-cases, if◌then◌else◌, inl, inr, arith,
}
use streaming_server.Outcome.{runtime_error, Try, ok, throw}
use streaming_server.Text.{Bytes, codes}
use streaming_server.Tunnel.Commands.{Commands, pkill_command, cleanup}
use streaming_server.Server.{Server, Start, end_tunnel, destroy_server}
use streaming_server.Server.Steps.{first_error}
use streaming_server.Server.Main.{
  Handler, serve, Progress, serving, exits, Rest, released, served, started, main,
}
use streaming_server.Server.Startup.{
  steps, listening, launch_commands, tunnel_url, start_outcome, make_server_lem,
}
use streaming_server.Server.Accepting.{thrown, sockets, with_sessions, serve_lem, serve-url}

-- The commands of the destructor.
abbrev pub ending : Bytes → Commands
ending [] = []
ending (b ∷ url) = pkill_command ∷ codes "rm -f vk_tunnel.log > /dev/null 2>&1" ∷ []

end_tunnel-ending : (url : Bytes) (cs : Commands) → (end_tunnel url cs).1 ≡ cs ++ ending url
unfolding cleanup
end_tunnel-ending [] cs = sym (append-nil cs)
end_tunnel-ending (b ∷ url) cs = append_assoc cs (pkill_command ∷ []) _

-- The commands behind the last handler.
abbrev pub last_commands : Rest → Bytes → Commands
last_commands rest url = if rest.has_playback_session then [] else ending url

released-ending :
    (rest : Rest) (s : Server) (cs : Commands)
    → released rest s cs ≡ cs ++ last_commands rest s.cloud_tunnel_url
unfolding destroy_server
released-ending rest s cs = elim (Bool-cases rest.has_playback_session) [
  | inl held ↦ rw held (sym (append-nil cs))
  | inr free ↦ rw free (end_tunnel-ending s.cloud_tunnel_url cs)
]

ended :
    (rest : Rest) (cs : Commands) (message url : Bytes) (r : Try (Unit {0}) × Server)
    → r.0 ≡ throw (runtime_error message)
    → r.1.cloud_tunnel_url ≡ url
    → served rest cs r ≡ (exits 1, cs ++ last_commands rest url)
ended rest cs message url (ok u, s) h same = ground (arith, h)
ended rest cs message url (throw e, s) h same =
    ap (λ t. (exits 1, t)) (released-ending rest s cs ∙ ap (λ t. cs ++ last_commands rest t) same)

module _ (st : Start) (es : List Handler) (rest : Rest) where
  -- The server of `main`, listening.
  abbrev pub at_first : Bytes → Server
  at_first url = listening st (codes "../web") url

  -- How the run ends, by the first exception.
  abbrev pub run_outcome : Option Bytes → Commands → Bytes → Progress × Commands
  run_outcome none cs url = (serving (with_sessions (at_first url) (sockets es)), cs)
  run_outcome (some message) cs url = (exits 1, cs ++ last_commands rest url)

  -- How the program ends, by the first error of its start.
  abbrev pub main_outcome : Option Bytes → ℕ → Bytes → Progress × Commands
  main_outcome (some message) port url = (exits 1, [])
  main_outcome none port url =
      run_outcome (first_error (map thrown es)) (launch_commands st.launch port) url

  runs_to_outcome :
      (cs : Commands) (url : Bytes)
      → started es rest (ok (at_first url), cs) ≡ run_outcome (first_error (map thrown es)) cs url
  runs_to_outcome cs url =
      let run = serve_lem es (at_first url) refl in
      elim (Option-cases (first_error (map thrown es))) [
        | inl calm ↦ rw calm (ap (served rest cs) (run.goes_on calm))
        | inr (m, broken) ↦ rw broken (
            ended rest cs m url (serve es (at_first url)) (run.breaks m broken)
              (serve-url es (at_first url)))
      ]

  started_outcome :
      (o : Option Bytes) (port : ℕ) (url : Bytes)
      → started es rest (start_outcome st (codes "../web") [] o true port url)
        ≡ main_outcome o port url
  started_outcome (some m) port url = refl
  started_outcome none port url = runs_to_outcome (launch_commands st.launch port) url

  -- `main` returns 1 when a step of the start fails, then before any shell command, and when an
  -- exception leaves a handler; without an exception it does not return, since an accept always waits,
  -- whatever else does, and serves every connection. So it never returns 0. The tunnel that was started
  -- is killed at the end exactly if its address was found in the log and the stream controller does not
  -- hold the session of a playback then. The port is known.
  pub main_lem :
      (port : ℕ)
      → st.local_port ≡ ok port
      → (url : Bytes) × (tunnel_url st.launch ≡ ok url)
        × (main st es rest ≡ main_outcome (first_error (steps st)) port url)
  unfolding main
  main_lem port p =
      let (url, u, made) = make_server_lem st (codes "../web") [] true port p in
      (url, u, ap (started es rest) made ∙ started_outcome (first_error (steps st)) port url)

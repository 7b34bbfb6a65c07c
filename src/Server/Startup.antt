-- ===== src/Server/Startup.antt =====
-- What `make_server` of src/server.cpp does on every branch.
use streaming_server.Base.{
  ℕ, ◌≡◌, refl, ap, ◌∙◌, Bool, true, false, not, List, [], ◌∷◌, ◌++◌, append_assoc, Option, none,
  some, sym, if◌then◌else◌, Option-cases, inl, inr,
}
use streaming_server.Outcome.{runtime_error, Try, ok, throw, Action}
use streaming_server.Outcome.Actions.{pure, after}
use streaming_server.Text.{Bytes}
use streaming_server.Keys.{generate_key}
use streaming_server.Tunnel.{setup_tunnel}
use streaming_server.Tunnel.Total.{setup_tunnel-Returns}
use streaming_server.Tunnel.Commands.{
  Commands, Launch, is_zero, which_command, tunnel_command, launch_installed, launch_tunnel,
}
use streaming_server.Server.{
  Server, Start, new_server, with_tunnel, make_server, setup_cloud_tunnel, do_accept,
}
use streaming_server.Server.Steps.{
  first_error, by_error, chain_outcome, first_error-append, accepting, accepting_eq, errors_join,
}

-- The steps of the start, in order.
abbrev pub steps : Start → List (Option Bytes)
steps st =
    st.context ∷ st.chain_file ∷ st.key_file ∷ st.ssl_options ∷ st.opened ∷ st.option_set ∷ st.bound
    ∷ st.listened ∷ st.directory ∷ []

-- A server that waits for its first connection.
abbrev pub listening : Start → Bytes → Bytes → Server
listening st doc_root url = record {
  doc_root = doc_root;
  api_key = generate_key st.draw;
  cloud_tunnel_url = url;
  accepts_waiting = 1;
  sessions = [];
}

-- The commands that start the tunnel.
abbrev pub launch_commands : Launch → ℕ → Commands
launch_commands l port =
    which_command ∷ (if is_zero l.which_result then tunnel_command port ∷ [] else [])

abbrev pub tunnel_url : Launch → Try Bytes
tunnel_url l = setup_tunnel (is_zero l.which_result) (not (is_zero l.result)) l.log

module _ (st : Start) (doc_root : Bytes) (cs : Commands) where
  -- The server before its tunnel.
  abbrev constructed : Server
  constructed = record (listening st doc_root []) { accepts_waiting = 0 }

  abbrev certificate_steps : List (Option Bytes)
  certificate_steps = st.context ∷ st.chain_file ∷ st.key_file ∷ []

  abbrev socket_steps : List (Option Bytes)
  socket_steps =
      st.ssl_options ∷ st.opened ∷ st.option_set ∷ st.bound ∷ st.listened ∷ st.directory ∷ []

  new_server_outcome :
      (enable : Bool)
      → new_server st doc_root enable cs
        ≡ by_error (first_error socket_steps) (with_tunnel st enable constructed) cs
  unfolding new_server
  new_server_outcome enable = chain_outcome socket_steps (with_tunnel st enable constructed) cs

  make_server_outcome :
      (enable : Bool)
      → make_server st doc_root enable cs
        ≡ by_error
            (first_error (steps st))
            (λ c. accepting (with_tunnel st enable constructed c))
            cs
  unfolding make_server
  make_server_outcome enable =
      let inner : Action Commands Server = λ c.
        after (new_server st doc_root enable c).0 (λ s. pure (do_accept s))
          (new_server st doc_root enable c).1 in
      chain_outcome certificate_steps inner cs
      ∙ (errors_join (first_error certificate_steps) (first_error socket_steps)
            (with_tunnel st enable constructed) inner cs
            (accepting_eq (new_server st doc_root enable cs)
              ∙ ap accepting (new_server_outcome enable))
          ∙ ap (λ o. by_error o (λ c. accepting (with_tunnel st enable constructed c)) cs)
              (sym (first_error-append certificate_steps socket_steps)))

  failing_start :
      (message : Bytes) (enable : Bool)
      → first_error (steps st) ≡ some message
      → make_server st doc_root enable cs ≡ (throw (runtime_error message), cs)
  failing_start message enable e =
      make_server_outcome enable
      ∙ ap (λ o. by_error o (λ c. accepting (with_tunnel st enable constructed c)) cs) e

  plain_start :
      first_error (steps st) ≡ none
      → make_server st doc_root false cs ≡ (ok (listening st doc_root []), cs)
  unfolding do_accept
  plain_start e =
      make_server_outcome false
      ∙ ap (λ o. by_error o (λ c. accepting (with_tunnel st false constructed c)) cs) e

  launch_installed-eq :
      (l : Launch) (port : ℕ) (installed : Bool)
      → launch_installed l port installed (cs ++ which_command ∷ []) ≡ (
        setup_tunnel installed (not (is_zero l.result)) l.log,
        cs ++ which_command ∷ (if installed then tunnel_command port ∷ [] else []),
      )
  unfolding setup_tunnel
  launch_installed-eq l port true =
      ap (λ t. (setup_tunnel true (not (is_zero l.result)) l.log, t))
        (append_assoc cs (which_command ∷ []) (tunnel_command port ∷ []))
  launch_installed-eq l port false = refl

  launch_tunnel-eq :
      (l : Launch) (port : ℕ)
      → launch_tunnel l port cs ≡ (tunnel_url l, cs ++ launch_commands l port)
  unfolding launch_tunnel
  launch_tunnel-eq l port = launch_installed-eq l port (is_zero l.which_result)

  quiet_start :
      first_error (steps st) ≡ none
      → make_server st doc_root true cs ≡ accepting (setup_cloud_tunnel st constructed cs)
  quiet_start e =
      make_server_outcome true
      ∙ ap (λ o. by_error o (λ c. accepting (with_tunnel st true constructed c)) cs) e

  setup_cloud_tunnel-eq :
      (port : ℕ) (url : Bytes)
      → st.local_port ≡ ok port
      → tunnel_url st.launch ≡ ok url
      → setup_cloud_tunnel st constructed cs
        ≡ (ok (record constructed { cloud_tunnel_url = url }), cs ++ launch_commands st.launch port)
  unfolding setup_cloud_tunnel
  setup_cloud_tunnel-eq port url p u = rw (p, launch_tunnel-eq st.launch port, u) refl

  tunnel_start :
      (port : ℕ) (url : Bytes)
      → first_error (steps st) ≡ none
      → st.local_port ≡ ok port
      → tunnel_url st.launch ≡ ok url
      → make_server st doc_root true cs
        ≡ (ok (listening st doc_root url), cs ++ launch_commands st.launch port)
  unfolding do_accept
  tunnel_start port url e p u = quiet_start e ∙ ap accepting (setup_cloud_tunnel-eq port url p u)

  -- What the start comes to, by the first error and whether a tunnel is asked for.
  abbrev pub start_outcome : Option Bytes → Bool → ℕ → Bytes → Try Server × Commands
  start_outcome (some message) enable port url = (throw (runtime_error message), cs)
  start_outcome none false port url = (ok (listening st doc_root []), cs)
  start_outcome none true port url =
      (ok (listening st doc_root url), cs ++ launch_commands st.launch port)

  calm_start :
      (enable : Bool) (port : ℕ) (url : Bytes)
      → st.local_port ≡ ok port
      → tunnel_url st.launch ≡ ok url
      → first_error (steps st) ≡ none
      → make_server st doc_root enable cs ≡ start_outcome none enable port url
  calm_start true port url p u calm = tunnel_start port url calm p u
  calm_start false port url p u calm = plain_start calm

  outcome_with :
      (enable : Bool) (port : ℕ) (url : Bytes)
      → st.local_port ≡ ok port
      → tunnel_url st.launch ≡ ok url
      → make_server st doc_root enable cs ≡ start_outcome (first_error (steps st)) enable port url
  outcome_with enable port url p u = elim (Option-cases (first_error (steps st))) [
    | inl calm ↦ rw calm (calm_start enable port url p u calm)
    | inr (m, broken) ↦ rw broken (failing_start m enable broken)
  ]

  -- The start fails with the first error of its steps, before any shell command. Without an
  -- error there is a server with one accept waiting and no session, whose tunnel, if it is asked for,
  -- has the address of `setup_tunnel`: the search for it never throws. The port is known.
  pub make_server_lem :
      (enable : Bool) (port : ℕ)
      → st.local_port ≡ ok port
      → (url : Bytes) × (tunnel_url st.launch ≡ ok url)
        × (make_server st doc_root enable cs
            ≡ start_outcome (first_error (steps st)) enable port url)
  make_server_lem enable port p =
      let (url, u) =
        setup_tunnel-Returns (is_zero st.launch.which_result) (not (is_zero st.launch.result))
          st.launch.log in
      (url, u, outcome_with enable port url p u)

-- ===== src/Server.antt =====
-- src/server.cpp: the server's start, its accept loop and its end. The calls of Boost.Asio and
-- OpenSSL, and their errors, are arguments; log lines are left out.
pub mod Main
pub mod Steps
pub mod Startup
pub mod Accepting
pub mod Exits
pub mod Examples
use streaming_server.Base.{
  ℕ, ◌+◌, ◌-◌, Bool, true, false, not, List, [], ◌∷◌, ◌++◌, Option, none, some, if◌then◌else◌,
}
use streaming_server.Outcome.{Exception, runtime_error, Try, ok, throw, Action}
use streaming_server.Outcome.Actions.{pure, lift, modify, ◌>>=◌, ◌>>◌}
use streaming_server.Text.{Bytes}
use streaming_server.Keys.{generate_key}
use streaming_server.Tunnel.Commands.{Commands, Launch, launch_tunnel, cleanup}

-- The object, with the number of `async_accept` that wait, and the sockets that HTTP sessions run on.
pub record Server : Type 0 where
  pub doc_root : Bytes
  pub api_key : Bytes
  pub cloud_tunnel_url : Bytes
  pub accepts_waiting : ℕ
  pub sessions : List ℕ

-- What the calls of the start give: the TLS context, the two files of its certificate and its options,
-- the four calls on the acceptor, and the creation of the directory of the recordings by the constructor
-- of the `RecordController`, each with the message of its error; the acceptor's local port, the numbers
-- for the key, and the tunnel.
pub record Start : Type 0 where
  pub context : Option Bytes
  pub chain_file : Option Bytes
  pub key_file : Option Bytes
  pub ssl_options : Option Bytes
  pub opened : Option Bytes
  pub option_set : Option Bytes
  pub bound : Option Bytes
  pub listened : Option Bytes
  pub directory : Option Bytes
  pub local_port : Try ℕ
  pub draw : ℕ → ℕ
  pub launch : Launch

-- `if(ec) throw boost::system::system_error(ec);`
abbrev pub raised : Option Bytes → Try (Unit {0})
raised none = ok tt
raised (some message) = throw (runtime_error message)

-- The address stays empty when there is no tunnel.
unfoldable pub setup_cloud_tunnel : Start → Server → Action Commands Server
setup_cloud_tunnel st s = do
  port ← lift st.local_port
  url ← launch_tunnel st.launch port
  pure (record s { cloud_tunnel_url = url })

abbrev pub with_tunnel : Start → Bool → Server → Action Commands Server
with_tunnel st true s = setup_cloud_tunnel st s
with_tunnel st false s = pure s

-- The constructor.
unfoldable pub new_server : Start → Bytes → Bool → Action Commands Server
new_server st doc_root enable_cloud_tunnel = do
  lift (raised st.ssl_options)
  lift (raised st.opened)
  lift (raised st.option_set)
  lift (raised st.bound)
  lift (raised st.listened)
  lift (raised st.directory)
  with_tunnel st enable_cloud_tunnel (record {
    doc_root = doc_root;
    api_key = generate_key st.draw;
    cloud_tunnel_url = [];
    accepts_waiting = 0;
    sessions = [];
  })

abbrev pub end_tunnel : Bytes → Action Commands (Unit {0})
end_tunnel [] = pure tt
end_tunnel (b ∷ url) = do done ← cleanup; pure tt

-- The destructor.
unfoldable pub destroy_server : Server → Action Commands (Unit {0})
destroy_server s = end_tunnel s.cloud_tunnel_url

unfoldable pub do_accept : Server → Server
do_accept s = record s { accepts_waiting = s.accepts_waiting + 1 }

unfoldable pub make_server : Start → Bytes → Bool → Action Commands Server
unfolding new_server do_accept
make_server st doc_root enable_cloud_tunnel = do
  lift (raised st.context)
  lift (raised st.chain_file)
  lift (raised st.key_file)
  s ← new_server st doc_root enable_cloud_tunnel
  pure (do_accept s)

-- How an accept ends: with an error, or with a socket and what `remote_endpoint` gives for it.
pub data Accepted : Type 0 where
  fails : Bytes → Accepted
  connects : ℕ → Option Bytes → Accepted

abbrev pub session : ℕ → Action Server (Unit {0})
session socket = modify (λ s. record s { sessions = s.sessions ++ socket ∷ [] })

abbrev pub accept_ended : Server → Server
accept_ended s = record s { accepts_waiting = s.accepts_waiting - 1 }

abbrev pub on_socket : ℕ → Option Bytes → Action Server (Unit {0})
on_socket socket remote = do lift (raised remote); session socket

abbrev pub on_accepted : Accepted → Action Server (Unit {0})
on_accepted (fails message) = pure tt
on_accepted (connects socket remote) = on_socket socket remote

-- An accept ends, and its handler runs.
unfoldable pub handle_accept : Accepted → Action Server (Unit {0})
unfolding do_accept
handle_accept e = do modify accept_ended; on_accepted e; modify do_accept

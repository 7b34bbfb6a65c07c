-- ===== src/Server/Examples.antt =====
-- A start and a short run of the server on concrete input, and the theorems about them at work.
use streaming_server.Base.{◌≡◌, refl, true, false, List, [], ◌∷◌, none, some}
use streaming_server.Base.Int.{pos}
use streaming_server.Outcome.{ok}
use streaming_server.Text.{Bytes, codes}
use streaming_server.Text.Search.{find}
use streaming_server.Tunnel.{setup_tunnel}
use streaming_server.Tunnel.Commands.{Launch, launch_tunnel}
use streaming_server.Server.{
  Server, Start, fails, connects, make_server, setup_cloud_tunnel, handle_accept,
}
use streaming_server.Server.Main.{Handler, accepts, runs, exits, Rest, serve, main}
use streaming_server.Server.Startup.{listening, tunnel_url, start_outcome, make_server_lem}
use streaming_server.Server.Accepting.{with_sessions, serve_rearms}
use streaming_server.Server.Exits.{main_outcome, main_lem}

-- The tunnel starts, and its log has no address.
abbrev silent : Launch
silent = record { which_result = pos 0; result = pos 0; log = codes "starting" ∷ [] }

abbrev good_start : Start
good_start = record {
  context = none;
  chain_file = none;
  key_file = none;
  ssl_options = none;
  opened = none;
  option_set = none;
  bound = none;
  listened = none;
  directory = none;
  local_port = ok 8080;
  draw = λ k. k;
  launch = silent;
}

abbrev bad_start : Start
bad_start = record good_start { bound = some (codes "in use"); listened = some (codes "closed") }

abbrev quiet_run : List Handler
quiet_run =
    accepts (connects 4 none)
    ∷ accepts (fails (codes "no files"))
    ∷ runs none
    ∷ accepts (connects 5 none)
    ∷ []

-- A client is gone before its address is asked for.
abbrev broken_run : List Handler
broken_run = accepts (connects 4 none) ∷ accepts (connects 5 (some (codes "gone"))) ∷ []

abbrev server : Server
server = listening good_start (codes "../web") []

abbrev calm : Rest
calm = record { others_wait = false; has_playback_session = false }

one_lost_client_ends_the_server : (main good_start broken_run calm).0 ≡ exits 1
unfolding main make_server setup_cloud_tunnel launch_tunnel setup_tunnel find handle_accept
one_lost_client_ends_the_server = refl

start_fails : (main bad_start quiet_run calm).0 ≡ exits 1
unfolding main make_server
start_fails = refl

serve_rearms_example : serve quiet_run server ≡ (ok tt, with_sessions server (4 ∷ 5 ∷ []))
serve_rearms_example = serve_rearms quiet_run server refl refl

main_example :
    (url : Bytes) × (tunnel_url silent ≡ ok url)
    × (main good_start broken_run calm ≡ main_outcome good_start broken_run calm none 8080 url)
main_example = main_lem good_start broken_run calm 8080 refl

make_server_example :
    (url : Bytes) × (tunnel_url silent ≡ ok url)
    × (make_server bad_start (codes "../web") true []
        ≡ start_outcome bad_start (codes "../web") [] (some (codes "in use")) true 8080 url)
make_server_example = make_server_lem bad_start (codes "../web") [] true 8080 refl

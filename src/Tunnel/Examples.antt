-- ===== src/Tunnel/Examples.antt =====
-- A log of the tunnel program, and the theorem about it at work.
use streaming_server.Base.{◌≡◌, refl, true, false, [], ◌∷◌, none, some, inr, arith}
use streaming_server.Outcome.{ok}
use streaming_server.Text.{Bytes, codes}
use streaming_server.Text.Search.{find, starts_with}
use streaming_server.Http.{endpoint}
use streaming_server.Http.Examples.{site}
use streaming_server.Tunnel.{setup_tunnel}
use streaming_server.Tunnel.Address.{logged, tunnel_endpoint}

abbrev line : Bytes
line = logged (codes "wss: ") (codes "u1.tunnel") []

starts_at : find (codes "https://") line ≡ some 5
unfolding find starts_with
starts_at = refl

ends_at : find (codes ".vk-apps.com") line ≡ some 22
unfolding find starts_with
ends_at = refl

-- What the program logs before.
abbrev first_line : Bytes
first_line = codes "see https://vk.com"

starts_without : find (codes ".vk-apps.com") first_line ≡ none
unfolding find starts_with
starts_without = refl

tunnel_endpoint_example :
    (setup_tunnel true false (first_line ∷ line ∷ []) ≡ ok (codes "https://u1.tunnel.vk-apps.com"))
    × (endpoint (record site { tunnel_url = codes "https://u1.tunnel.vk-apps.com" })
        ≡ codes "wss://u1.tunnel.vk-apps.comstream")
tunnel_endpoint_example =
    tunnel_endpoint (codes "wss: ") (codes "u1.tunnel") [] (first_line ∷ []) [] site
      (inr starts_without, tt) (omega arith) starts_at ends_at

-- ===== src/Tunnel/Commands.antt =====
-- src/vk_tunnel.cpp: the shell commands of `is_vk_tunnel_installed`, `setup_tunnel` and `cleanup` on
-- Linux. The commands so far are the state; the results of `system` are arguments.
use streaming_server.Base.{ℕ, Bool, true, false, not, List, [], ◌∷◌, ◌++◌, ◌==◌}
use streaming_server.Base.Int.{ℤ, pos, negsuc}
use streaming_server.Outcome.{Action}
use streaming_server.Outcome.Actions.{pure, lift, modify, ◌>>=◌, ◌>>◌}
use streaming_server.Text.{Bytes, codes}
use streaming_server.Text.Decimal.{to_string}
use streaming_server.Tunnel.{setup_tunnel}

-- The commands, in order.
abbrev pub Commands : Type 0
Commands = List Bytes

abbrev pub system : Bytes → Action Commands (Unit {0})
system command = modify (λ cs. cs ++ command ∷ [])

abbrev pub is_zero : ℤ → Bool
is_zero (pos n) = n == 0
is_zero (negsuc n) = false

abbrev pub which_command : Bytes
which_command = codes "which vk-tunnel > /dev/null 2>&1"

unfoldable pub is_vk_tunnel_installed : ℤ → Action Commands Bool
is_vk_tunnel_installed result = do system which_command; pure (is_zero result)

abbrev pub tunnel_command : ℕ → Bytes
tunnel_command port =
    codes "vk-tunnel --http-protocol=https --ws-protocol=wss --port="
    ++ (to_string port ++ codes " --timeout=5000 --log=stdout > vk_tunnel.log 2>&1 &")

-- The results of the two commands, the second as it stands after five seconds, and the log.
pub record Launch : Type 0 where
  pub which_result : ℤ
  pub result : ℤ
  pub log : List Bytes

abbrev pub launch_installed : Launch → ℕ → Bool → Action Commands Bytes
launch_installed l port false = pure []
launch_installed l port true = do
  system (tunnel_command port)
  lift (setup_tunnel true (not (is_zero l.result)) l.log)

-- `setup_tunnel` with its commands.
unfoldable pub launch_tunnel : Launch → ℕ → Action Commands Bytes
unfolding is_vk_tunnel_installed
launch_tunnel l port = do
  installed ← is_vk_tunnel_installed l.which_result
  launch_installed l port installed

abbrev pub pkill_command : Bytes
pkill_command = codes "pkill vk-tunnel > /dev/null 2>&1"

unfoldable pub cleanup : Action Commands Bool
cleanup = do system pkill_command; system (codes "rm -f vk_tunnel.log > /dev/null 2>&1"); pure true

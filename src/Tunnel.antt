-- ===== src/Tunnel.antt =====
-- src/vk_tunnel.cpp, `setup_tunnel`: the address of the tunnel, taken from the log of its program.
-- Whether the program is installed, whether it failed to start, and what it logs are arguments.
pub mod Address
pub mod Commands
pub mod Total
pub mod Examples
use streaming_server.Base.{
  ℕ, ◌+◌, ◌-◌, ◌%◌, ◌^◌, Bool, not, List, [], ◌∷◌, Option, none, some, if◌then◌else◌,
}
use streaming_server.Outcome.{Try, ok}
use streaming_server.Text.{Bytes, codes, substr}
use streaming_server.Text.Search.{find}

-- `end - start + 14` in `size_t`
abbrev url_length : ℕ → ℕ → ℕ
url_length start end = (end + 2 ^ 64 - start + 14) % 2 ^ 64

abbrev pub scan_line : Bytes → Option ℕ → Option ℕ → Try Bytes → Try Bytes
scan_line line (some start) (some end) rest = substr line start (url_length start end)
scan_line line (some start) none rest = rest
scan_line line none end rest = rest

-- The loop over the lines of the log.
unfoldable pub scan_log : List Bytes → Try Bytes
scan_log [] = ok []
scan_log (line ∷ lines) =
    let rest = scan_log lines in
    scan_line line (find (codes "https://") line) (find (codes ".vk-apps.com") line) rest

unfoldable pub setup_tunnel : Bool → Bool → List Bytes → Try Bytes
unfolding scan_log
setup_tunnel installed failed lines =
    if not installed then ok [] else if failed then ok [] else scan_log lines

-- ===== src/Tunnel/Total.antt =====
-- `setup_tunnel` of src/vk_tunnel.cpp returns whatever the log contains.
use streaming_server.Base.{
  ℕ, ◌≤◌, ◌≡◌, refl, Bool, true, false, List, [], ◌∷◌, Option, none, some, length, ltb, arith, take,
  drop,
}
use streaming_server.Outcome.{Try, ok}
use streaming_server.Text.{Bytes, codes, substr}
use streaming_server.Text.Search.{find, find-le}
use streaming_server.Tunnel.{url_length, scan_line, scan_log, setup_tunnel}

-- The call returns an address.
abbrev pub Returns : Try Bytes → Type 0
Returns t = (url : Bytes) × (t ≡ ok url)

substr-Returns : (s : Bytes) (start count : ℕ) → start ≤ length s → Returns (substr s start count)
unfolding substr
substr-Returns s start count inside =
    let within : ltb (length s) start ≡ false = ground (arith, inside) in
    rw within (take count (drop start s), refl)

scan_line-Returns :
    (line : Bytes) (start end : Option ℕ) (rest : Try Bytes)
    → ((i : ℕ) → start ≡ some i → i ≤ length line)
    → Returns rest
    → Returns (scan_line line start end rest)
scan_line-Returns line (some start) (some end) rest inside v =
    substr-Returns line start (url_length start end) (inside start refl)
scan_line-Returns line (some start) none rest inside v = v
scan_line-Returns line none end rest inside v = v

scan_log-Returns : (log : List Bytes) → Returns (scan_log log)
unfolding scan_log
scan_log-Returns [] = ([], refl)
scan_log-Returns (line ∷ log) =
    scan_line-Returns line (find (codes "https://") line) (find (codes ".vk-apps.com") line)
      (scan_log log) (find-le (codes "https://") line) (scan_log-Returns log)

pub setup_tunnel-Returns :
    (installed failed : Bool) (log : List Bytes) → Returns (setup_tunnel installed failed log)
unfolding setup_tunnel
setup_tunnel-Returns false failed log = ([], refl)
setup_tunnel-Returns true true log = ([], refl)
setup_tunnel-Returns true false log = scan_log-Returns log

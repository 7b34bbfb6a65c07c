-- ===== src/Keys.antt =====
-- src/api_key_manager.cpp: the key of the server. The numbers that the generator draws are an
-- argument.
pub mod Shape
pub mod Examples
use streaming_server.Base.{ℕ, zero, suc, ◌+◌, Bool, [], ◌∷◌, length, get_or, ◌==◌}
use streaming_server.Text.{Bytes, codes}

abbrev pub key_chars : Bytes
key_chars = codes "0123456789ABCDEFGHIJKLMNOPQRSTUVWXYZabcdefghijklmnopqrstuvwxyz"

-- The loop from round `i` on, with `rounds` to go.
unfoldable pub append_chars : (ℕ → ℕ) → ℕ → ℕ → Bytes
append_chars draw zero i = []
append_chars draw (suc rounds) i = get_or key_chars (draw i) 0 ∷ append_chars draw rounds (i + 1)

unfoldable pub generate_key : (ℕ → ℕ) → Bytes
unfolding append_chars
generate_key draw = append_chars draw 32 0

unfoldable pub validate_key : Bytes → Bool
validate_key key = length key == 32

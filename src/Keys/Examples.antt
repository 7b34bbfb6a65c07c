-- ===== src/Keys/Examples.antt =====
-- A key of concrete numbers, and the theorem about keys at work.
use streaming_server.Base.{ℕ, ◌%◌, ◌<◌, ◌≡◌, true, arith}
use streaming_server.Keys.{generate_key, validate_key}
use streaming_server.Keys.Shape.{generate_key-Alphanumeric}

abbrev draws : ℕ → ℕ
draws k = k % 62

draws-lt : (k : ℕ) → draws k < 62
draws-lt k = omega arith

draws_validate : validate_key (generate_key draws) ≡ true
draws_validate = (generate_key-Alphanumeric draws draws-lt).0

-- ===== src/Keys/Shape.antt =====
-- The shape of the keys of src/api_key_manager.cpp.
use streaming_server.Base.{
  ℕ, zero, suc, ◌+◌, ◌<◌, ◌≡◌, refl, Bool, true, ◌&&◌, ◌||◌, [], ◌∷◌, length, get_or, All, leb,
  arith,
}
use streaming_server.Text.{Bytes}
use streaming_server.Keys.{key_chars, append_chars, generate_key, validate_key}

-- A digit, or a letter of either case.
abbrev pub is_alphanumeric : ℕ → Bool
is_alphanumeric b =
    (leb b'0' b && leb b b'9') || (leb b'A' b && leb b b'Z') || (leb b'a' b && leb b b'z')

abbrev pub Alphanumeric : Bytes → Type 0
Alphanumeric = All (λ b. is_alphanumeric b ≡ true)

and_left : (a b : Bool) → a && b ≡ true → a ≡ true
and_left a b h = ground (arith, h)

and_right : (a b : Bool) → a && b ≡ true → b ≡ true
and_right a b h = ground (arith, h)

abbrev all_alphanumeric : Bytes → Bool
all_alphanumeric [] = true
all_alphanumeric (b ∷ s) = is_alphanumeric b && all_alphanumeric s

all→Alphanumeric : (s : Bytes) → all_alphanumeric s ≡ true → Alphanumeric s
all→Alphanumeric [] h = tt
all→Alphanumeric (b ∷ s) h =
    let first : is_alphanumeric b ≡ true = and_left (is_alphanumeric b) (all_alphanumeric s) h in
    (first, all→Alphanumeric s (and_right (is_alphanumeric b) (all_alphanumeric s) h))

get_or-All : (P : ℕ → Type 0) (s : Bytes) (i : ℕ) → All P s → i < length s → P (get_or s i 0)
get_or-All P [] i all h = ground (arith, h)
get_or-All P (x ∷ s) zero all h = all.0
get_or-All P (x ∷ s) (suc i) all h = get_or-All P s i all.1 (omega (arith, h))

length-append_chars : (draw : ℕ → ℕ) (rounds i : ℕ) → length (append_chars draw rounds i) ≡ rounds
unfolding append_chars
length-append_chars draw zero i = refl
length-append_chars draw (suc rounds) i = ground (arith, length-append_chars draw rounds (i + 1))

append_chars-Alphanumeric :
    (draw : ℕ → ℕ) (rounds i : ℕ)
    → ((k : ℕ) → draw k < 62)
    → Alphanumeric (append_chars draw rounds i)
unfolding append_chars
append_chars-Alphanumeric draw zero i below = tt
append_chars-Alphanumeric draw (suc rounds) i below = (
  get_or-All (λ b. is_alphanumeric b ≡ true) key_chars (draw i) (all→Alphanumeric key_chars refl)
      (below i),
  append_chars-Alphanumeric draw rounds (i + 1) below,
)

-- When the generator draws numbers below 62, a generated key passes `validate_key` and has digits
-- and letters only.
pub generate_key-Alphanumeric :
    (draw : ℕ → ℕ)
    → ((k : ℕ) → draw k < 62)
    → (validate_key (generate_key draw) ≡ true) × Alphanumeric (generate_key draw)
unfolding generate_key validate_key
generate_key-Alphanumeric draw below =
    (ground (arith, length-append_chars draw 32 0), append_chars-Alphanumeric draw 32 0 below)

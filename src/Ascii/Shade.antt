-- ===== src/Ascii/Shade.antt =====
-- The table of characters: src/ascii_converter.cpp, from grey value to character.
use streaming_server.Base.{
  ℕ, zero, suc, ◌+◌, ◌-◌, ◌*◌, ◌/◌, ◌≤◌, ◌<◌, ◌≡◌, ◌∙◌, arith, length, get_or,
}
use native.Mathlib.Decide.{dec_lt}
use streaming_server.Text.{Bytes}
use streaming_server.Ascii.{char_index, fill_lut, lut}

-- With at least one character the clamp never cuts.
pub char_index_unclamped :
    (n i : ℕ) → 0 < n → i < 256 → char_index n i ≡ (2 * (i * (n - 1)) + 255) / 510
unfolding char_index
char_index_unclamped n i h k = grind arith

product_le : (m i : ℕ) → i < 256 → i * m ≤ 255 * m
product_le m i h = grind arith

-- For `n` characters the grey value `i` of 0 to 255 gets the character whose place is nearest to
-- `i * (n - 1) / 255`: the place lies below `n`, and 510 times it differs from twice
-- `i * (n - 1)` by 255 at most.
pub char_index_nearest :
    (n i : ℕ)
    → 0 < n
    → i < 256
    → (char_index n i < n)
      × (510 * char_index n i ≤ 2 * (i * (n - 1)) + 255)
      × (2 * (i * (n - 1)) ≤ 510 * char_index n i + 255)
char_index_nearest n i h k =
    rw (char_index_unclamped n i h k) (omega (arith, product_le (n - 1) i k))

-- A brighter pixel never gets an earlier character, black gets the first and white the last.
pub char_index_mono :
    (n i j : ℕ)
    → 0 < n
    → i ≤ j
    → j < 256
    → (char_index n i ≤ char_index n j) × (char_index n 0 ≡ 0) × (char_index n 255 ≡ n - 1)
char_index_mono n i j h le k =
    rw
      (
        char_index_unclamped n i h (omega arith),
        char_index_unclamped n j h k,
        char_index_unclamped n 0 h (omega arith),
        char_index_unclamped n 255 h (omega arith),
      )
      (grind arith, omega arith, omega arith)

fill_lut-get :
    (rounds i k : ℕ) (chars : Bytes)
    → k < rounds
    → get_or (fill_lut rounds i chars) k 0 ≡ get_or chars (char_index (length chars) (i + k)) 0
unfolding fill_lut
fill_lut-get zero i k chars h = elim h [ ]
fill_lut-get (suc r) i zero chars h = let e : i + 0 ≡ i = omega arith in rw e
fill_lut-get (suc r) i (suc k) chars h =
    let e : i + 1 + k ≡ i + suc k = omega arith in
    fill_lut-get r (i + 1) k chars (omega arith) ∙ (rw e)

-- Entry `v` of the table is the character at the place of the grey value `v`.
pub lut_entry :
    (chars : Bytes) (v : ℕ)
    → v < 256
    → get_or (lut chars) v 0 ≡ get_or chars (char_index (length chars) v) 0
unfolding lut
lut_entry chars v h = let e : 0 + v ≡ v = omega arith in fill_lut-get 256 0 v chars h ∙ (rw e)

-- A grey value that shows the character at place `k`.
abbrev pub grey_for : ℕ → ℕ → ℕ
grey_for n k = (510 * k + (n - 1)) / (2 * (n - 1))

div_bounds : (a b : ℕ) → 0 < b → (a / b * b ≤ a) × (a < a / b * b + b)
div_bounds a b h = grind arith

-- A grey value within half a step of the place `k` of `m + 1` characters.
grey_in_range : (m k i : ℕ) → 0 < m → k ≤ m → i * (2 * m) ≤ 510 * k + m → i < 256
grey_in_range m k i h hk b = elim (dec_lt i 256) [
  | yes p ↦ p
  | no p ↦ let far : 256 * m ≤ i * m = grind arith in absurd (omega (arith, far))
]

place_of_grey :
    (m k i : ℕ)
    → m ≤ 255
    → i * (2 * m) ≤ 510 * k + m
    → 510 * k + m < i * (2 * m) + 2 * m
    → (2 * (i * m) + 255) / 510 ≡ k
place_of_grey m k i hm lo hi = elim (dec_lt m 255) [
  | yes p ↦ omega arith
  | no p ↦
      let e : m ≡ 255 = omega arith in
      let lo' : i * (2 * 255) ≤ 510 * k + 255 = rw e at lo in
      let hi' : 510 * k + 255 < i * (2 * 255) + 2 * 255 = rw e at hi in
      rw e (omega (arith, lo', hi'))
]

-- With 2 to 256 characters none is left out: each place `k` below `n` is the place of some grey
-- value below 256.
pub char_index_onto :
    (n k : ℕ) → 1 < n → n ≤ 256 → k < n → (grey_for n k < 256) × (char_index n (grey_for n k) ≡ k)
char_index_onto n k h big hk =
    let b = div_bounds (510 * k + (n - 1)) (2 * (n - 1)) (omega arith) in
    let low = grey_in_range (n - 1) k (grey_for n k) (omega arith) (omega arith) b.0 in
    (
      low,
      char_index_unclamped n (grey_for n k) (omega arith) low
          ∙ place_of_grey (n - 1) k (grey_for n k) (omega arith) b.0 b.1,
    )

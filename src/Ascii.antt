-- ===== src/Ascii.antt =====
-- src/ascii_converter.cpp: a camera frame as lines of characters. OpenCV's matrices and the two
-- calls on them are a parameter.
pub mod Shade
pub mod Layout
pub mod Examples
use streaming_server.Base.{
  ℕ, zero, suc, ◌+◌, ◌-◌, ◌*◌, ◌/◌, ◌<◌, ◌≡◌, Bool, true, false, List, [], ◌∷◌, ◌++◌, ltb,
  if◌then◌else◌, length, get_or, take,
}
use streaming_server.Base.Int.{ℤ, pos}
use streaming_server.Outcome.{Try, ok, throw, ◌>>=◌}
use streaming_server.Text.{Bytes, codes}

-- `cv::Mat` with `empty`, `cvtColor(COLOR_BGR2GRAY)`, `resize` and the 8-bit pixels. `resize`
-- throws where a side is not positive, and gives the size that it was asked for.
pub record OpenCv : Type 1 where
  pub Mat : Type 0
  pub empty : Mat → Bool
  pub to_gray : Mat → Mat
  pub resize : Mat → ℤ → ℤ → Try Mat
  pub rows : Mat → ℕ
  pub cols : Mat → ℕ
  pub pixel : Mat → ℕ → ℕ → ℕ
  pub pixel-lt : (m : Mat) (y x : ℕ) → pixel m y x < 256
  pub rows-resize : (m r : Mat) (w h : ℕ) → resize m (pos w) (pos h) ≡ ok r → rows r ≡ h
  pub cols-resize : (m r : Mat) (w h : ℕ) → resize m (pos w) (pos h) ≡ ok r → cols r ≡ w

pub record AsciiConverter : Type 0 where
  pub ascii_chars : Bytes

abbrev pub default_chars : Bytes
default_chars = codes "@%#*+=-:. "

unfoldable pub set_ascii_chars : Bytes → AsciiConverter → AsciiConverter
set_ascii_chars chars c = record c { ascii_chars = chars }

-- `std::clamp(v, lo, hi)`
abbrev clamp : ℕ → ℕ → ℕ → ℕ
clamp v lo hi = if ltb v lo then lo else if ltb hi v then hi else v

-- `i / (255.0 / (num_chars - 1)) + 0.5`, cut to an integer. The quotient is never half-way between
-- two integers (2 * i * (num_chars - 1) is even and 255 is odd), so `double` rounds to this too. The
-- source casts the index and `num_chars - 1` to `int`, which agrees as long as there are at most 2^31
-- characters; the program sets ten.
pub char_index : ℕ → ℕ → ℕ
char_index num_chars i = clamp ((2 * (i * (num_chars - 1)) + 255) / 510) 0 (num_chars - 1)

-- The loop that fills `lut[i]` and on, `rounds` entries.
pub fill_lut : ℕ → ℕ → Bytes → Bytes
unfolding char_index
fill_lut zero i chars = []
fill_lut (suc rounds) i chars =
    get_or chars (char_index (length chars) i) 0 ∷ fill_lut rounds (i + 1) chars

pub lut : Bytes → Bytes
unfolding fill_lut
lut chars = fill_lut 256 0 chars

module _ (cv : OpenCv) where
  open cv use {Mat, empty, to_gray, resize, rows, cols, pixel}

  -- The inner loop, from column `x` on with `left` columns to go.
  pub convert_row : Bytes → Mat → ℕ → ℕ → ℕ → Bytes
  convert_row table m y zero x = []
  convert_row table m y (suc left) x =
      get_or table (pixel m y x) 0 ∷ convert_row table m y left (x + 1)

  -- The outer loop, from row `y` on with `left` rows to go.
  pub convert_rows : Bytes → Mat → ℕ → ℕ → Bytes
  convert_rows table m zero y = []
  convert_rows table m (suc left) y =
      convert_row table m y (cols m) 0 ++ (10 ∷ convert_rows table m left (y + 1))

  unfoldable pub convert : AsciiConverter → Mat → ℤ → ℤ → Try Bytes
  convert c frame output_width output_height =
      if empty frame
      then ok []
      else if ltb 0 (length c.ascii_chars)
      then (do
        processed ← resize (to_gray frame) output_width output_height
        ok (convert_rows (lut c.ascii_chars) processed (rows processed) 0))
      else ok (codes "CONFIG ERROR")

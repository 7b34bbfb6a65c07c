-- ===== src/Ascii/Examples.antt =====
-- Tests of the ASCII converter, after tests/src/test_ascii_converter.cpp, and its theorems at work.
use Prim.Native.Nat.{◌%◌}
use streaming_server.Base.{
  ℕ, ◌+◌, ◌-◌, ◌*◌, ◌≤◌, ◌<◌, ◌≡◌, refl, [], ◌∷◌, some, arith, length, get_or, get_elem?, ◌==◌,
}
use streaming_server.Base.Int.{ℤ, pos}
use streaming_server.Outcome.{Try, ok, throw, runtime_error}
use streaming_server.Text.{Bytes, codes}
use streaming_server.Ascii.{
  OpenCv, AsciiConverter, set_ascii_chars, char_index, lut, convert_row, convert_rows, convert,
}
use streaming_server.Ascii.Shade.{char_index_nearest}
use streaming_server.Ascii.Layout.{convert_layout}

pub record Grid : Type 0 where
  pub height : ℕ
  pub width : ℕ
  pub at : ℕ → ℕ → ℕ

-- The size changes and the pixels stay: enough for frames that have the size asked for.
abbrev resize_grid : Grid → ℤ → ℤ → Try Grid
resize_grid m (pos w) (pos h) = ok (record m { height = h; width = w })
resize_grid m _ _ = throw (runtime_error (codes "resize"))

pub rows_resize_grid : (m r : Grid) (w h : ℕ) → resize_grid m (pos w) (pos h) ≡ ok r → r.height ≡ h
rows_resize_grid m r w h e = ground arith

pub cols_resize_grid : (m r : Grid) (w h : ℕ) → resize_grid m (pos w) (pos h) ≡ ok r → r.width ≡ w
cols_resize_grid m r w h e = ground arith

pub pixel_grid-lt : (m : Grid) (y x : ℕ) → m.at y x % 256 < 256
pixel_grid-lt m y x = omega arith

abbrev pub grids : OpenCv
grids = record {
  Mat = Grid;
  empty = λ m. m.height == 0;
  to_gray = λ m. m;
  resize = resize_grid;
  rows = λ m. m.height;
  cols = λ m. m.width;
  pixel = λ m y x. m.at y x % 256;
  pixel-lt = pixel_grid-lt;
  rows-resize = rows_resize_grid;
  cols-resize = cols_resize_grid;
}

abbrev pub test_image : Grid
test_image = record {
  height = 2;
  width = 2;
  at = λ y x. get_or (0 ∷ 127 ∷ 191 ∷ 255 ∷ []) (y * 2 + x) 0;
}

abbrev pub ten_chars : AsciiConverter
ten_chars = record { ascii_chars = codes "@%#*+=-:. " }

pub converts_grayscale : convert grids ten_chars test_image (pos 2) (pos 2) ≡ ok (codes "@+\n: \n")
unfolding convert convert_rows convert_row lut
converts_grayscale = refl

different_character_set :
    convert grids (set_ascii_chars (codes "01") ten_chars) test_image (pos 2) (pos 2)
    ≡ ok (codes "00\n11\n")
unfolding convert convert_rows convert_row lut set_ascii_chars
different_character_set = refl

no_characters :
    convert grids (set_ascii_chars [] ten_chars) test_image (pos 2) (pos 2)
    ≡ ok (codes "CONFIG ERROR")
unfolding convert set_ascii_chars
no_characters = refl

char_index_nearest_example :
    (char_index 10 127 < 10)
    × (510 * char_index 10 127 ≤ 2 * (127 * (10 - 1)) + 255)
    × (2 * (127 * (10 - 1)) ≤ 510 * char_index 10 127 + 255)
char_index_nearest_example = char_index_nearest 10 127 (omega arith) (omega arith)

convert_layout_example :
    (text : Bytes) × (convert grids ten_chars test_image (pos 2) (pos 2) ≡ ok text)
    × (length text ≡ 2 * (2 + 1))
    × ((y x : ℕ)
        → y < 2
        → x < 2
        → get_elem? text (y * (2 + 1) + x)
          ≡ some (get_or ten_chars.ascii_chars (char_index 10 (test_image.at y x % 256)) 0))
    × ((y : ℕ) → y < 2 → get_elem? text (y * (2 + 1) + 2) ≡ some 10)
convert_layout_example =
    convert_layout grids ten_chars test_image test_image 2 2 refl (omega arith) refl

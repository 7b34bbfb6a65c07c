-- ===== src/Ascii/Layout.antt =====
-- The text of a frame: src/ascii_converter.cpp, `convert`.
use streaming_server.Base.{
  ℕ, zero, suc, ◌+◌, ◌*◌, ◌<◌, ◌≡◌, refl, ◌∙◌, false, List, [], ◌∷◌, ◌++◌, some, arith, length,
  length-append, get_or, get_elem?, lt→ltb,
}
use streaming_server.Base.Int.{pos}
use streaming_server.Outcome.{ok}
use streaming_server.Text.{Bytes}
use streaming_server.Ascii.{
  OpenCv, AsciiConverter, char_index, lut, convert_row, convert_rows, convert,
}
use streaming_server.Ascii.Shade.{lut_entry}

get_elem?-append_left {ℓ} :
    {A : Type ℓ} (xs ys : List A) (i : ℕ) → i < length xs → get_elem? (xs ++ ys) i ≡ get_elem? xs i
get_elem?-append_left [] ys i h = elim h [ ]
get_elem?-append_left (x ∷ xs) ys zero h = refl
get_elem?-append_left (x ∷ xs) ys (suc i) h = get_elem?-append_left xs ys i (omega arith)

get_elem?-append_right {ℓ} :
    {A : Type ℓ} (xs ys : List A) (i : ℕ) → get_elem? (xs ++ ys) (length xs + i) ≡ get_elem? ys i
get_elem?-append_right [] ys i = let e : 0 + i ≡ i = omega arith in rw e
get_elem?-append_right (x ∷ xs) ys i =
    let e : suc (length xs) + i ≡ suc (length xs + i) = omega arith in
    rw e (get_elem?-append_right xs ys i)

module _ (cv : OpenCv) where
  open cv use {Mat, empty, to_gray, resize, rows, cols, pixel, pixel-lt}

  length-convert_row :
      (t : Bytes) (m : Mat) (y left x : ℕ) → length (convert_row cv t m y left x) ≡ left
  unfolding convert_row
  length-convert_row t m y zero x = refl
  length-convert_row t m y (suc l) x = omega (arith, length-convert_row t m y l (x + 1))

  convert_row-get :
      (t : Bytes) (m : Mat) (y left x k : ℕ)
      → k < left
      → get_elem? (convert_row cv t m y left x) k ≡ some (get_or t (pixel m y (x + k)) 0)
  unfolding convert_row
  convert_row-get t m y zero x k h = elim h [ ]
  convert_row-get t m y (suc l) x zero h = let e : x + 0 ≡ x = omega arith in rw e
  convert_row-get t m y (suc l) x (suc k) h =
      let e : x + 1 + k ≡ x + suc k = omega arith in
      convert_row-get t m y l (x + 1) k (omega arith) ∙ (rw e)

  length-convert_rows :
      (t : Bytes) (m : Mat) (left y : ℕ) → length (convert_rows cv t m left y) ≡ left * (cols m + 1)
  unfolding convert_rows
  length-convert_rows t m zero y = omega arith
  length-convert_rows t m (suc l) y = omega (
    arith,
    length-append (convert_row cv t m y (cols m) 0) (10 ∷ convert_rows cv t m l (y + 1)),
    length-convert_row t m y (cols m) 0,
    length-convert_rows t m l (y + 1),
  )

  convert_rows-get_char :
      (t : Bytes) (m : Mat) (left y k x : ℕ)
      → k < left
      → x < cols m
      → get_elem? (convert_rows cv t m left y) (k * (cols m + 1) + x)
        ≡ some (get_or t (pixel m (y + k) x) 0)
  unfolding convert_rows
  convert_rows-get_char t m zero y k x h hx = elim h [ ]
  convert_rows-get_char t m (suc l) y zero x h hx =
      let e : 0 * (cols m + 1) + x ≡ x = omega arith in
      let e' : y + 0 ≡ y = omega arith in
      let e'' : 0 + x ≡ x = omega arith in
      rw (e, e')
        (get_elem?-append_left (convert_row cv t m y (cols m) 0) _ x
            (omega (arith, length-convert_row t m y (cols m) 0))
          ∙ convert_row-get t m y (cols m) 0 x hx
          ∙ (rw e''))
  convert_rows-get_char t m (suc l) y (suc k) x h hx =
      let row = convert_row cv t m y (cols m) 0 in
      let e : suc k * (cols m + 1) + x ≡ length row + suc (k * (cols m + 1) + x) =
        omega (arith, length-convert_row t m y (cols m) 0) in
      let e' : y + 1 + k ≡ y + suc k = omega arith in
      rw e (
        get_elem?-append_right row (10 ∷ convert_rows cv t m l (y + 1)) (suc (k * (cols m + 1) + x))
        ∙ convert_rows-get_char t m l (y + 1) k x (omega arith) hx
        ∙ (rw e'))

  convert_rows-get_newline :
      (t : Bytes) (m : Mat) (left y k : ℕ)
      → k < left
      → get_elem? (convert_rows cv t m left y) (k * (cols m + 1) + cols m) ≡ some 10
  unfolding convert_rows
  convert_rows-get_newline t m zero y k h = elim h [ ]
  convert_rows-get_newline t m (suc l) y zero h =
      let row = convert_row cv t m y (cols m) 0 in
      let e : 0 * (cols m + 1) + cols m ≡ length row + 0 =
        omega (arith, length-convert_row t m y (cols m) 0) in
      rw e (get_elem?-append_right row (10 ∷ convert_rows cv t m l (y + 1)) 0)
  convert_rows-get_newline t m (suc l) y (suc k) h =
      let row = convert_row cv t m y (cols m) 0 in
      let e : suc k * (cols m + 1) + cols m ≡ length row + suc (k * (cols m + 1) + cols m) =
        omega (arith, length-convert_row t m y (cols m) 0) in
      rw e (
        get_elem?-append_right row (10 ∷ convert_rows cv t m l (y + 1))
          (suc (k * (cols m + 1) + cols m))
        ∙ convert_rows-get_newline t m l (y + 1) k (omega arith))

  module _ (c : AsciiConverter) (frame processed : Mat) (w h : ℕ) (has_frame : empty frame ≡ false)
      (has_chars : 0 < length c.ascii_chars)
      (resized : resize (to_gray frame) (pos w) (pos h) ≡ ok processed) where
    -- The text that a successful conversion returns.
    convert-eq :
        convert cv c frame (pos w) (pos h) ≡ ok (convert_rows cv (lut c.ascii_chars) processed h 0)
    unfolding convert
    convert-eq = rw (has_frame, lt→ltb _ _ has_chars, resized, cv.rows-resize _ _ _ _ resized)

    -- A frame that OpenCV scales to `w` by `h` becomes a text of `h * (w + 1)` bytes: byte `x` of
    -- line `y` is the character at the place of the scaled pixel's grey value, and a line break
    -- ends each line.
    pub convert_layout :
        (text : Bytes) × (convert cv c frame (pos w) (pos h) ≡ ok text)
        × (length text ≡ h * (w + 1))
        × ((y x : ℕ)
            → y < h
            → x < w
            → get_elem? text (y * (w + 1) + x)
              ≡ some (
                  get_or c.ascii_chars (char_index (length c.ascii_chars) (pixel processed y x)) 0))
        × ((y : ℕ) → y < h → get_elem? text (y * (w + 1) + w) ≡ some 10)
    convert_layout = (
      text,
      convert-eq,
      rw (← wide) (length-convert_rows (lut c.ascii_chars) processed h 0),
      λ y x hy hx.
          let e : 0 + y ≡ y = omega arith in
          rw (← wide) (
            convert_rows-get_char (lut c.ascii_chars) processed h 0 y x hy (rw wide hx)
            ∙ (rw (e, lut_entry c.ascii_chars _ (pixel-lt processed y x)))),
      λ y hy. rw (← wide) (convert_rows-get_newline (lut c.ascii_chars) processed h 0 y hy),
    )
      where
        text : Bytes
        text = convert_rows cv (lut c.ascii_chars) processed h 0

        wide : cols processed ≡ w
        wide = cv.cols-resize _ _ _ _ resized

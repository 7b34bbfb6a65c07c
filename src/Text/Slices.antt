-- ===== src/Text/Slices.antt =====
-- `substr` of the parts before and behind a byte.
use streaming_server.Base.{
  ℕ, ◌+◌, ◌≤◌, ◌≡◌, false, ◌∷◌, ◌++◌, length, length-append, take-length-append, drop-length-cons,
  take_all, ltb, arith,
}
use streaming_server.Outcome.{ok}
use streaming_server.Text.{Bytes, substr}

pub substr_front : (xs ys : Bytes) → substr (xs ++ ys) 0 (length xs) ≡ ok xs
unfolding substr
substr_front xs ys =
    let e : ltb (length (xs ++ ys)) 0 ≡ false = ground arith in rw (e, take-length-append xs ys)

pub substr_back :
    (xs ys : Bytes) (c count : ℕ)
    → length ys ≤ count
    → substr (xs ++ c ∷ ys) (length xs + 1) count ≡ ok ys
unfolding substr
substr_back xs ys c count h =
    let e : ltb (length (xs ++ c ∷ ys)) (length xs + 1) ≡ false =
      ground (arith, length-append xs (c ∷ ys)) in
    rw (e, drop-length-cons xs ys c, take_all count ys h)

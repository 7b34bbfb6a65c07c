-- ===== src/Files/Lines.antt =====
-- Reading a line or a block from a stream that is good.
use streaming_server.Base.{
  ℕ, ◌+◌, ◌<◌, ◌≡◌, refl, true, false, [], ◌∷◌, ◌++◌, none, some, arith, length, length-append,
  length-drop, leb, take-length-append, drop-length-append, drop-length-cons, Option, Bool-cases,
  inl, inr, ap, ◌||◌,
}
use streaming_server.Text.{Bytes}
use streaming_server.Text.Search.{find_char, find_char_at, Lacks}
use streaming_server.Files.{InFile, Line, take_line, getline, read, ignore_one}

-- An open stream with no state bit set.
abbrev pub good : Bytes → Bytes → InFile
good whole rest = record { is_open = true; whole = whole; rest = rest; eof = false; fail = false }

take_line_at :
    (xs ys : Bytes) (w : Bytes)
    → Lacks 10 xs
    → getline (good w (xs ++ 10 ∷ ys)) ≡ record { text = some xs; file = good w ys }
unfolding getline
take_line_at [] ys w h = rw (find_char_at 10 [] ys h)
take_line_at (x ∷ xs) ys w h = rw (
  find_char_at 10 (x ∷ xs) ys h,
  take-length-append (x ∷ xs) (10 ∷ ys),
  drop-length-cons (x ∷ xs) ys 10,
)

-- A good stream gives the bytes up to the next line break.
pub getline-good :
    (whole xs ys : Bytes)
    → Lacks 10 xs
    → getline (good whole (xs ++ 10 ∷ ys)) ≡ record { text = some xs; file = good whole ys }
getline-good whole xs ys h = take_line_at xs ys whole h

pub read-good :
    (whole xs ys : Bytes)
    → read (length xs) (good whole (xs ++ ys)) ≡ record { bytes = xs; file = good whole ys }
unfolding read
read-good whole xs ys =
    let e : leb (length xs) (length (xs ++ ys)) ≡ true = ground (arith, length-append xs ys) in
    rw (e, take-length-append xs ys, drop-length-append xs ys)

pub ignore_one-good : (whole ys : Bytes) (c : ℕ) → ignore_one (good whole (c ∷ ys)) ≡ good whole ys
unfolding ignore_one
ignore_one-good whole ys c = refl

take_line-shorter :
    (s : Bytes) (at : Option ℕ) (f : InFile) (line : Bytes)
    → (take_line s at f).text ≡ some line
    → length (take_line s at f).file.rest < length s
take_line-shorter [] at f line h = cc
take_line-shorter (c ∷ s) none f line h = omega arith
take_line-shorter (c ∷ s) (some i) f line h = omega (arith, length-drop (i + 1) (c ∷ s))

-- A line that was read leaves less to read than there was.
pub getline-shorter :
    (f : InFile) (line : Bytes)
    → (getline f).text ≡ some line
    → length (getline f).file.rest < length f.rest
unfolding getline
getline-shorter f line h = elim (Bool-cases (f.fail || f.eof)) [
  | inl bad ↦ cc (ap (λ (l : Line). l.text) (ended bad), h)
  | inr fine ↦
      let h' : (take_line f.rest (find_char 10 f.rest) f).text ≡ some line = rw fine at h in
      rw fine (take_line-shorter f.rest (find_char 10 f.rest) f line h')
]
  where
    ended :
        (f.fail || f.eof) ≡ true
        → getline f ≡ record { text = none; file = record f { fail = true } }
    ended bad = rw bad

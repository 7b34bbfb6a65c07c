-- ===== src/Files.antt =====
-- `std::ofstream` and `std::ifstream` as src/record_controller.cpp and src/playback_controller.cpp
-- use them: what is written, what is left to read, and the state bits of the stream.
pub mod Lines
use streaming_server.Base.{
  ℕ, ◌+◌, ◌-◌, ◌^◌, Bool, true, false, not, ◌||◌, List, [], ◌∷◌, ◌++◌, Option, none, some, ltb, leb,
  if◌then◌else◌, length, take, drop, replicate,
}
use streaming_server.Text.{Bytes}
use streaming_server.Text.Search.{find_char}

-- `written` is the file's content. Writing itself does not fail (a full disk is not modelled).
pub record OutFile : Type 0 where
  pub is_open : Bool
  pub failed : Bool
  pub written : Bytes

-- `open` for writing truncates; on an open stream it fails and the old file stays.
unfoldable pub open_out : Bool → OutFile → OutFile
open_out can_open f =
    if f.is_open
    then record f { failed = true }
    else if can_open
    then record { is_open = true; failed = false; written = [] }
    else record f { failed = true }

unfoldable pub write : Bytes → OutFile → OutFile
write text f =
    if not f.is_open || f.failed
    then record f { failed = true }
    else record f { written = f.written ++ text }

unfoldable pub close_out : OutFile → OutFile
close_out f = record f { is_open = false; failed = f.failed || not f.is_open }

-- `rest` is what the read position has before it. Of a closed file nothing is left.
pub record InFile : Type 0 where
  pub is_open : Bool
  pub whole : Bytes
  pub rest : Bytes
  pub eof : Bool
  pub fail : Bool

abbrev pub closed_file : InFile
closed_file = record { is_open = false; whole = []; rest = []; eof = false; fail = false }

-- The files on the disk, by path.
abbrev pub Disk : Type 0
Disk = Bytes → Option Bytes

abbrev opened : Option Bytes → InFile → InFile
opened none f = record f { fail = true }
opened (some content) f = record {
  is_open = true;
  whole = content;
  rest = content;
  eof = false;
  fail = false;
}

-- `open` clears the state bits when it succeeds; on an open stream it fails.
unfoldable pub open_in : Disk → Bytes → InFile → InFile
open_in disk name f = if f.is_open then record f { fail = true } else opened (disk name) f

unfoldable pub close_in : InFile → InFile
close_in f = record f { is_open = false; rest = []; fail = f.fail || not f.is_open }

-- What `getline` leaves: the line, if the stream is good after it, and the stream.
pub record Line : Type 0 where
  pub text : Option Bytes
  pub file : InFile

abbrev take_line : Bytes → Option ℕ → InFile → Line
take_line [] at f = record { text = none; file = record f { eof = true; fail = true } }
take_line (c ∷ s) none f = record { text = some (c ∷ s); file = record f { rest = []; eof = true } }
take_line (c ∷ s) (some i) f = record {
  text = some (take i (c ∷ s));
  file = record f { rest = drop (i + 1) (c ∷ s) };
}

unfoldable pub getline : InFile → Line
getline f =
    if f.fail || f.eof
    then record { text = none; file = record f { fail = true } }
    else take_line f.rest (find_char 10 f.rest) f

-- `seekg(0, end)` and `seekg(0, beg)` clear `eof`, and do nothing to a failed stream.
unfoldable pub seek_end : InFile → InFile
seek_end f = if f.fail then record f { eof = false } else record f { eof = false; rest = [] }

unfoldable pub seek_begin : InFile → InFile
seek_begin f = if f.fail then record f { eof = false } else record f { eof = false; rest = f.whole }

-- `tellg` as a `size_t`: the position, or -1 of a failed stream.
unfoldable pub tell : InFile → ℕ
tell f = if f.fail then 2 ^ 64 - 1 else length f.whole - length f.rest

-- `read(&s[0], n)` into a string of `n` zero bytes.
pub record Block : Type 0 where
  pub bytes : Bytes
  pub file : InFile

unfoldable pub read : ℕ → InFile → Block
read n f =
    if f.fail || f.eof
    then record { bytes = replicate n 0; file = record f { fail = true } }
    else if leb n (length f.rest)
    then record { bytes = take n f.rest; file = record f { rest = drop n f.rest } }
    else record {
      bytes = f.rest ++ replicate (n - length f.rest) 0;
      file = record f { rest = []; eof = true; fail = true };
    }

abbrev skip : Bytes → InFile → InFile
skip [] f = record f { eof = true }
skip (c ∷ s) f = record f { rest = s }

-- `ignore(1)`
unfoldable pub ignore_one : InFile → InFile
ignore_one f = if f.fail || f.eof then record f { fail = true } else skip f.rest f

-- ===== src/Http/Listing.antt =====
-- The list of recordings of src/http_session.cpp.
use streaming_server.Base.{
  ℕ, ◌+◌, ◌≡◌, refl, ap, Bool, true, ◌&&◌, List, [], ◌∷◌, ◌++◌, Option, none, some, ◌==◌,
  if◌then◌else◌, take, drop,
}
use streaming_server.Base.Int.{ℤ}
use streaming_server.Outcome.{Exception, Try, ok, throw, ◌>>=◌}
use streaming_server.Text.{Bytes, codes, bytes_eq}
use streaming_server.Text.Search.{find_char, ends_in}
use streaming_server.Text.Decimal.{stoi}

-- An entry of the directory. `contents` is `none` if the file cannot be opened.
pub record DirEntry : Type 0 where
  pub name : Bytes
  pub is_regular : Bool
  pub size : ℕ
  pub last_modified : ℤ
  pub contents : Option Bytes

-- The object that is listed; a key that is not set is `none`.
pub record FileInfo : Type 0 where
  pub filename : Bytes
  pub size : ℕ
  pub last_modified : ℤ
  pub timestamp : Option Bytes
  pub duration : Option ℤ
  pub frame_count : Option ℤ

abbrev cons_line : ℕ → List Bytes → List Bytes
cons_line b [] = (b ∷ []) ∷ []
cons_line b (line ∷ lines) = (b ∷ line) ∷ lines

-- The lines that `std::getline` gives one after the other.
unfoldable pub lines_of : Bytes → List Bytes
lines_of [] = []
lines_of (b ∷ bs) = let rest = lines_of bs in if b == 10 then [] ∷ rest else cons_line b rest

abbrev set_key : Bytes → Bytes → FileInfo → Try FileInfo
set_key key value info =
    if bytes_eq key (codes "timestamp")
    then ok (record info { timestamp = some value })
    else if bytes_eq key (codes "end_time")
    then (do n ← stoi value; ok (record info { duration = some n }))
    else if bytes_eq key (codes "frame_count")
    then (do n ← stoi value; ok (record info { frame_count = some n }))
    else ok info

abbrev info_line : Bytes → Option ℕ → FileInfo → Try FileInfo
info_line line none info = ok info
info_line line (some colon) info = set_key (take colon line) (drop (colon + 1) line) info

-- The loop over the lines up to "frames:".
unfoldable pub read_info : List Bytes → FileInfo → Try FileInfo
read_info [] info = ok info
read_info (line ∷ lines) info =
    if bytes_eq line (codes "frames:")
    then ok info
    else do info' ← info_line line (find_char b':' line) info; read_info lines info'

abbrev no_header : List Bytes → List Bytes
no_header [] = []
no_header (line ∷ lines) = lines

abbrev read_contents : Option Bytes → FileInfo → Try FileInfo
read_contents none info = ok info
read_contents (some contents) info = read_info (no_header (lines_of contents)) info

unfoldable pub file_info : DirEntry → Try FileInfo
unfolding read_info lines_of
file_info e = read_contents e.contents (record {
  filename = e.name;
  size = e.size;
  last_modified = e.last_modified;
  timestamp = none;
  duration = none;
  frame_count = none;
})

abbrev pub is_recording_file : DirEntry → Bool
is_recording_file e = e.is_regular && ends_in (codes ".asr") e.name

abbrev push_info : Try FileInfo → List FileInfo → List FileInfo
push_info (ok info) rest = info ∷ rest
push_info (throw e) rest = []

-- An exception ends the loop over the directory; what is listed by then stays.
unfoldable pub list_entries : List DirEntry → List FileInfo
unfolding file_info
list_entries [] = []
list_entries (e ∷ es) =
    let rest = list_entries es in if is_recording_file e then push_info (file_info e) rest else rest

unfoldable pub listing : Option (List DirEntry) → List FileInfo
unfolding list_entries
listing none = []
listing (some es) = list_entries es

-- A recording whose metadata cannot be read as numbers is not listed, and neither is any file that
-- the directory gives behind it.
pub damaged_file_hides_rest :
    (es later : List DirEntry) (bad : DirEntry) (e : Exception)
    → is_recording_file bad ≡ true
    → file_info bad ≡ throw e
    → list_entries (es ++ bad ∷ later) ≡ list_entries es
unfolding list_entries
damaged_file_hides_rest [] later bad e r t = rw (r, t) refl
damaged_file_hides_rest (x ∷ es) later bad e r t =
    ap (λ rest. if is_recording_file x then push_info (file_info x) rest else rest)
      (damaged_file_hides_rest es later bad e r t)

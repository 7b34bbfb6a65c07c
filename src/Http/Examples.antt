-- ===== src/Http/Examples.antt =====
-- Requests on concrete input, and the theorems about them at work.
use streaming_server.Base.{◌≡◌, ◌≢◌, refl, true, false, [], ◌∷◌, ◌++◌, none, some, List}
use streaming_server.Base.Int.{pos}
use streaming_server.Outcome.{throw, invalid_argument, runtime_error}
use streaming_server.Text.{Bytes, codes, bytes_eq}
use streaming_server.Text.Search.{find, find_char, starts_with, ends_in}
use streaming_server.Text.Decimal.{stoi}
use streaming_server.Http.{
  ok_200, text, get, delete_, Surroundings, delete_recording, handle_request, recordings_prefix,
  get_mime_type,
}
use streaming_server.Http.Listing.{
  DirEntry, is_recording_file, file_info, read_info, lines_of, list_entries,
  damaged_file_hides_rest,
}
use streaming_server.Http.Connection.{
  new_session, shakes_hands, requests, upgrades_request, Arrival, arrive_all,
}
use streaming_server.Http.Once.{answered, Meets, arrive_all_lem}
use streaming_server.Http.Confined.{delete_confined, get_leaves_root}

abbrev pub site : Surroundings
site = record {
  doc_root = codes "../web";
  api_key = codes "secret";
  tunnel_url = [];
  local_ip = codes "10.0.0.2";
  port = 8080;
  can_open = λ i. false;
  recordings_dir = none;
  file_exists = λ path. true;
  contents = λ path. some (codes "found");
  remove_error = λ path. none;
}

removes_one :
    (handle_request site delete_ (codes "/recordings/a.asr")).removed
    ≡ some (codes "recordings/a.asr")
unfolding handle_request delete_recording bytes_eq starts_with find
removes_one = refl

delete_confined_example :
    (name : Bytes) × (delete_ ≡ delete_)
    × (codes "/recordings/a.asr" ≡ recordings_prefix ++ name)
    × (codes "recordings/a.asr" ≡ codes "recordings/" ++ name)
    × ((xs ys : Bytes) → name ≢ xs ++ (codes ".." ++ ys))
    × ((xs ys : Bytes) → name ≢ xs ++ (codes "/" ++ ys))
delete_confined_example =
    delete_confined site delete_ (codes "/recordings/a.asr") (codes "recordings/a.asr") removes_one

get_leaves_root_example :
    ((handle_request site get (codes "/../" ++ (codes "server.ke" ++ b'y' ∷ []))).status ≡ ok_200)
    × ((handle_request site get (codes "/../" ++ (codes "server.ke" ++ b'y' ∷ []))).body
        ≡ text (codes "found"))
get_leaves_root_example = get_leaves_root site (codes "server.ke") (codes "found") b'y' refl refl

mime_types :
    (get_mime_type (codes "app.js") ≡ codes "application/javascript")
    × (get_mime_type (codes "index.html") ≡ codes "text/html")
    × (get_mime_type (codes ".css") ≡ codes "application/octet-stream")
unfolding get_mime_type ends_in bytes_eq
mime_types = (refl, refl, refl)

abbrev damaged : DirEntry
damaged = record {
  name = codes "b.asr";
  is_regular = true;
  size = 3;
  last_modified = pos 0;
  contents = some (codes "h\nend_time:x\n");
}

abbrev fine : DirEntry
fine = record damaged { name = codes "c.asr"; contents = some (codes "h\nframes:\n") }

damaged_listed : is_recording_file damaged ≡ true
unfolding ends_in bytes_eq
damaged_listed = refl

damaged_throws : file_info damaged ≡ throw (invalid_argument (codes "stoi"))
unfolding file_info read_info lines_of bytes_eq find_char stoi
damaged_throws = refl

damaged_file_hides_rest_example :
    list_entries ((fine ∷ []) ++ damaged ∷ (fine ∷ [])) ≡ list_entries (fine ∷ [])
damaged_file_hides_rest_example =
    damaged_file_hides_rest (fine ∷ []) (fine ∷ []) damaged (invalid_argument (codes "stoi"))
      damaged_listed damaged_throws

-- A name whose removal fails: the directory itself, which is not empty.
abbrev full_site : Surroundings
full_site = record site { remove_error = λ path. some (codes "Directory not empty") }

failed_removal_throws :
    (arrive_all full_site
      (shakes_hands ∷ requests delete_ (codes "/recordings/") none ∷ [])
      new_session).0
    ≡ throw (runtime_error (codes "Directory not empty"))
unfolding arrive_all handle_request delete_recording bytes_eq starts_with find
failed_removal_throws = refl

-- A page is asked for, and the client is gone when the answer is written.
abbrev gone : List Arrival
gone = shakes_hands ∷ requests get (codes "/") (some (codes "Broken pipe")) ∷ []

-- The error leaves the handler.
failed_write_throws :
    (arrive_all site gone new_session).0 ≡ throw (runtime_error (codes "Broken pipe"))
unfolding arrive_all handle_request bytes_eq starts_with
failed_write_throws = refl

abbrev two_requests : List Arrival
two_requests =
    shakes_hands
    ∷ requests get (codes "/") none
    ∷ requests get (codes "/api") none
    ∷ upgrades_request
    ∷ []

arrive_all_example :
    Meets site (answered get (codes "/") none) (arrive_all site two_requests new_session)
arrive_all_example = arrive_all_lem site two_requests

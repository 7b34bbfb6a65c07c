-- ===== src/Http.antt =====
-- src/http_session.cpp, `handle_request`: the answers to requests that are no WebSocket upgrade.
-- Connection is about the handshake, the read, and the headers that every answer carries.
pub mod Listing
pub mod Confined
pub mod Connection
pub mod Once
pub mod Examples
use streaming_server.Base.{
  ℕ, ◌+◌, ◌-◌, Bool, true, false, not, ◌&&◌, ◌||◌, List, [], ◌∷◌, ◌++◌, Option, none, some, ◌==◌,
  if◌then◌else◌, take, drop,
}
use streaming_server.Base.Int.{ℤ}
use streaming_server.Text.{Bytes, codes, bytes_eq}
use streaming_server.Text.Search.{find, contains, starts_with, ends_in}
use streaming_server.Text.Decimal.{to_string}
use streaming_server.Video.Cameras.{CameraInfo, list_cameras}
use streaming_server.Http.Listing.{DirEntry, FileInfo, listing}

unfoldable pub get_mime_type : Bytes → Bytes
get_mime_type path =
    if ends_in (codes ".html") path
    then codes "text/html"
    else if ends_in (codes ".js") path
    then codes "application/javascript"
    else if ends_in (codes ".css") path
    then codes "text/css"
    else if ends_in (codes ".png") path
    then codes "image/png"
    else if ends_in (codes ".jpg") path
    then codes "image/jpeg"
    else if ends_in (codes ".jpeg") path
    then codes "image/jpeg"
    else if ends_in (codes ".ico") path
    then codes "image/x-icon"
    else codes "application/octet-stream"

pub data Verb : Type 0 where
  options : Verb
  get : Verb
  delete_ : Verb
  other : Verb

pub data Status : Type 0 where
  ok_200 : Status
  bad_request : Status
  not_found : Status

-- A body is a text, or the JSON value whose `dump` is sent.
pub data Body : Type 0 where
  text : Bytes → Body
  cameras : List CameraInfo → Body
  api_info : Bytes → Bytes → Body
  tunnel_status : Bool → Bytes → Body
  test_tunnel : Bool → Bytes → Body
  recordings : List FileInfo → Body

-- What is sent, and the file that was removed before, if any; or the message of the exception that leaves
-- the handler before it sends anything.
pub record Answer : Type 0 where
  pub status : Status
  pub content_type : Option Bytes
  pub body : Body
  pub removed : Option Bytes
  pub thrown : Option Bytes

-- The server, and what its surroundings answer: the local address and port, the cameras, the
-- directory of the recordings (`none` if it cannot be read), which files exist, and what a path
-- that is opened for reading contains; and the error of removing a path that exists, if it has one.
pub record Surroundings : Type 0 where
  pub doc_root : Bytes
  pub api_key : Bytes
  pub tunnel_url : Bytes
  pub local_ip : Bytes
  pub port : ℕ
  pub can_open : ℤ → Bool
  pub recordings_dir : Option (List DirEntry)
  pub file_exists : Bytes → Bool
  pub contents : Bytes → Option Bytes
  pub remove_error : Bytes → Option Bytes

abbrev is_empty : Bytes → Bool
is_empty [] = true
is_empty (b ∷ bs) = false

abbrev erase_at : Option ℕ → Bytes → Bytes
erase_at none s = s
erase_at (some i) s = take i s ++ drop (i + 8) s

-- The address of the WebSocket that `/api` tells.
unfoldable pub endpoint : Surroundings → Bytes
endpoint env =
    if not (is_empty env.tunnel_url)
    then codes "wss://"
      ++ (erase_at (find (codes "https://") env.tunnel_url) env.tunnel_url ++ codes "stream")
    else codes "wss://" ++ (env.local_ip ++ (codes ":" ++ (to_string env.port ++ codes "/stream")))

abbrev pub json_answer : Body → Answer
json_answer body = record {
  status = ok_200;
  content_type = some (codes "application/json");
  body = body;
  removed = none;
  thrown = none;
}

abbrev pub plain_answer : Status → Bytes → Option Bytes → Answer
plain_answer status message removed = record {
  status = status;
  content_type = none;
  body = text message;
  removed = removed;
  thrown = none;
}

-- The check of a name against leaving the directory.
abbrev pub escapes : Bytes → Bool
escapes filename = contains (codes "..") filename || contains (codes "/") filename

-- `std::filesystem::remove`, which may throw.
abbrev pub remove_file : Bytes → Option Bytes → Answer
remove_file filepath none = plain_answer ok_200 (codes "File deleted") (some filepath)
remove_file filepath (some error) = record (plain_answer ok_200 [] none) { thrown = some error }

unfoldable pub delete_recording : Surroundings → Bytes → Answer
delete_recording env filename =
    if escapes filename
    then plain_answer bad_request (codes "Invalid filename") none
    else let filepath = codes "recordings/" ++ filename in
      if env.file_exists filepath
      then remove_file filepath (env.remove_error filepath)
      else plain_answer not_found (codes "File not found") none

abbrev pub ends_in_slash : Bytes → Bool
ends_in_slash [] = false
ends_in_slash (b ∷ []) = b == b'/'
ends_in_slash (b ∷ c ∷ bs) = ends_in_slash (c ∷ bs)

-- The file that a request without a route of its own asks for.
unfoldable pub static_path : Bytes → Bytes → Bytes
static_path doc_root target =
    let path = doc_root ++ target in if ends_in_slash path then path ++ codes "index.html" else path

abbrev pub serve_contents : Bytes → Option Bytes → Answer
serve_contents path (some contents) = record {
  status = ok_200;
  content_type = some (get_mime_type path);
  body = text contents;
  removed = none;
  thrown = none;
}
serve_contents path none = record {
  status = not_found;
  content_type = some (codes "text/plain");
  body = text (codes "File not found: " ++ path);
  removed = none;
  thrown = none;
}

unfoldable pub serve_file : Surroundings → Bytes → Answer
unfolding static_path
serve_file env target =
    let path = static_path env.doc_root target in serve_contents path (env.contents path)

abbrev pub is_delete : Verb → Bool
is_delete delete_ = true
is_delete _ = false

abbrev pub is_options : Verb → Bool
is_options options = true
is_options _ = false

abbrev pub recordings_prefix : Bytes
recordings_prefix = codes "/recordings/"

unfoldable pub handle_request : Surroundings → Verb → Bytes → Answer
unfolding delete_recording serve_file
handle_request env method target =
    if is_options method
    then plain_answer ok_200 [] none
    else if bytes_eq target (codes "/cameras")
    then json_answer (cameras (list_cameras env.can_open))
    else if bytes_eq target (codes "/api")
    then json_answer (api_info env.api_key (endpoint env))
    else if bytes_eq target (codes "/tunnel_status")
    then json_answer (tunnel_status (not (is_empty env.tunnel_url)) env.tunnel_url)
    else if bytes_eq target (codes "/test_tunnel")
    then json_answer (
        if not (is_empty env.tunnel_url)
        then test_tunnel true (codes "Tunnel is accessible")
        else test_tunnel false (codes "No tunnel available"))
    else if bytes_eq target (codes "/recordings")
    then json_answer (recordings (listing env.recordings_dir))
    else if starts_with recordings_prefix target && is_delete method
    then delete_recording env (drop 12 target)
    else serve_file env target

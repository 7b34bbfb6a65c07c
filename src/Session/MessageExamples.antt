-- ===== src/Session/MessageExamples.antt =====
-- Messages on concrete input, and the theorems about them at work. The messages of the examples are
-- not JSON: the first byte of each is its type, and the key is the rest.
use streaming_server.Base.{ℕ, ◌≡◌, refl, sym, ap, ◌⊎◌, true, false, [], ◌∷◌, if◌then◌else◌, ◌==◌}
use streaming_server.Outcome.{Try, ok, throw, json_error}
use streaming_server.Text.{Bytes, codes, bytes_eq}
use streaming_server.Recording.Examples.{noon}
use streaming_server.Playback.Examples.{tenths, disk}
use streaming_server.Streaming.Examples.{running, one_camera}
use streaming_server.Session.Examples.{open_session}
use streaming_server.Session.Commands.{Json, Surroundings}
use streaming_server.Session.Messages.{handle_message}
use streaming_server.Session.Access.{unprivileged_message}
use streaming_server.Streaming.Operated.{SameStream}
use streaming_server.Session.Rights.{CarriesKey, rights_need_key}
use streaming_server.Session.Anonymous.{set_authenticated, set_flag, authentication_unused}

abbrev parse_short : Bytes → Try Bytes
parse_short [] = throw (json_error (codes "parse error"))
parse_short (b ∷ rest) = ok (b ∷ rest)

abbrev type_of : Bytes → Bytes
type_of [] = []
type_of (b ∷ rest) = if b == b's' then codes "stop" else codes "auth"

abbrev pub key_of : Bytes → Bytes
key_of [] = []
key_of (b ∷ rest) = rest

abbrev pub short_json : Json ℕ
short_json = record {
  Value = Bytes;
  parse = parse_short;
  text = λ j key. ok (if bytes_eq key (codes "type") then type_of j else key_of j);
  text_or = λ j key other. ok other;
  int_or = λ j key other. ok other;
  double_or = λ j key other. ok other;
}

abbrev pub quiet : Surroundings
quiet = record {
  api_key = codes "secret";
  can_open = one_camera;
  disk = disk;
  now = noon;
  recorder_opens = true;
  authorized = ok tt;
}

unprivileged_message_example :
    SameStream running
      (handle_message tenths short_json quiet (codes "s") open_session running).controller
unprivileged_message_example =
    unprivileged_message tenths short_json quiet (codes "s") open_session running refl

rights_need_key_example :
    ((handle_message tenths short_json quiet (codes "awrong") open_session running).session
      ≡ open_session)
    ⊎ CarriesKey tenths short_json quiet (codes "awrong")
rights_need_key_example =
    rights_need_key tenths short_json quiet (codes "awrong") open_session running

abbrev stop_json : Json ℕ
stop_json = record short_json { text = λ j key. ok (codes "stop") }

abbrev pub returned : Try Bytes → Bytes
returned (ok text) = text
returned (throw e) = []

stop_is_other : (type : Bytes) → ok (codes "stop") ≡ ok type → bytes_eq type (codes "auth") ≡ false
unfolding bytes_eq
stop_is_other type typed = ap (λ t. bytes_eq (returned t) (codes "auth")) (sym typed)

authentication_unused_example :
    handle_message tenths stop_json quiet (codes "s") (set_authenticated false open_session) running
    ≡ set_flag false (handle_message tenths stop_json quiet (codes "s") open_session running)
authentication_unused_example =
    authentication_unused tenths stop_json quiet false (codes "s") open_session running
      (λ j type parsed typed. stop_is_other type typed)

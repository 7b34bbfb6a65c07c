-- ===== src/World/StreamExamples.antt =====
-- A client that gets a frame, and one that ends a stream, on concrete input. The messages are a type in
-- one byte and a key.
use streaming_server.Base.{ℕ, ◌≡◌, refl, some, true, List, [], ◌∷◌, ◌++◌}
use streaming_server.Base.Int.{pos}
use streaming_server.Outcome.{ok}
use streaming_server.Text.{codes, bytes_eq}
use streaming_server.Ascii.Examples.{grids, test_image, ten_chars}
use streaming_server.Playback.Examples.{tenths}
use streaming_server.Session.Messages.{handle_message}
use streaming_server.Session.Examples.{open_session}
use streaming_server.Session.MessageExamples.{short_json, quiet}
use streaming_server.Session.Reading.{reading, receives}
use streaming_server.World.{Client, World, find_client}
use streaming_server.World.Events.{
  Happening, connects, reads, captures, leaves, orphan_polls, world_run,
}
use streaming_server.World.Departure.{IsOver, departure_ends_stream}
use streaming_server.Session.Admission.{auth_outcome, auth_lem}
use streaming_server.World.Examples.{streaming, fresh}

-- Session 7 is connected while a small stream runs.
abbrev watcher : Client
watcher = record { session = open_session; phase = reading }

abbrev watched_stream : World ℕ
watched_stream = record fresh {
  clients = watcher ∷ [];
  controller = record streaming {
    ascii_converter = ten_chars;
    frame_width = pos 2;
    frame_height = pos 2;
    fps = pos 10;
  };
}

typed_auth : short_json.text (codes "asecret") (codes "type") ≡ ok (codes "auth")
unfolding bytes_eq
typed_auth = refl

given_secret : short_json.text (codes "asecret") (codes "api_key") ≡ ok (codes "secret")
unfolding bytes_eq
given_secret = refl

auth_example :
    handle_message tenths short_json quiet (codes "asecret") open_session streaming
    ≡ auth_outcome tenths short_json quiet
        (bytes_eq (codes "secret") (codes "secret"))
        (bytes_eq (codes "viewer") (codes "controller"))
        open_session
        streaming
auth_example =
    auth_lem tenths short_json quiet (codes "asecret") (codes "asecret") (codes "secret")
      (codes "viewer") open_session streaming refl typed_auth given_secret refl refl

-- Session 7 controls the stream, and ends.
abbrev commander : Client
commander = record { session = record open_session { is_controller = true }; phase = reading }

abbrev commanded : World ℕ
commanded = record watched_stream { clients = commander ∷ [] }

commander_found : find_client 7 (commander ∷ []) ≡ some commander
unfolding find_client
commander_found = refl

-- Somebody connects and the stop is polled too early; then a session that is not there ends.
abbrev meanwhile : List (Happening grids)
meanwhile = connects ∷ orphan_polls ∷ reads 7 quiet (receives (codes "asecret")) ∷ []

departure_ends_stream_example : IsOver (
    world_run grids tenths short_json commanded
      (leaves 7 ∷ (meanwhile ++ captures 0 test_image ∷ ((leaves 9 ∷ []) ++ orphan_polls ∷ []))))
departure_ends_stream_example =
    departure_ends_stream grids tenths short_json commanded commander 7 0 test_image meanwhile
      (leaves 9 ∷ []) refl commander_found refl refl (record { counted = refl })
      (tt, (tt, (tt, tt))) (tt, tt)

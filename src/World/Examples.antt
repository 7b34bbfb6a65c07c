-- ===== src/World/Examples.antt =====
-- Two clients of one server on concrete input, and the theorems about runs at work. The messages of
-- the examples are a type in one byte and a key.
use streaming_server.Base.{ℕ, ◌≡◌, refl, ap, ◌∙◌, true, false, List, [], ◌∷◌, All, map, arith}
use streaming_server.Text.{codes, bytes_eq}
use streaming_server.Ascii.{convert}
use streaming_server.Ascii.Examples.{grids, test_image}
use streaming_server.Playback.Examples.{tenths}
use streaming_server.Streaming.State.{StreamController}
use streaming_server.Streaming.Viewers.{add_viewer}
use streaming_server.Streaming.Examples.{idle_stream}
use streaming_server.Streaming.Viewers.{broadcast_frame, broadcast}
use streaming_server.Streaming.Capture.{capture_turn}
use streaming_server.Session.State.{new_session}
use streaming_server.Session.Commands.{command_of}
use streaming_server.Session.Messages.{handle_message, try_message, perform}
use streaming_server.Session.Examples.{open_session}
use streaming_server.Session.MessageExamples.{short_json, quiet, returned, key_of}
use streaming_server.Session.Rights.{CarriesKey}
use streaming_server.Session.Reading.{
  Reader, ReadEvent, reading, receives, accepts, fails, other_code, read_step, read_steps,
}
use streaming_server.Session.Unkeyed.{Keyless, Powerless, unkeyed_run}
use streaming_server.World.{World, running, pick, find_client, change_client, connect, alive}
use streaming_server.World.Events.{
  Happening, connects, reads, task_runs, captures, leaves, world_run, world_step,
}
use streaming_server.World.Strangers.{IsStranger}
use streaming_server.World.Frames.{KeylessFor, keyless_receives_no_frame}
use streaming_server.World.Sound.{WorldSound, world_run-WorldSound}

abbrev pub streaming : StreamController ℕ
streaming = record idle_stream { is_streaming = true; loops = 1 }

abbrev pub fresh : World ℕ
fresh = record {
  clients = [];
  next_id = 1;
  controller = streaming;
  tasks = [];
  orphans = 0;
  captured = [];
  status = running;
}

-- Session 1 gives the key and session 2 another; then a frame is captured.
abbrev two_clients : List (Happening grids)
two_clients =
    connects
    ∷ connects
    ∷ reads 1 quiet accepts
    ∷ reads 2 quiet accepts
    ∷ reads 2 quiet (receives (codes "awrong"))
    ∷ reads 1 quiet (receives (codes "asecret"))
    ∷ task_runs 1
    ∷ captures 0 test_image
    ∷ leaves 2
    ∷ []

frame_for_one :
    map (λ s. s.0) (world_run grids tenths short_json fresh two_clients).captured ≡ 1 ∷ []
unfolding world_run world_step connect find_client change_client pick alive new_session read_step
    handle_message try_message perform command_of bytes_eq add_viewer capture_turn convert
    broadcast_frame broadcast
frame_for_one = refl

false_is_not_true : ¬ (false ≡ true)
false_is_not_true e = ground (arith, e)

wrong_is_Keyless : (b : ℕ) → ¬ CarriesKey tenths short_json quiet (b ∷ codes "wrong")
unfolding bytes_eq
wrong_is_Keyless b (j, parsed, given) = false_is_not_true (
    ap (λ t. bytes_eq (key_of (returned t)) (codes "secret")) parsed
    ∙ ap (λ t. bytes_eq (returned t) (codes "secret")) given)

one_is_not_two : ¬ (◌≡◌ {A = ℕ} 1 2)
one_is_not_two e = omega (arith, e)

two_clients-KeylessFor : All (KeylessFor grids tenths short_json 2) two_clients
two_clients-KeylessFor = (
  tt,
  (
    tt,
    (
      tt,
      (tt, ((λ e. wrong_is_Keyless 97), ((λ e. absurd (one_is_not_two e)), (tt, (tt, (tt, tt)))))),
    ),
  ),
)

keyless_receives_no_frame_example :
    IsStranger tenths short_json 2 (world_run grids tenths short_json fresh two_clients)
keyless_receives_no_frame_example =
    keyless_receives_no_frame grids tenths short_json 2 fresh two_clients two_clients-KeylessFor
      (record { unwatched = refl; unposted = refl; unsent = refl })

world_run-WorldSound_example : WorldSound (world_run grids tenths short_json fresh two_clients)
world_run-WorldSound_example =
    world_run-WorldSound grids tenths short_json fresh two_clients
      (record { queues = tt; loops = record { counted = refl } })

-- A viewer that gives another key, asks for a stop and loses the connection.
abbrev at_reading : Reader ℕ
at_reading = record {
  phase = reading;
  session = open_session;
  controller = streaming;
  effects = [];
}

abbrev keyless_events : List ReadEvent
keyless_events = receives (codes "awrong") ∷ receives (codes "swrong") ∷ fails other_code ∷ []

keyless_events-Keyless : All (Keyless tenths short_json quiet) keyless_events
keyless_events-Keyless = (wrong_is_Keyless 97, (wrong_is_Keyless 115, (tt, tt)))

unkeyed_run_example :
    Powerless tenths short_json quiet open_session streaming
      (read_steps tenths short_json quiet keyless_events at_reading)
unkeyed_run_example =
    unkeyed_run tenths short_json quiet open_session streaming keyless_events at_reading
      keyless_events-Keyless (record { same = refl; role = refl; flag = refl; calm = refl })

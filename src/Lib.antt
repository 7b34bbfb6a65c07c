-- ===== src/Lib.antt =====
-- Verification of the ASCII streaming server: a camera's frames become text, are sent to the viewers
-- of a WebSocket stream, are recorded to files, and recordings are played back.
--
-- The parts and how they interact. The capture loop of StreamController takes a frame from
-- VideoSource, turns it into text by AsciiConverter, writes it to RecordController if that records,
-- and gives it to `send_frame` of every viewer, a WebSocketSession, whose queue one writer empties.
-- PlaybackController reads a recorded file and sends its frames on a timer to one session. Server
-- accepts connections; each gets an HttpSession, which answers one request or makes a WebSocketSession.
-- HttpSession answers requests: pages, the cameras, the key, and the recordings, which it also
-- removes. A client that has the key controls the stream by JSON messages to its session.
--
-- Files and sources:
--   Ascii      src/ascii_converter.cpp: set_ascii_chars, the table of 256 characters, convert. Shade
--              is about the table, Layout about the text of a frame.
--   Recording  src/record_controller.cpp: start_recording, write_frame, stop_recording. Contents
--              says what a whole session writes, Layout writes that out.
--   Playback   src/playback_controller.cpp. State: the class and its control methods; SteadyTimer:
--              the timer; Metadata, Loading: load_recording; Header, Steps: read_next_frame and the
--              handler of the timer. LoadEnds, Frames, Footer, LoadRecorded, Replay, Progress,
--              RoundTrip, Control hold the proofs.
--   Session    src/websocket_session.cpp. State: the class; Queue: send_frame, do_write. Bounded,
--              Order, Latest, Enqueued, Drain hold the proofs about these.
--              Commands, Messages: handle_message, its commands and answers, with JSON a parameter;
--              Reading: do_run and do_read; Farewell: the destructor. Keeps is the rule for what every
--              step of a message keeps; Access, Rights, Admission, Anonymous, Answers, Unkeyed hold
--              the proofs.
--   Streaming  src/stream_controller.cpp. State, Viewers, Control, Capture, Media: the class and
--              its methods; Broadcast, Turns, Outcomes, Loops, Operated, Stopping: the proofs.
--   Video      src/video_source.cpp on Linux. Cameras: list_cameras.
--   Http       src/http_session.cpp: handle_request and get_mime_type; Listing: the recordings;
--              Connection: run and do_read. Confined and Once hold the proofs.
--   Tunnel     src/vk_tunnel.cpp: setup_tunnel on the log; Commands: its shell commands, and those of
--              is_vk_tunnel_installed and cleanup. Address goes from the log to Http's endpoint; Total
--              holds a proof.
--   Keys       src/api_key_manager.cpp: generate_key, validate_key; Shape holds the proofs.
--   Server     src/server.cpp: the start, the accept loop, the end; Main: src/main.cpp. Steps,
--              Startup, Accepting, Exits hold the proofs.
--   Network    src/network_utils.cpp on both systems. LocalIp, Calls hold the proofs.
--   World      src/main.cpp, `ioc.run()`: all sessions and the one controller. Events: what runs next,
--              and a run; Unwatched, Strangers, Frames, Tasks, Delivery, Welcome, Stopping, Leaving,
--              Departure, Queues, Readers, Sound hold the proofs.
--   Base, Outcome, Text, Files: what the others share: lists and numbers, exceptions as values,
--              std::string with find, substr, to_string, stoi, stoll and stoul, and files.
--
-- How the code is modelled. A std::string is the list of its bytes. Numbers are natural numbers or
-- integers; where the source converts text to an int, a long long or an unsigned long, the model
-- throws out of range as the library does, and size_t arithmetic wraps at 2 ^ 64. The table of the
-- converter is computed in the source by floating point, i / (255.0 / (n - 1)) + 0.5 cut to an integer.
-- That differs from the rational number cut to an integer only near a tie, 255 is odd, and no tie is
-- nearer than 1 / 510, so the model cuts the rational number. Speeds of the
-- player are a parameter, Doubles, with the laws of an order that the clamp uses.
-- Object state is a record; a method that may throw returns the state it leaves beside its result. The
-- server runs its io_context on one thread, so a coroutine runs from one wait to the next without
-- interruption: a method with waits is split there, and the interleavings are lists of events
-- (Session.Queue, Session.Reading, Streaming.Loops, World.Events). In World a call that is posted is a
-- task, and any of the tasks may run next; the order of the real queue is one of these. A session ends
-- in World at any time, also while a task still holds it, so more runs are possible there than in the
-- source. What crashes the process, or an exception that leaves `ioc.run()`, ends the run.
-- Recursion is structural but for load_recording, whose two loops over the lines have fuel: the number
-- of bytes of the file, each line taking one at least (LoadEnds).
-- Arguments stand for what the code asks of its surroundings: the clocks, which cameras open, the disk,
-- which sessions still exist, and the calls of OpenCV.
--
-- Not modelled: logging; the sockets, TLS and timers of Boost.Asio beyond the order of events; the
-- overflow of 2 * width in start_streaming; the Windows branches of the camera and the tunnel; the web
-- client. Server and World are not joined: an accept, a connection and a session are each modelled by
-- themselves, and an exception that one of them lets out is what ends main. What the other handlers leave
-- behind at that end, a playback among it, is an argument of main (Server.Main.Rest).
pub mod Base
pub mod Outcome
pub mod Text
pub mod Ascii
pub mod Files
pub mod Recording
pub mod Playback
pub mod Session
pub mod Video
pub mod Http
pub mod Tunnel
pub mod Keys
pub mod Network
pub mod Server
pub mod World
pub mod Streaming

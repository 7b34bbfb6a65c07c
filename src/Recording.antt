-- ===== src/Recording.antt =====
-- src/record_controller.cpp: recording the frames of the stream into a file. The clocks' readings
-- and the formatted local time are arguments; log lines are left out.
pub mod Contents
pub mod Layout
pub mod Examples
use streaming_server.Base.{
  ℕ, ◌+◌, ◌-◌, ◌/◌, ◌%◌, ◌^◌, Bool, true, false, ◌&&◌, [], ◌∷◌, ◌++◌, if◌then◌else◌, length,
}
use streaming_server.Text.{Bytes, codes}
use streaming_server.Text.Decimal.{to_string}
use streaming_server.Files.{OutFile, open_out, write, close_out}

-- The readings that `start_recording` takes: the local time as `%Y%m%d_%H%M%S` and as
-- `%Y-%m-%d %H:%M:%S`, and the steady clock in nanoseconds.
pub record Moment : Type 0 where
  pub file_stamp : Bytes
  pub header_stamp : Bytes
  pub steady : ℕ

pub record RecordController : Type 0 where
  pub record_file : OutFile
  pub is_recording : Bool
  pub filename : Bytes
  pub start_time : ℕ
  pub frame_count : ℕ

abbrev pub fresh : RecordController
fresh = record {
  record_file = record { is_open = false; failed = false; written = [] };
  is_recording = false;
  filename = [];
  start_time = 0;
  frame_count = 0;
}

unfoldable pub header : Moment → Bytes
header now =
    codes "ASCII_STREAM_RECORD\nversion:1.0\ntimestamp:"
    ++ (now.header_stamp ++ codes "\nframes:\n")

-- `std::stringstream` and `operator<<` in one text; `can_open` is what the file system answers.
unfoldable pub start_recording : Moment → Bool → RecordController → Bool × RecordController
unfolding open_out write
start_recording now can_open r =
    if r.is_recording
    then (false, r)
    else let name = codes "recordings/ascii_stream_" ++ now.file_stamp ++ codes ".asr" in
      let file = open_out can_open r.record_file in
      if file.is_open
      then (
        true,
        record {
          record_file = write (header now) file;
          is_recording = true;
          filename = name;
          start_time = now.steady;
          frame_count = 0;
        },
      )
      else (false, record r { record_file = file; filename = name })

-- The end of a file: a duration is cut to whole seconds.
unfoldable pub footer : ℕ → ℕ → Bytes
footer seconds count =
    codes "end_time:"
    ++ (to_string seconds ++ (codes "\nframe_count:" ++ (to_string count ++ codes "\n")))

abbrev pub seconds_since : ℕ → ℕ → ℕ
seconds_since start now = (now - start) / 1_000_000_000

-- `now` is the steady clock.
unfoldable pub stop_recording : ℕ → RecordController → RecordController
unfolding write close_out
stop_recording now r =
    if r.is_recording
    then record r {
      record_file =
          close_out (write (footer (seconds_since r.start_time now) r.frame_count) r.record_file);
      is_recording = false;
    }
    else r

abbrev pub milliseconds_since : ℕ → ℕ → ℕ
milliseconds_since start now = (now - start) / 1_000_000

-- One frame in the file: a header line with the time and the length, and the frame.
unfoldable pub entry : ℕ → Bytes → Bytes
entry at frame =
    codes "frame:"
    ++ (to_string at
        ++ (codes ":" ++ (to_string (length frame) ++ (codes "\n" ++ (frame ++ codes "\n")))))

unfoldable pub write_frame : ℕ → Bytes → RecordController → RecordController
unfolding write
write_frame now frame r =
    if r.is_recording && r.record_file.is_open
    then record r {
      record_file = write (entry (milliseconds_since r.start_time now) frame) r.record_file;
      frame_count = (r.frame_count + 1) % 2 ^ 64;
    }
    else r

unfoldable pub is_recording : RecordController → Bool
is_recording r = r.is_recording

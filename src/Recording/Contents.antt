-- ===== src/Recording/Contents.antt =====
-- What a recording file holds after a session of src/record_controller.cpp.
use streaming_server.Base.{
  ℕ, ◌+◌, ◌%◌, ◌^◌, ◌<◌, ◌≡◌, refl, ◌∙◌, Bool, true, false, List, [], ◌∷◌, ◌++◌, append-nil,
  append_assoc, arith, length,
}
use streaming_server.Text.{Bytes, codes}
use streaming_server.Recording.{
  RecordController, Moment, fresh, header, footer, entry, start_recording, stop_recording,
  write_frame, milliseconds_since, seconds_since,
}

-- The stream is open exactly while a recording runs, and has not failed then.
pub record IsConsistent (r : RecordController) : Type 0 where
  pub open_iff : r.record_file.is_open ≡ r.is_recording
  pub sound : r.is_recording ≡ true → r.record_file.failed ≡ false

pub fresh-IsConsistent : IsConsistent fresh
fresh-IsConsistent = record { open_iff = refl; sound = λ h. cc }

pub start_recording-IsConsistent :
    (now : Moment) (can_open : Bool) (r : RecordController)
    → IsConsistent r
    → IsConsistent (start_recording now can_open r).1
unfolding start_recording
start_recording-IsConsistent now can_open r v = record {
  open_iff = ground arith;
  sound = ground arith;
}

pub stop_recording-IsConsistent :
    (now : ℕ) (r : RecordController) → IsConsistent r → IsConsistent (stop_recording now r)
unfolding stop_recording
stop_recording-IsConsistent now r v = record { open_iff = ground arith; sound = ground arith }

pub write_frame-IsConsistent :
    (now : ℕ) (frame : Bytes) (r : RecordController)
    → IsConsistent r
    → IsConsistent (write_frame now frame r)
unfolding write_frame
write_frame-IsConsistent now frame r v = record { open_iff = ground arith; sound = ground arith }

-- Frames with the steady clock at which each is written.
unfoldable pub write_frames : List (ℕ × Bytes) → RecordController → RecordController
write_frames [] r = r
write_frames ((now, frame) ∷ rest) r = write_frames rest (write_frame now frame r)

-- The entries of the frames, for a recording that started at `start`.
abbrev pub entries : ℕ → List (ℕ × Bytes) → Bytes
entries start [] = []
entries start ((now, frame) ∷ rest) =
    entry (milliseconds_since start now) frame ++ entries start rest

module _ (r : RecordController) (busy : r.is_recording ≡ true) (v : IsConsistent r) where
  write_frame-eq :
      (now : ℕ) (frame : Bytes)
      → write_frame now frame r ≡ record r {
        record_file = record r.record_file {
          written = r.record_file.written ++ entry (milliseconds_since r.start_time now) frame;
        };
        frame_count = (r.frame_count + 1) % 2 ^ 64;
      }
  unfolding write_frame
  write_frame-eq now frame = ground (arith, v.open_iff, v.sound busy)

  stop_recording-written :
      (now : ℕ)
      → (stop_recording now r).record_file.written
        ≡ r.record_file.written ++ footer (seconds_since r.start_time now) r.frame_count
  unfolding stop_recording
  stop_recording-written now = ground (arith, v.open_iff, v.sound busy)

-- The controller after `frames` were added to a recording.
abbrev added : List (ℕ × Bytes) → RecordController → RecordController
added frames r = record r {
  record_file = record r.record_file {
    written = r.record_file.written ++ entries r.start_time frames;
  };
  frame_count = r.frame_count + length frames;
}

write_frames-eq :
    (frames : List (ℕ × Bytes)) (r : RecordController)
    → r.is_recording ≡ true
    → IsConsistent r
    → r.frame_count + length frames < 2 ^ 64
    → write_frames frames r ≡ added frames r
unfolding write_frames
write_frames-eq [] r busy v h = ground (arith, append-nil r.record_file.written)
write_frames-eq ((now, frame) ∷ rest) r busy v h =
    let written = r.record_file.written in
    let e = entry (milliseconds_since r.start_time now) frame in
    let r' = record r {
      record_file = record r.record_file { written = written ++ e };
      frame_count = (r.frame_count + 1) % 2 ^ 64;
    } in
    let v' : IsConsistent r' = record { open_iff = v.open_iff; sound = v.sound } in
    rw (write_frame-eq r busy v now frame) (
      write_frames-eq rest r' busy v' (omega arith)
      ∙ ground (arith, append_assoc written e (entries r.start_time rest)))

-- The controller when a recording has just begun.
abbrev begun : Moment → RecordController
begun now = record {
  record_file = record { is_open = true; failed = false; written = header now };
  is_recording = true;
  filename = codes "recordings/ascii_stream_" ++ now.file_stamp ++ codes ".asr";
  start_time = now.steady;
  frame_count = 0;
}

begun-IsConsistent : (now : Moment) → IsConsistent (begun now)
begun-IsConsistent now = record { open_iff = refl; sound = λ h. refl }

start_recording-eq :
    (now : Moment) (r : RecordController)
    → IsConsistent r
    → r.is_recording ≡ false
    → start_recording now true r ≡ (true, begun now)
unfolding start_recording
start_recording-eq now r v idle = ground (arith, v.open_iff)

-- A whole session: the recording starts, the frames are written and the recording stops.
unfoldable pub record_session : Moment → List (ℕ × Bytes) → ℕ → RecordController → RecordController
record_session now frames end r =
    stop_recording end (write_frames frames (start_recording now true r).1)

session_eq :
    (now : Moment) (frames : List (ℕ × Bytes)) (end : ℕ) (r : RecordController)
    → IsConsistent r
    → r.is_recording ≡ false
    → length frames < 2 ^ 64
    → record_session now frames end r ≡ stop_recording end (added frames (begun now))
unfolding record_session
session_eq now frames end r v idle h = rw (
  start_recording-eq now r v idle,
  write_frames-eq frames (begun now) refl (begun-IsConsistent now) (omega arith),
)

-- The file in the terms of the code: the header, the entries and the footer.
pub record_session_parts :
    (now : Moment) (frames : List (ℕ × Bytes)) (end : ℕ) (r : RecordController)
    → IsConsistent r
    → r.is_recording ≡ false
    → length frames < 2 ^ 64
    → ((record_session now frames end r).record_file.written
        ≡ header now
          ++ (entries now.steady frames ++ footer (seconds_since now.steady end) (length frames)))
      × ((record_session now frames end r).is_recording ≡ false)
      × IsConsistent (record_session now frames end r)
record_session_parts now frames end r v idle h =
    let done = added frames (begun now) in
    let v' : IsConsistent done = record { open_iff = refl; sound = λ _. refl } in
    let e : 0 + length frames ≡ length frames = omega arith in
    rw (session_eq now frames end r v idle h) (
      stop_recording-written done refl v' end
          ∙ rw e (append_assoc (header now) (entries now.steady frames) _),
      (unfold stop_recording in refl),
      stop_recording-IsConsistent end done v',
    )

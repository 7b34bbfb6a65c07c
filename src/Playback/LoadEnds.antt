-- ===== src/Playback/LoadEnds.antt =====
-- The end of `load_recording` of src/playback_controller.cpp, whose loops have fuel.
use streaming_server.Base.{
  ℕ, zero, suc, ◌<◌, ◌≡◌, refl, inl, inr, ◌⊎◌, Bool, true, false, Option, none, some, length, arith,
  Bool-cases, Option-cases, subst, sym,
}
use streaming_server.Outcome.{Try, ok, throw, Exception}
use streaming_server.Text.{Bytes, bytes_eq}
use streaming_server.Files.{InFile, Disk, getline, open_in, seek_begin, seek_end}
use streaming_server.Files.Lines.{getline-shorter}
use streaming_server.Playback.State.{RecordingInfo, no_info, PlaybackController, stop_playback}
use streaming_server.Playback.Metadata.{
  Metadata, metadata_line, read_metadata, skip_to_frames, frames_line,
}
use streaming_server.Playback.Loading.{
  Loaded, load_recording, line_fuel, finished, finish_load, load_metadata, with_metadata,
  load_headed, load_opened, is_header,
}

pub Try-cases {ℓ} :
    {A : Type ℓ} (m : Try A) → ((a : A) × (m ≡ ok a)) ⊎ ((e : Exception) × (m ≡ throw e))
Try-cases (ok a) = inl (a, refl)
Try-cases (throw e) = inr (e, refl)

read_metadata_ends :
    (fuel : ℕ) (f : InFile) (info : RecordingInfo)
    → length f.rest < fuel
    → (m : Metadata) × (read_metadata fuel f info ≡ some m)
unfolding read_metadata
read_metadata_ends zero f info h = elim h [ ]
read_metadata_ends (suc fuel) f info h = elim (Option-cases (getline f).text) [
  | inl over ↦
      (record { file = (getline f).file; info = info; thrown = none }, rw (over, read_metadata))
  | inr (line, e) ↦ elim (Bool-cases (bytes_eq line frames_line)) [
    | inl found ↦ (
      record { file = (getline f).file; info = info; thrown = none },
      rw (e, found, read_metadata),
    )
    | inr other ↦ elim (Try-cases (metadata_line line info)) [
      | inl (info', set) ↦
          rw (e, other, set, read_metadata)
            (read_metadata_ends fuel (getline f).file info'
              (omega (arith, getline-shorter f line e)))
      | inr (ex, bad) ↦ (
        record { file = (getline f).file; info = info; thrown = some ex },
        rw (e, other, bad, read_metadata),
      )
    ]
  ]
]

skip_to_frames_ends :
    (fuel : ℕ) (f : InFile) → length f.rest < fuel → (g : InFile) × (skip_to_frames fuel f ≡ some g)
unfolding skip_to_frames
skip_to_frames_ends zero f h = elim h [ ]
skip_to_frames_ends (suc fuel) f h = elim (Option-cases (getline f).text) [
  | inl over ↦ ((getline f).file, rw (over, skip_to_frames))
  | inr (line, e) ↦ elim (Bool-cases (bytes_eq line frames_line)) [
    | inl found ↦ ((getline f).file, rw (e, found, skip_to_frames))
    | inr other ↦
        rw (e, other, skip_to_frames)
          (skip_to_frames_ends fuel (getline f).file (omega (arith, getline-shorter f line e)))
  ]
]

module _ {D : Type 0} where
  finish_load_ends :
      (p : PlaybackController D) (f : InFile) (info : RecordingInfo)
      → (l : Loaded D) × (finish_load p f info ≡ some l)
  finish_load_ends p f info =
      let (g, e) =
        skip_to_frames_ends (line_fuel (seek_begin (seek_end f))) (seek_begin (seek_end f))
          (omega arith) in
      subst (λ o. (l : Loaded D) × (finished p f info o ≡ some l)) (sym e) (_, refl)

  load_metadata_ends :
      (p : PlaybackController D) (f : InFile) (info : RecordingInfo) (thrown : Option Exception)
      → (l : Loaded D) × (load_metadata p f info thrown ≡ some l)
  load_metadata_ends p f info none = finish_load_ends p f info
  load_metadata_ends p f info (some x) = (_, refl)

  load_headed_ends :
      (filename : Bytes) (p : PlaybackController D) (f : InFile) (ours : Bool)
      → (l : Loaded D) × (load_headed filename p f ours ≡ some l)
  load_headed_ends filename p f false = (_, refl)
  load_headed_ends filename p f true =
      let (m, e) =
        read_metadata_ends (line_fuel f) f (record no_info { filename = filename }) (omega arith) in
      subst (λ o. (l : Loaded D) × (with_metadata p o ≡ some l)) (sym e)
        (load_metadata_ends p m.file m.info m.thrown)

  load_opened_ends :
      (filename : Bytes) (p : PlaybackController D) (f : InFile) (is_open : Bool)
      → (l : Loaded D) × (load_opened filename p f is_open ≡ some l)
  load_opened_ends filename p f false = (_, refl)
  load_opened_ends filename p f true =
      load_headed_ends filename p (getline f).file (is_header (getline f).text)

  -- Loading ends for every file on the disk and every state of the player: the lines are counted by
  -- their bytes, so the fuel of both loops is enough.
  pub load_recording_ends :
      (disk : Disk) (filename : Bytes) (p : PlaybackController D)
      → (l : Loaded D) × (load_recording disk filename p ≡ some l)
  unfolding load_recording
  load_recording_ends disk filename p =
      let file = open_in disk filename (stop_playback p).playback_file in
      load_opened_ends filename (stop_playback p) file file.is_open

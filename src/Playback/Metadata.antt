-- ===== src/Playback/Metadata.antt =====
-- src/playback_controller.cpp: the metadata of a recording and the way to its frames.
use streaming_server.Base.{
  ℕ, zero, suc, ◌+◌, true, false, Option, none, some, if◌then◌else◌, take, drop,
}
use streaming_server.Outcome.{Exception, Try, ok, throw, ◌>>=◌}
use streaming_server.Text.{Bytes, codes, bytes_eq}
use streaming_server.Text.Search.{find_char}
use streaming_server.Text.Decimal.{stoi}
use streaming_server.Files.{InFile, getline}
use streaming_server.Playback.State.{RecordingInfo}

abbrev pub frames_line : Bytes
frames_line = codes "frames:"

-- One line of the metadata, `key:value`.
abbrev set_metadata : Bytes → Bytes → RecordingInfo → Try RecordingInfo
set_metadata key value info =
    if bytes_eq key (codes "timestamp")
    then ok (record info { timestamp = value })
    else if bytes_eq key (codes "end_time")
    then (do n ← stoi value; ok (record info { duration = n }))
    else if bytes_eq key (codes "frame_count")
    then (do n ← stoi value; ok (record info { frame_count = n }))
    else ok info

unfoldable pub metadata_line : Bytes → RecordingInfo → Try RecordingInfo
metadata_line line info = elim (find_char b':' line) [
  | none ↦ ok info
  | some colon ↦ set_metadata (take colon line) (drop (colon + 1) line) info
]

pub record Metadata : Type 0 where
  pub file : InFile
  pub info : RecordingInfo
  pub thrown : Option Exception

-- The metadata loop, with fuel; `none` means that the fuel ran out.
unfoldable pub read_metadata : ℕ → InFile → RecordingInfo → Option Metadata
read_metadata zero f info = none
read_metadata (suc fuel) f info = elim (getline f).text [
  | none ↦ some (record { file = (getline f).file; info = info; thrown = none })
  | some line ↦ elim (bytes_eq line frames_line) [
    | true ↦ some (record { file = (getline f).file; info = info; thrown = none })
    | false ↦ elim (metadata_line line info) [
      | throw e ↦ some (record { file = (getline f).file; info = info; thrown = some e })
      | ok info' ↦ read_metadata fuel (getline f).file info'
    ]
  ]
]

-- The loop that skips to the frames, with fuel.
unfoldable pub skip_to_frames : ℕ → InFile → Option InFile
skip_to_frames zero f = none
skip_to_frames (suc fuel) f = elim (getline f).text [
  | none ↦ some (getline f).file
  | some line ↦ elim (bytes_eq line frames_line) [
    | true ↦ some (getline f).file
    | false ↦ skip_to_frames fuel (getline f).file
  ]
]

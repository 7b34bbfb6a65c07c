-- ===== src/World/Welcome.antt =====
-- From the key to the first frame: a client of src/websocket_session.cpp that authenticates, and a turn
-- of the capture loop of src/stream_controller.cpp behind that.
use streaming_server.Base.{ℕ, ◌≡◌, Bool, true, some}
use streaming_server.Ascii.{OpenCv}
use streaming_server.Playback.State.{Doubles}
use streaming_server.Session.State.{WebSocketSession}
use streaming_server.Session.Commands.{Json, Surroundings}
use streaming_server.Session.Admission.{auth_outcome}
use streaming_server.Session.Reading.{Reader, handled}
use streaming_server.Streaming.State.{StreamController}
use streaming_server.Streaming.Broadcast.{occurs}
use streaming_server.World.{Client, running, World, find_client}
use streaming_server.World.Events.{put_reader}

-- The session behind its message.
abbrev pub as_client : {D : Type 0} → Reader D → Client
as_client r = record { session = r.session; phase = r.phase }

module _ (cv : OpenCv) (d : Doubles) (json : Json d.Double) (env : Surroundings) (id : ℕ) where
  open json use {Value, parse, text, text_or}

  -- The session that has given the right key, as `auth_lem` says.
  abbrev pub admitted : Bool → WebSocketSession → StreamController d.Double → Reader d.Double
  admitted controls s c = handled (auth_outcome d json env true controls s c)

  -- The session is found as `k`, the process runs, and the controller is as in `w` but for the
  -- viewers, of which the session is one.
  record Joined (w : World d.Double) (k : Client) (w' : World d.Double) : Type 0 where
    pub status : w'.status ≡ running
    pub found : find_client id w'.clients ≡ some k
    pub same : w'.controller ≡ record w.controller { viewers = w'.controller.viewers }
    pub watches : occurs id w'.controller.viewers ≡ true

  module _ (w : World d.Double) (k : Client) (controls : Bool) where
    -- The world behind the message.
    abbrev behind : World d.Double
    behind = put_reader cv d json id (admitted controls k.session w.controller) w

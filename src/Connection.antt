-- ===== src/Connection.antt =====
-- conn.go: the sessions of a connection by channel (`newSession`, `deleteSession`), the settings that
-- `openAMQP` takes from the peer, and the frames that `connReader` hands on. A session is a number.
-- The mutex makes each operation atomic, and a frame is handed on in one step, so a history is a list
-- of events. The reader stops at a close or an error.
pub mod Channels
pub mod Routing
use go_amqp.Base.{
  ℕ, ◌%◌, ◌^◌, Bool, true, false, Option, none, some, List, [], ◌∷◌, ltb, if◌then◌else◌,
}
use go_amqp.Base.Maps.{Map, lookup, insert, delete}
use go_amqp.Bitmap.{Bitmap, next, remove, new}
use go_amqp.Frames.Performatives.{AmqpError, Begin, FrameBody, begin, end, close}

-- `sessions_by_remote_channel` is the reader's own map; `remote_channels` is the field of each session.
pub record Conn : Type 0 where
  pub channel_max : ℕ
  pub peer_max_frame_size : ℕ
  pub peer_idle_timeout : ℕ
  pub channels : Bitmap
  pub sessions_by_channel : Map ℕ
  pub sessions_by_remote_channel : Map ℕ
  pub remote_channels : Map ℕ

-- What the peer's open says.
pub record PeerOpen : Type 0 where
  pub max_frame_size : ℕ
  pub channel_max : ℕ
  pub idle_timeout : ℕ

unfoldable pub open_amqp : PeerOpen → Conn → Conn
open_amqp o c = record c {
  peer_max_frame_size = if ltb 0 o.max_frame_size then o.max_frame_size else c.peer_max_frame_size;
  peer_idle_timeout = if ltb 0 o.idle_timeout then o.idle_timeout else c.peer_idle_timeout;
  channel_max = if ltb o.channel_max c.channel_max then o.channel_max else c.channel_max;
}

-- After the connection is established.
unfoldable pub start : Conn → Conn
start c = record c { channels = new c.channel_max }

abbrev pub add_session : ℕ → Conn → Bitmap × ℕ × Bool → Conn × Option ℕ
add_session s c (b, channel, true) = (
  record c {
    channels = b;
    sessions_by_channel = insert (channel % 2 ^ 16) s c.sessions_by_channel;
  },
  some (channel % 2 ^ 16),
)
add_session s c (b, channel, false) = (record c { channels = b }, none)

-- The channel of the session, or none: the maximum is reached.
unfoldable pub new_session : ℕ → Conn → Conn × Option ℕ
new_session s c = add_session s c (next c.channels)

unfoldable pub delete_session : ℕ → Conn → Conn
delete_session channel c = record c {
  sessions_by_channel = delete channel c.sessions_by_channel;
  channels = remove c.channels channel;
}

pub data ReaderError : Type 0 where
  remote_error : AmqpError → ReaderError
  nil_remote_channel : ReaderError
  unexpected_remote_channel unknown_channel : ℕ → ReaderError

-- The frame goes to a session, or the reader stops.
pub data Verdict : Type 0 where
  passed : ℕ → Verdict
  closed : Verdict
  failed : ReaderError → Verdict

abbrev pub begin_session : ℕ → ℕ → Option ℕ → Conn → Conn × Verdict
begin_session channel remote none c = (c, failed (unexpected_remote_channel remote))
begin_session channel remote (some s) c = (
  record c {
    remote_channels = insert s channel c.remote_channels;
    sessions_by_remote_channel = insert channel s c.sessions_by_remote_channel;
  },
  passed s,
)

abbrev pub on_begin : ℕ → Option ℕ → Conn → Conn × Verdict
on_begin channel none c = (c, failed nil_remote_channel)
on_begin channel (some remote) c =
    begin_session channel remote (lookup remote c.sessions_by_channel) c

abbrev pub pass_on : ℕ → Option ℕ → Verdict
pass_on channel none = failed (unknown_channel channel)
pass_on channel (some s) = passed s

abbrev pub on_end : ℕ → Option ℕ → Conn → Conn × Verdict
on_end channel none c = (c, failed (unknown_channel channel))
on_end channel (some s) c = (
  record c { sessions_by_remote_channel = delete channel c.sessions_by_remote_channel },
  passed s,
)

-- One round of `connReader`, with the frame's channel and body.
unfoldable pub on_frame : ℕ → FrameBody → Conn → Conn × Verdict
on_frame channel (close none) c = (c, closed)
on_frame channel (close (some e)) c = (c, failed (remote_error e))
on_frame channel (begin b) c = on_begin channel b.remote_channel c
on_frame channel (end e) c = on_end channel (lookup channel c.sessions_by_remote_channel) c
on_frame channel body c = (c, pass_on channel (lookup channel c.sessions_by_remote_channel))

pub data Event : Type 0 where
  session_opened session_deleted : ℕ → Event
  frame_read : ℕ → FrameBody → Event

-- The connection after a frame, if the reader goes on.
abbrev pub reads_on : Conn × Verdict → Option Conn
reads_on (c, passed s) = some c
reads_on (c, closed) = none
reads_on (c, failed e) = none

abbrev pub step : Event → Conn → Option Conn
step (session_opened s) c = some (new_session s c).0
step (session_deleted channel) c = some (delete_session channel c)
step (frame_read channel body) c = reads_on (on_frame channel body c)

abbrev pub run_on : Option Conn → (Conn → Option Conn) → Option Conn
run_on none k = none
run_on (some c) k = k c

abbrev pub run : List Event → Conn → Option Conn
run [] c = some c
run (e ∷ es) c = run_on (step e c) (λ c'. run es c')

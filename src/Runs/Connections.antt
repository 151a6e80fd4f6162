-- ===== src/Runs/Connections.antt =====
-- A connection with two sessions on concrete inputs.
use go_amqp.Base.{◌≡◌, refl, some, List, [], ◌∷◌, arith}
use go_amqp.Base.Maps.{lookup, insert, delete}
use go_amqp.Bitmap.{new, next, first_open, at_open, take_open, append_word, remove}
use go_amqp.Base.Bits.{trailing_zeros}
use go_amqp.Frames.Performatives.{Begin, begin, other}
use go_amqp.Connection.{
  Conn, Event, session_opened, session_deleted, frame_read, passed, start, new_session,
  delete_session, on_frame, run,
}
use go_amqp.Connection.Channels.{IsValid, Opened, new_session_opens, run-IsValid, start-IsValid}
use go_amqp.Connection.Routing.{on_frame_routes}

abbrev fresh : Conn
fresh = record {
  channel_max = 7;
  peer_max_frame_size = 512;
  peer_idle_timeout = 0;
  channels = new 0;
  sessions_by_channel = [];
  sessions_by_remote_channel = [];
  remote_channels = [];
}

fresh-IsValid : IsValid (start fresh)
fresh-IsValid = start-IsValid fresh (omega arith) refl

first_channel : (new_session 40 (start fresh)).1 ≡ some 0
unfolding new_session start next first_open at_open take_open append_word new trailing_zeros
first_channel = refl

new_session_opens_example : Opened (start fresh) (new_session 40 (start fresh)).0 40 0
new_session_opens_example = new_session_opens 40 0 (start fresh) fresh-IsValid first_channel

-- The peer's channel 3 is for the session 40, on channel 0.
abbrev a_begin : Begin
a_begin = record {
  remote_channel = some 0;
  next_outgoing_id = 1;
  incoming_window = 10;
  outgoing_window = 10;
  handle_max = 7;
}

abbrev opened : Conn
opened = record fresh { sessions_by_channel = (0, 40) ∷ [] }

abbrev events : List Event
events = frame_read 3 (other 5) ∷ session_deleted 0 ∷ []

abbrev routed : Conn
routed = record opened {
  channels = new 0;
  sessions_by_channel = [];
  sessions_by_remote_channel = (3, 40) ∷ [];
  remote_channels = (40, 3) ∷ [];
}

found : lookup 0 opened.sessions_by_channel ≡ some 40
unfolding lookup
found = refl

both_read : run (frame_read 3 (begin a_begin) ∷ events) opened ≡ some routed
unfolding on_frame delete_session lookup insert delete new remove
both_read = refl

on_frame_routes_example : (on_frame 3 (other 9) routed).1 ≡ passed 40
on_frame_routes_example =
    on_frame_routes 3 0 40 a_begin events (other 9) opened routed refl found (tt, (tt, tt))
      both_read tt

run-IsValid_example : IsValid (new_session 40 (start fresh)).0
run-IsValid_example =
    run-IsValid (session_opened 40 ∷ []) (start fresh) (new_session 40 (start fresh)).0
      fresh-IsValid refl

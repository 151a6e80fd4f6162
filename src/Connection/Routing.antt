-- ===== src/Connection/Routing.antt =====
-- Which session gets a frame.
use go_amqp.Base.{
  ℕ, ◌≡◌, ◌≢◌, refl, ◌∙◌, Bool, true, false, Option, none, some, List, [], ◌∷◌, ne→==, eq→==, All,
}
use go_amqp.Base.Maps.{lookup, lookup-insert, lookup-delete}
use go_amqp.Bitmap.{Bitmap, next}
use go_amqp.Frames.Performatives.{
  FrameBody, Begin, flow, transfer, disposition, attach, detach, begin, end, close, other,
}
use go_amqp.Connection.Channels.{went_on}
use go_amqp.Connection.{
  Conn, Event, session_opened, session_deleted, frame_read, Verdict, passed, closed, failed, run,
  reads_on, step, begin_session, on_begin, on_end, on_frame, add_session, new_session,
  delete_session,
}

-- The frame neither begins nor ends the session on the channel.
abbrev pub Leaves : ℕ → Event → Type 0
Leaves channel (session_opened s) = Unit {0}
Leaves channel (session_deleted k) = Unit {0}
Leaves channel (frame_read k (begin b)) = k ≢ channel
Leaves channel (frame_read k (end e)) = k ≢ channel
Leaves channel (frame_read k body) = Unit {0}

-- The frame is for a session.
abbrev pub ForSession : FrameBody → Type 0
ForSession (begin b) = ⊥
ForSession (close e) = ⊥
ForSession body = Unit {0}

abbrev pub owner : ℕ → Conn → Option ℕ
owner channel c = lookup channel c.sessions_by_remote_channel

add_session-owner :
    (channel s : ℕ) (c : Conn) (r : Bitmap × ℕ × Bool)
    → owner channel (add_session s c r).0 ≡ owner channel c
add_session-owner channel s c (b, n, true) = refl
add_session-owner channel s c (b, n, false) = refl

begin_session-owner :
    (k channel remote : ℕ) (o : Option ℕ) (c : Conn)
    → k ≢ channel
    → owner channel (begin_session k remote o c).0 ≡ owner channel c
begin_session-owner k channel remote none c n = refl
begin_session-owner k channel remote (some s) c n =
    lookup-insert k channel s c.sessions_by_remote_channel ∙ rw (ne→== k channel n) refl

on_begin-owner :
    (k channel : ℕ) (o : Option ℕ) (c : Conn)
    → k ≢ channel
    → owner channel (on_begin k o c).0 ≡ owner channel c
on_begin-owner k channel none c n = refl
on_begin-owner k channel (some remote) c n =
    begin_session-owner k channel remote (lookup remote c.sessions_by_channel) c n

on_end-owner :
    (k channel : ℕ) (o : Option ℕ) (c : Conn)
    → k ≢ channel
    → owner channel (on_end k o c).0 ≡ owner channel c
on_end-owner k channel none c n = refl
on_end-owner k channel (some s) c n =
    lookup-delete k channel c.sessions_by_remote_channel ∙ rw (ne→== k channel n) refl

reads_on-owner :
    (channel : ℕ) (p : Conn × Verdict) (c : Conn) (o : Option ℕ)
    → owner channel p.0 ≡ o
    → reads_on p ≡ some c
    → owner channel c ≡ o
reads_on-owner channel (d, passed s) c o q e = let same : d ≡ c = cc e in rw same at q
reads_on-owner channel (d, closed) c o q e = cc e
reads_on-owner channel (d, failed x) c o q e = cc e

step-owner :
    (channel : ℕ) (e : Event) (c c' : Conn)
    → Leaves channel e
    → step e c ≡ some c'
    → owner channel c' ≡ owner channel c
unfolding on_frame new_session delete_session
step-owner channel (session_opened s) c c' l e =
    let same : (new_session s c).0 ≡ c' = cc e in
    rw (← same) (add_session-owner channel s c (next c.channels))
step-owner channel (session_deleted k) c c' l e =
    let same : delete_session k c ≡ c' = cc e in rw (← same) refl
step-owner channel (frame_read k (begin b)) c c' l e =
    reads_on-owner channel _ c' _ (on_begin-owner k channel b.remote_channel c l) e
step-owner channel (frame_read k (end x)) c c' l e =
    reads_on-owner channel _ c' _
      (on_end-owner k channel (lookup k c.sessions_by_remote_channel) c l) e
step-owner channel (frame_read k (close none)) c c' l e = cc e
step-owner channel (frame_read k (close (some x))) c c' l e = cc e
step-owner channel (frame_read k (flow x)) c c' l e = reads_on-owner channel _ c' _ refl e
step-owner channel (frame_read k (transfer x)) c c' l e = reads_on-owner channel _ c' _ refl e
step-owner channel (frame_read k (disposition x)) c c' l e = reads_on-owner channel _ c' _ refl e
step-owner channel (frame_read k (attach x)) c c' l e = reads_on-owner channel _ c' _ refl e
step-owner channel (frame_read k (detach x)) c c' l e = reads_on-owner channel _ c' _ refl e
step-owner channel (frame_read k (other x)) c c' l e = reads_on-owner channel _ c' _ refl e

run-owner :
    (channel : ℕ) (es : List Event) (c c' : Conn)
    → All (Leaves channel) es
    → run es c ≡ some c'
    → owner channel c' ≡ owner channel c
run-owner channel [] c c' l e = let same : c ≡ c' = cc e in rw same refl
run-owner channel (x ∷ es) c c' l e =
    let (d, (q, h)) = went_on (step x c) (λ d. run es d) c' e in
    run-owner channel es d c' l.1 h ∙ step-owner channel x c d l.0 q

passed_on :
    (channel s : ℕ) (body : FrameBody) (c : Conn)
    → ForSession body
    → owner channel c ≡ some s
    → (on_frame channel body c).1 ≡ passed s
unfolding on_frame
passed_on channel s (begin b) c f e = elim f [ ]
passed_on channel s (close x) c f e = elim f [ ]
passed_on channel s (end x) c f e = rw e refl
passed_on channel s (flow x) c f e = rw e refl
passed_on channel s (transfer x) c f e = rw e refl
passed_on channel s (disposition x) c f e = rw e refl
passed_on channel s (attach x) c f e = rw e refl
passed_on channel s (detach x) c f e = rw e refl
passed_on channel s (other x) c f e = rw e refl

begun :
    (channel local s : ℕ) (b : Begin) (c c' : Conn)
    → b.remote_channel ≡ some local
    → lookup local c.sessions_by_channel ≡ some s
    → step (frame_read channel (begin b)) c ≡ some c'
    → owner channel c' ≡ some s
unfolding on_frame
begun channel local s b c c' r h e =
    reads_on-owner channel (on_begin channel b.remote_channel c) c' (some s)
      (rw (r, h)
        (lookup-insert channel channel s c.sessions_by_remote_channel
          ∙ rw (eq→== channel channel refl) refl))
      e

-- When the peer begins a session on its channel, and its begin names the channel of a local session,
-- every later frame on the peer's channel but a close of the connection goes to that session, up to the
-- next begin or end on it, whatever else is read, opened or deleted in between.
pub on_frame_routes :
    (channel local s : ℕ) (b : Begin) (es : List Event) (body : FrameBody) (c c' : Conn)
    → b.remote_channel ≡ some local
    → lookup local c.sessions_by_channel ≡ some s
    → All (Leaves channel) es
    → run (frame_read channel (begin b) ∷ es) c ≡ some c'
    → ForSession body
    → (on_frame channel body c').1 ≡ passed s
on_frame_routes channel local s b es body c c' r h l e f =
    let (d, (q, x)) = went_on (step (frame_read channel (begin b)) c) (λ d. run es d) c' e in
    passed_on channel s body c' f
      (run-owner channel es d c' l x ∙ begun channel local s b c d r h q)

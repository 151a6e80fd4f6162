-- ===== src/Connection/Channels.antt =====
-- The channels of a connection and the sessions on them.
use go_amqp.Base.{
  ℕ, ◌%◌, ◌^◌, ◌<◌, ◌≤◌, ◌≡◌, ◌⊎◌, List, [], ◌∷◌, refl, ap, sym, ◌∙◌, Bool, inl, inr, true, false,
  Option, none, some, ◌==◌, if◌then◌else◌, arith,
}
use go_amqp.Base.Maps.{lookup, lookup-insert, lookup-delete}
use go_amqp.Bitmap.{Bitmap, next, remove, contains, new}
use go_amqp.Bitmap.Valid
use go_amqp.Bitmap.Valid.{next-max, remove-max, remove-IsValid, new-IsValid}
use go_amqp.Bitmap.Laws.{contains-remove}
use go_amqp.Bitmap.Alloc.{next_free, next_refuses, next-IsValid}
use go_amqp.Frames.Performatives.{
  FrameBody, flow, transfer, disposition, attach, detach, begin, end, close, other,
}
use go_amqp.Connection.{
  Event, session_opened, session_deleted, frame_read, run, run_on, reads_on, step, start,
  begin_session, on_begin, on_end, on_frame, Verdict, passed, closed, failed, Conn, add_session,
  new_session, delete_session,
}

-- The channel of each session is taken, and is a uint16.
pub record IsValid (c : Conn) : Type 0 where
  pub bitmap : Valid.IsValid c.channels
  pub small : c.channels.max < 2 ^ 16
  pub taken :
      (channel s : ℕ)
      → lookup channel c.sessions_by_channel ≡ some s
      → contains c.channels channel ≡ true

-- What an allocation does to the other channels.
pub record Opened (c c' : Conn) (s : ℕ) (channel : ℕ) : Type 0 where
  pub limit : channel ≤ c.channels.max
  pub unused : lookup channel c.sessions_by_channel ≡ none
  pub sessions :
      (j : ℕ)
      → lookup j c'.sessions_by_channel
        ≡ (if channel == j then some s else lookup j c.sessions_by_channel)

not_taken :
    (c : Conn) (n : ℕ)
    → IsValid c
    → contains c.channels n ≡ false
    → lookup n c.sessions_by_channel ≡ none
not_taken c n v f = absent (lookup n c.sessions_by_channel) (λ s e. v.taken n s e) f
  where
    absent : {b : Bool} (o : Option ℕ) → ((s : ℕ) → o ≡ some s → b ≡ true) → b ≡ false → o ≡ none
    absent none t e = refl
    absent (some s) t e = cc (t s refl, e)

add_session-Opened :
    (s : ℕ) (c : Conn) (r : Bitmap × ℕ × Bool) (channel : ℕ)
    → next c.channels ≡ r
    → IsValid c
    → (add_session s c r).1 ≡ some channel
    → Opened c (add_session s c r).0 s channel
add_session-Opened s c (b, n, true) channel e v h =
    let f = next_free c.channels b n n v.bitmap e in
    let same : n % 2 ^ 16 ≡ n = omega (arith, f.0, v.small) in
    let wrapped : n % 2 ^ 16 ≡ channel = cc h in
    let named : n ≡ channel = cc (same, wrapped) in
    record {
      limit = rw named at f.0;
      unused = rw named at (not_taken c n v f.1);
      sessions = λ j. rw wrapped (lookup-insert channel j s c.sessions_by_channel);
    }
add_session-Opened s c (b, n, false) channel e v h = cc h

-- When `newSession` gives a session a channel on a valid connection, the channel is at most the
-- bitmap's maximum and was no session's, and the session is then found there, all others where they
-- were.
pub new_session_opens :
    (s channel : ℕ) (c : Conn)
    → IsValid c
    → (new_session s c).1 ≡ some channel
    → Opened c (new_session s c).0 s channel
unfolding new_session
new_session_opens s channel c v h = add_session-Opened s c (next c.channels) channel refl v h

some_if :
    (b : Bool) (o : Option ℕ) (s t : ℕ)
    → (if b then some s else o) ≡ some t
    → (b ≡ true) ⊎ (o ≡ some t)
some_if true o s t e = inl refl
some_if false o s t e = inr e

add_session-IsValid :
    (s : ℕ) (c : Conn) (r : Bitmap × ℕ × Bool)
    → next c.channels ≡ r
    → IsValid c
    → IsValid (add_session s c r).0
add_session-IsValid s c (b, n, true) e v =
    let limit : n ≤ c.channels.max = (next_free c.channels b n n v.bitmap e).0 in
    let same : n % 2 ^ 16 ≡ n = omega (arith, limit, v.small) in
    let after = λ (m : ℕ). (next_free c.channels b n m v.bitmap e).3 in
    record {
      bitmap = rw e at (next-IsValid c.channels v.bitmap);
      small =
          omega (arith, ap (λ (p : Bitmap × ℕ × Bool). p.0.max) e, next-max c.channels, v.small);
      taken = λ channel t q.
          elim (some_if (n == channel) _ s t
            (sym (lookup-insert n channel s c.sessions_by_channel) ∙ rw same at q)) [
              | inl here ↦ after channel ∙ rw here refl
              | inr old ↦ after channel ∙ rw (v.taken channel t old) (ground arith)
            ];
    }
add_session-IsValid s c (b, n, false) e v =
    let same : b ≡ c.channels = (next_refuses c.channels b n 0 v.bitmap e (omega arith)).0 in
    record { bitmap = rw same v.bitmap; small = rw same v.small; taken = rw same v.taken }

none_if :
    (b : Bool) (o : Option ℕ) (t : ℕ)
    → (if b then none else o) ≡ some t
    → (b ≡ false) × (o ≡ some t)
none_if true o t e = cc e
none_if false o t e = (refl, e)

kept_taken :
    (c : Conn) (channel j t : ℕ)
    → IsValid c
    → (if channel == j then none else lookup j c.sessions_by_channel) ≡ some t
    → contains (remove c.channels channel) j ≡ true
kept_taken c channel j t v e =
    let p = none_if (channel == j) _ t e in
    contains-remove c.channels channel j ∙ rw (p.0, v.taken j t p.1) refl

delete_session-IsValid : (channel : ℕ) (c : Conn) → IsValid c → IsValid (delete_session channel c)
unfolding delete_session
delete_session-IsValid channel c v = record {
  bitmap = remove-IsValid c.channels channel v.bitmap;
  small = omega (arith, remove-max c.channels channel, v.small);
  taken =
      λ j t q. kept_taken c channel j t v (sym (lookup-delete channel j c.sessions_by_channel) ∙ q);
}

begin_session-IsValid :
    (channel remote : ℕ) (o : Option ℕ) (c : Conn)
    → IsValid c
    → IsValid (begin_session channel remote o c).0
begin_session-IsValid channel remote none c v = v
begin_session-IsValid channel remote (some s) c v = record {
  bitmap = v.bitmap;
  small = v.small;
  taken = v.taken;
}

on_begin-IsValid :
    (channel : ℕ) (o : Option ℕ) (c : Conn) → IsValid c → IsValid (on_begin channel o c).0
on_begin-IsValid channel none c v = v
on_begin-IsValid channel (some remote) c v =
    begin_session-IsValid channel remote (lookup remote c.sessions_by_channel) c v

on_end-IsValid :
    (channel : ℕ) (o : Option ℕ) (c : Conn) → IsValid c → IsValid (on_end channel o c).0
on_end-IsValid channel none c v = v
on_end-IsValid channel (some s) c v = record { bitmap = v.bitmap; small = v.small; taken = v.taken }

on_frame-IsValid :
    (channel : ℕ) (body : FrameBody) (c : Conn) → IsValid c → IsValid (on_frame channel body c).0
unfolding on_frame
on_frame-IsValid channel (close none) c v = v
on_frame-IsValid channel (close (some e)) c v = v
on_frame-IsValid channel (begin b) c v = on_begin-IsValid channel b.remote_channel c v
on_frame-IsValid channel (end e) c v =
    on_end-IsValid channel (lookup channel c.sessions_by_remote_channel) c v
on_frame-IsValid channel (flow x) c v = v
on_frame-IsValid channel (transfer x) c v = v
on_frame-IsValid channel (disposition x) c v = v
on_frame-IsValid channel (attach x) c v = v
on_frame-IsValid channel (detach x) c v = v
on_frame-IsValid channel (other x) c v = v

reads_on-IsValid : (p : Conn × Verdict) (c : Conn) → IsValid p.0 → reads_on p ≡ some c → IsValid c
reads_on-IsValid (c, passed s) c' v e = let same : c ≡ c' = cc e in rw same at v
reads_on-IsValid (c, closed) c' v e = cc e
reads_on-IsValid (c, failed x) c' v e = cc e

step-IsValid : (e : Event) (c c' : Conn) → IsValid c → step e c ≡ some c' → IsValid c'
unfolding new_session
step-IsValid (session_opened s) c c' v e =
    let same : (new_session s c).0 ≡ c' = cc e in
    rw same at (add_session-IsValid s c (next c.channels) refl v)
step-IsValid (session_deleted channel) c c' v e =
    let same : delete_session channel c ≡ c' = cc e in
    rw same at (delete_session-IsValid channel c v)
step-IsValid (frame_read channel body) c c' v e =
    reads_on-IsValid (on_frame channel body c) c' (on_frame-IsValid channel body c v) e

-- A run that goes on has a connection after its first event.
pub went_on :
    (o : Option Conn) (k : Conn → Option Conn) (c : Conn)
    → run_on o k ≡ some c
    → (d : Conn) × ((o ≡ some d) × (k d ≡ some c))
went_on none k c e = cc e
went_on (some d) k c e = (d, (refl, e))

-- Whatever sessions are opened and deleted and whatever frames are read, as long as the reader goes on,
-- a valid connection stays valid: each session's channel is marked as taken, and the channels are
-- uint16s.
pub run-IsValid : (es : List Event) (c c' : Conn) → IsValid c → run es c ≡ some c' → IsValid c'
run-IsValid [] c c' v e = let same : c ≡ c' = cc e in rw same at v
run-IsValid (x ∷ es) c c' v e =
    let (d, (q, h)) = went_on (step x c) (λ d. run es d) c' e in
    run-IsValid es d c' (step-IsValid x c d v q) h

-- The connection that `start` makes, with a channel maximum that is a uint16 and no sessions, is valid.
pub start-IsValid :
    (c : Conn) → c.channel_max < 2 ^ 16 → c.sessions_by_channel ≡ [] → IsValid (start c)
unfolding start new lookup
start-IsValid c h none_yet = record {
  bitmap = new-IsValid c.channel_max (omega arith);
  small = h;
  taken = λ channel s e. cc (rw none_yet at e);
}

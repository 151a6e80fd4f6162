-- ===== src/Session/Dispose.antt =====
-- session.go, the case *frames.PerformDisposition: the loop over the delivery ids of the frame.
-- The loop counts in uint32, so it is on fuel; `none` means that the fuel ran out.
use go_amqp.Base.{
  ℕ, zero, suc, Bool, true, false, ◌&&◌, Option, none, some, List, [], ◌∷◌, ◌++◌, ltb,
  if◌then◌else◌, add32,
}
use go_amqp.Base.Maps.{Map, lookup, delete}
use go_amqp.Frames.Performatives.{Disposition, disposition}
use go_amqp.Session.{Mux, Action, settles, frame_to}

-- A role is true for a receiver. A sender's disposition is about what we received.
abbrev pub handles_for : Bool → Mux → Map ℕ
handles_for true s = s.handles_by_delivery_id
handles_for false s = s.handles_by_remote_delivery_id

abbrev pub forget : Bool → ℕ → Mux → Mux
forget true id s = record s { handles_by_delivery_id = delete id s.handles_by_delivery_id }
forget false id s = record s {
  handles_by_remote_delivery_id = delete id s.handles_by_remote_delivery_id;
}

-- The channel that waits for the settlement gets the state and is closed.
abbrev pub confirm : Disposition → ℕ → Option ℕ → Mux → Mux × List Action
confirm body id none s = (s, [])
confirm body id (some done) s = (
  record s { settlement_by_delivery_id = delete id s.settlement_by_delivery_id },
  settles done body.state ∷ [],
)

abbrev pub settle : Disposition → ℕ → Mux → Mux × List Action
settle body id s =
    if body.settled && body.role
    then confirm body id (lookup id s.settlement_by_delivery_id) s
    else (s, [])

abbrev pub dispose_found : Disposition → ℕ → Option ℕ → Mux → Mux × List Action
dispose_found body id none s = (s, [])
dispose_found body id (some handle) s =
    let (s', sent) = settle body id (forget body.role id s) in
    (s', sent ++ frame_to (lookup handle s'.links) (disposition body))

-- One round of the loop.
unfoldable pub dispose : Disposition → ℕ → Mux → Mux × List Action
dispose body id s = dispose_found body id (lookup id (handles_for body.role s)) s

-- `for deliveryID := start; deliveryID <= end; deliveryID++`
unfoldable pub dispose_loop :
    ℕ → Disposition → ℕ → ℕ → Mux → List Action → Option (Mux × List Action)
dispose_loop zero body id last s sent = none
dispose_loop (suc fuel) body id last s sent =
    let (s', more) = dispose body id s in
    let rest = dispose_loop fuel body (add32 id 1) last s' (sent ++ more) in
    if ltb last id then some (s, sent) else rest

abbrev pub last_of : Disposition → Option ℕ → ℕ
last_of body none = body.first
last_of body (some n) = n

unfoldable pub on_disposition : ℕ → Disposition → Mux → Option (Mux × List Action)
unfolding dispose_loop
on_disposition fuel body s = dispose_loop fuel body body.first (last_of body body.last) s []

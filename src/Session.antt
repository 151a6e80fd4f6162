-- ===== src/Session.antt =====
-- session.go: the session's multiplexer. Its variables and the fields of the session that it uses
-- are one record; each case of its select is a function from that record to what the loop does
-- next. A link is a number; a channel on which a sender waits for a settlement is a number. What a
-- handler sends on channels is a list of actions, in order: the select of `muxFrameToLink` is the
-- action `to_link`, whichever of its cases fires.
pub mod Flows
pub mod Dispose
pub mod Settlement
pub mod Handles
pub mod Lifecycle
use go_amqp.Base.{
  ℕ, zero, suc, ◌+◌, ◌-◌, ◌*◌, ◌/◌, ◌%◌, ◌^◌, Bool, true, false, ◌&&◌, ◌||◌, not, Option, none,
  some, List, [], ◌∷◌, ◌++◌, ltb, leb, ◌==◌, if◌then◌else◌, add32, sub32,
}
use go_amqp.Base.Maps.{Map, lookup, insert, delete}
use go_amqp.Frames.Performatives.{
  AmqpError, err_cond_not_allowed, DeliveryState, Flow, Transfer, Disposition, Attach, Detach,
  Begin, FrameBody, flow, transfer, disposition, attach, detach, begin, end,
}

-- `link_modes` holds the receiver settle mode of each link, where it is set; `link_handles` and
-- `remote_handles` our handle and the peer's of each link.
pub record Mux : Type 0 where
  pub incoming_window : ℕ
  pub outgoing_window : ℕ
  pub need_flow_count : ℕ
  pub links : Map ℕ
  pub link_handles : Map ℕ
  pub link_modes : Map ℕ
  pub remote_handles : Map ℕ
  pub handles_by_delivery_id : Map ℕ
  pub delivery_id_by_handle : Map ℕ
  pub handles_by_remote_delivery_id : Map ℕ
  pub settlement_by_delivery_id : Map ℕ
  pub next_outgoing_id : ℕ
  pub next_incoming_id : ℕ
  pub remote_incoming_window : ℕ
  pub remote_outgoing_window : ℕ

-- A frame for the connection writer (with the channel to close once it is written), a frame for a
-- link, or a settlement: the state is sent on the channel, which is then closed.
pub data Action : Type 0 where
  sends : FrameBody → Option ℕ → Action
  to_link : ℕ → FrameBody → Action
  settles : ℕ → Option DeliveryState → Action

pub data MuxError : Type 0 where
  no_next_incoming_id mismatched_attach : MuxError
  remote : AmqpError → MuxError

-- How a round of the loop ends: it goes on, or the mux returns, with `s.err` set or not, or panics.
pub data Round : Type 0 where
  goes_on : Mux → List Action → Round
  returns : Mux → List Action → Option MuxError → Round
  panics : Round

unfoldable pub start : ℕ → ℕ → Begin → Mux
start incoming_window outgoing_window remote_begin = record {
  incoming_window = incoming_window;
  outgoing_window = outgoing_window;
  need_flow_count = 0;
  links = [];
  link_handles = [];
  link_modes = [];
  remote_handles = [];
  handles_by_delivery_id = [];
  delivery_id_by_handle = [];
  handles_by_remote_delivery_id = [];
  settlement_by_delivery_id = [];
  next_outgoing_id = 0;
  next_incoming_id = remote_begin.next_outgoing_id;
  remote_incoming_window = remote_begin.incoming_window;
  remote_outgoing_window = remote_begin.outgoing_window;
}

-- Whether the select listens on `txTransfer` in this round.
unfoldable pub can_transfer : Mux → Bool
can_transfer s = not (s.remote_incoming_window == 0 || s.outgoing_window == 0)

-- The session's own flow frame.
abbrev pub session_flow : Mux → Flow
session_flow s = record {
  next_incoming_id = some s.next_incoming_id;
  incoming_window = s.incoming_window;
  next_outgoing_id = s.next_outgoing_id;
  outgoing_window = s.outgoing_window;
  handle = none;
  delivery_count = none;
  link_credit = none;
  drain = false;
  echo = false;
}

abbrev pub frame_to : Option ℕ → FrameBody → List Action
frame_to none fr = []
frame_to (some l) fr = to_link l fr ∷ []

-- The case *frames.PerformFlow.
abbrev pub update_windows : Flow → ℕ → Mux → Mux
update_windows body next_incoming s = record s {
  next_incoming_id = body.next_outgoing_id;
  remote_outgoing_window = body.outgoing_window;
  remote_incoming_window = add32 (sub32 body.incoming_window s.next_outgoing_id) next_incoming;
}

abbrev pub after_flow : Flow → Option ℕ → Mux → Round
after_flow body (some h) s = goes_on s (frame_to (lookup h s.links) (flow body))
after_flow body none s =
    if body.echo then goes_on s (sends (flow (session_flow s)) none ∷ []) else goes_on s []

abbrev pub with_next_id : Flow → Option ℕ → Mux → Round
with_next_id body none s =
    returns s (sends (end (some err_cond_not_allowed)) none ∷ []) (some no_next_incoming_id)
with_next_id body (some id) s = after_flow body body.handle (update_windows body id s)

unfoldable pub on_flow : Flow → Mux → Round
on_flow body s = with_next_id body body.next_incoming_id s

-- The case *frames.PerformAttach; `found` is the result of the lookup in `linksByKey`.
abbrev pub attach_link : Attach → Option ℕ → Mux → Round
attach_link body none s = returns s [] (some mismatched_attach)
attach_link body (some l) s =
    goes_on
      (record s {
        links = insert body.handle l s.links;
        remote_handles = insert l body.handle s.remote_handles;
      })
      (to_link l (attach body) ∷ [])

unfoldable pub on_attach : Attach → Option ℕ → Mux → Round
on_attach body found s = attach_link body found s

-- The case *frames.PerformTransfer.
abbrev pub receive_transfer : Mux → Mux
receive_transfer s = record s {
  need_flow_count = add32 s.need_flow_count 1;
  next_incoming_id = add32 s.next_incoming_id 1;
  remote_outgoing_window =
      if ltb 0 s.remote_outgoing_window
      then s.remote_outgoing_window - 1
      else s.remote_outgoing_window;
}

-- Unsettled, on a link whose receiver settle mode is second (1).
abbrev pub record_remote : Transfer → Option ℕ → Option ℕ → Mux → Mux
record_remote body (some id) (some mode) s =
    if not body.settled && mode == 1
    then record s {
      handles_by_remote_delivery_id = insert id body.handle s.handles_by_remote_delivery_id;
    }
    else s
record_remote body _ _ s = s

abbrev pub flow_if_due : List Action → Mux → Round
flow_if_due sent s =
    if leb (s.incoming_window / 2) s.need_flow_count
    then goes_on (record s { need_flow_count = 0 })
        (sent ++ sends (flow (session_flow s)) none ∷ [])
    else goes_on s sent

abbrev pub transfer_to : Transfer → Option ℕ → Mux → Round
transfer_to body none s = goes_on s []
transfer_to body (some l) s =
    flow_if_due (to_link l (transfer body) ∷ [])
      (record_remote body body.delivery_id (lookup l s.link_modes) s)

unfoldable pub on_transfer : Transfer → Mux → Round
on_transfer body s = transfer_to body (lookup body.handle s.links) (receive_transfer s)

-- A field of a link that was never written is 0; so is a map's value at a missing key.
abbrev pub field : Option ℕ → ℕ
field none = 0
field (some n) = n

-- The case *frames.PerformDetach.
abbrev pub detach_link : Detach → Option ℕ → Mux → Round
detach_link body none s = goes_on s []
detach_link body (some l) s =
    goes_on
      (record s {
        links = delete (field (lookup l s.remote_handles)) s.links;
        delivery_id_by_handle = delete (field (lookup l s.link_handles)) s.delivery_id_by_handle;
      })
      (to_link l (detach body) ∷ [])

unfoldable pub on_detach : Detach → Mux → Round
on_detach body s = detach_link body (lookup body.handle s.links) s

abbrev pub end_error : Option AmqpError → Option MuxError
end_error none = none
end_error (some e) = some (remote e)

-- The case *frames.PerformEnd.
unfoldable pub on_end : Option AmqpError → Mux → Round
on_end error s = returns s (sends (end none) none ∷ []) (end_error error)

-- The case of a transfer that a sender hands over: the delivery is recorded under its id.
abbrev pub record_delivery : Transfer → Option ℕ → Mux → Mux × ℕ
record_delivery fr (some id) s = (
  record s {
    delivery_id_by_handle = insert fr.handle id s.delivery_id_by_handle;
    handles_by_delivery_id =
        if fr.settled
        then s.handles_by_delivery_id
        else insert id fr.handle s.handles_by_delivery_id;
  },
  id,
)
record_delivery fr none s = (s, field (lookup fr.handle s.delivery_id_by_handle))

abbrev pub forget_settled : Transfer → ℕ → Mux → Mux
forget_settled fr id s =
    if fr.settled
    then record s { handles_by_delivery_id = delete id s.handles_by_delivery_id }
    else s

-- An unsettled transfer with a channel leaves it to the session; else it goes with the frame.
abbrev pub await_settlement : Bool → Option ℕ → ℕ → Mux → Mux × Option ℕ
await_settlement false (some done) id s =
    (record s { settlement_by_delivery_id = insert id done s.settlement_by_delivery_id }, none)
await_settlement _ done id s = (s, done)

abbrev pub count_transfer : Mux → Mux
count_transfer s = record s {
  next_outgoing_id = add32 s.next_outgoing_id 1;
  remote_incoming_window =
      if s.remote_incoming_window == 0
      then s.remote_incoming_window
      else s.remote_incoming_window - 1;
}

unfoldable pub on_tx_transfer : Transfer → Mux → Round
on_tx_transfer fr s =
    let (s₁, id) = record_delivery fr fr.delivery_id s in
    let (s₂, done) = await_settlement fr.settled fr.done id (forget_settled fr id s₁) in
    goes_on (count_transfer s₂) (sends (transfer (record fr { done = done })) done ∷ [])

-- The case of any other frame that a link hands over.
unfoldable pub on_tx : FrameBody → Mux → Round
on_tx (flow fr) s = goes_on s (
    sends
      (flow (record fr {
        next_incoming_id = some s.next_incoming_id;
        incoming_window = s.incoming_window;
        next_outgoing_id = s.next_outgoing_id;
        outgoing_window = s.outgoing_window;
      }))
      none
    ∷ [])
on_tx (transfer fr) s = panics
on_tx fr s = goes_on s (sends fr none ∷ [])

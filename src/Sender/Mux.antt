-- ===== src/Sender/Mux.antt =====
-- sender.go and link.go: the mux of a sender, its credit and the frames that it receives.
pub mod Credit
use go_amqp.Base.{
  ℕ, ◌==◌, Bool, true, false, ◌&&◌, Option, none, some, List, [], ◌∷◌, ltb, if◌then◌else◌, add32,
  sub32,
}
use go_amqp.Frames.Performatives.{
  AmqpError, DeliveryState, rejected, Flow, Transfer, Disposition, Detach, FrameBody, flow,
  disposition, detach,
}

pub record SenderMux : Type 0 where
  pub handle : ℕ
  pub delivery_count : ℕ
  pub available_credit : ℕ
  pub receiver_settle_mode : Option ℕ
  pub detach_on_disposition_error : Bool
  pub detach_received : Bool

-- A DetachError: with the peer's error, if it sent one, or for a detach that does not close.
pub data DetachError : Type 0 where
  remote : Option AmqpError → DetachError
  not_closing : DetachError

-- What a frame leads to: the frames sent in answer, and the error with which the mux ends. The
-- dereference of a missing field panics.
pub data Reaction : Type 0 where
  reacts : SenderMux → List FrameBody → Option DetachError → Reaction
  panics : Reaction

abbrev pub or_zero : Option ℕ → ℕ
or_zero none = 0
or_zero (some n) = n

-- The answer to an echo request; it goes to the connection without the session's fields.
abbrev pub credit_flow : SenderMux → Flow
credit_flow m = record {
  next_incoming_id = none;
  incoming_window = 0;
  next_outgoing_id = 0;
  outgoing_window = 0;
  handle = some m.handle;
  delivery_count = some m.delivery_count;
  link_credit = some m.available_credit;
  drain = false;
  echo = false;
}

abbrev pub set_credit : Flow → ℕ → SenderMux → SenderMux
set_credit fr credit m = record m {
  available_credit = add32 (sub32 credit m.delivery_count) (or_zero fr.delivery_count);
}

-- The case *frames.PerformFlow, on its link credit.
abbrev pub on_credit : Flow → Option ℕ → SenderMux → Reaction
on_credit fr none m = panics
on_credit fr (some credit) m =
    let m' = set_credit fr credit m in
    reacts m' (if fr.echo then flow (credit_flow m') ∷ [] else []) none

abbrev pub is_first : Option ℕ → Bool
is_first none = true
is_first (some mode) = mode == 0

-- First is 0.
abbrev pub detach_on_reject_disp : SenderMux → Bool
detach_on_reject_disp m = m.detach_on_disposition_error && is_first m.receiver_settle_mode

abbrev pub confirmation : Disposition → Disposition
confirmation fr = record {
  role = false;
  first = fr.first;
  last = fr.last;
  settled = true;
  state = none;
}

abbrev pub confirm : Disposition → SenderMux → Reaction
confirm fr m = reacts m (if fr.settled then [] else disposition (confirmation fr) ∷ []) none

-- The case *frames.PerformDisposition, on its state.
abbrev pub on_state : Disposition → Option DeliveryState → SenderMux → Reaction
on_state fr (some (rejected e)) m =
    if detach_on_reject_disp m then reacts m [] (some (remote e)) else confirm fr m
on_state fr state m = confirm fr m

-- The link's own part, `link.muxHandleFrame`.
abbrev pub on_detach : Detach → SenderMux → Reaction
on_detach fr m =
    if fr.closed
    then reacts (record m { detach_received = true }) [] (some (remote fr.error))
    else reacts m [] (some not_closing)

unfoldable pub mux_handle_frame : FrameBody → SenderMux → Reaction
mux_handle_frame (flow fr) m = on_credit fr fr.link_credit m
mux_handle_frame (disposition fr) m = on_state fr fr.state m
mux_handle_frame (detach fr) m = on_detach fr m
mux_handle_frame fr m = reacts m [] none

-- Whether the select listens for transfers in this round.
unfoldable pub takes : SenderMux → Bool
takes m = ltb 0 m.available_credit

-- After the session took the transfer.
unfoldable pub handed_on : Transfer → SenderMux → SenderMux
handed_on tr m = if tr.more then m else record m {
  delivery_count = add32 m.delivery_count 1;
  available_credit = sub32 m.available_credit 1;
}

-- ===== src/Sender.antt =====
-- sender.go: how `send` splits a message into transfers, and the sender's mux. The message enters
-- as the bytes that `Message.Marshal` put into the buffer; a channel is a number.
pub mod Chunks
pub mod Delivery
pub mod Mux
use go_amqp.Base.{
  ℕ, zero, suc, ◌+◌, ◌-◌, ◌/◌, ◌%◌, ◌^◌, Bool, true, false, ◌&&◌, ◌||◌, not, Option, none, some,
  List, [], ◌∷◌, ltb, leb, ◌==◌, if◌then◌else◌, length, take, drop, add32, sub32,
}
use go_amqp.Buffer.{bytes_uint64}
use go_amqp.Frames.Performatives.{
  AmqpError, DeliveryState, rejected, Flow, Transfer, Disposition, Detach, FrameBody, flow,
  transfer, disposition, detach,
}

-- What the select of `send` finds for each transfer: the mux takes it, the link is detached, or
-- the context has ended.
pub data Wake : Type 0 where
  handed detached cancelled : Wake

pub data SendError : Type 0 where
  tag_too_long message_too_large link_detached context_done : SendError

-- How `send` ends: with the channel on which the confirmation comes (none for an empty message), or
-- with an error. A negative payload size makes the slice of the buffer panic.
pub data SendEnd : Type 0 where
  sent_all : Option ℕ → SendEnd
  failed : SendError → SendEnd
  panicked : SendEnd

abbrev pub max_delivery_tag_length : ℕ
max_delivery_tag_length = 32

abbrev pub max_transfer_frame_header : ℕ
max_transfer_frame_header = 66

-- The transfer of the next chunk; the last one is settled in the sender's mode, and has the
-- channel.
abbrev pub fill : Bool → ℕ → ℕ → List ℕ → Transfer → Transfer
fill sender_settled channel max_payload bytes fr =
    let more = ltb 0 (length (drop max_payload bytes)) in
    record fr {
      payload = take max_payload bytes;
      more = more;
      settled = if more then fr.settled else sender_settled;
      done = if more then fr.done else some channel;
    }

-- What only the first transfer of a message has.
abbrev pub cleared : Transfer → Transfer
cleared fr = record fr { delivery_id = none; delivery_tag = none; message_format = none }

abbrev pub handed_over :
    Transfer → Option (List Transfer × SendEnd) → Option (List Transfer × SendEnd)
handed_over fr none = none
handed_over fr (some (frs, e)) = some (fr ∷ frs, e)

-- What follows the select: `later` is the rest of the loop.
abbrev pub after_wake :
    Wake → Transfer → Option (List Transfer × SendEnd) → Option (List Transfer × SendEnd)
after_wake handed fr later = handed_over fr later
after_wake detached fr later = some ([], failed link_detached)
after_wake cancelled fr later = some ([], failed context_done)

-- `for fr.More`, on fuel: the transfers handed to the mux, and the end. `none` means that the fuel
-- ran out.
unfoldable pub send_loop :
    ℕ → Bool → ℕ → ℕ → (ℕ → Wake) → ℕ → List ℕ → Transfer → Option (List Transfer × SendEnd)
send_loop zero sender_settled channel max_payload wakes n bytes fr = none
send_loop (suc fuel) sender_settled channel max_payload wakes n bytes fr =
    let filled = fill sender_settled channel max_payload bytes fr in
    let later =
      send_loop fuel sender_settled channel max_payload wakes (n + 1) (drop max_payload bytes)
        (cleared filled) in
    if fr.more then after_wake (wakes n) filled later else some ([], sent_all fr.done)

pub record Sender : Type 0 where
  pub handle : ℕ
  pub max_message_size : ℕ
  pub peer_max_frame_size : ℕ
  pub sender_settle_mode : Option ℕ
  pub next_delivery_tag : ℕ
  pub next_delivery_id : ℕ

pub record Message : Type 0 where
  pub tag : List ℕ
  pub format : ℕ
  pub send_settled : Bool
  pub encoded : List ℕ

-- Settled is 1, mixed is 2.
abbrev pub settles_itself : Option ℕ → Bool → Bool
settles_itself none send_settled = false
settles_itself (some mode) send_settled = mode == 1 || mode == 2 && send_settled

abbrev pub tag_for : Sender → Message → List ℕ
tag_for s msg = if length msg.tag == 0 then bytes_uint64 s.next_delivery_tag else msg.tag

-- The sender after a message that passed the checks.
abbrev pub count_message : Sender → Message → Sender
count_message s msg = record s {
  next_delivery_id = add32 s.next_delivery_id 1;
  next_delivery_tag =
      if length msg.tag == 0 then (s.next_delivery_tag + 1) % 2 ^ 64 else s.next_delivery_tag;
}

abbrev pub first_transfer : Sender → Message → Transfer
first_transfer s msg = record {
  handle = s.handle;
  delivery_id = some (add32 s.next_delivery_id 1);
  delivery_tag = some (tag_for s msg);
  message_format = some msg.format;
  settled = false;
  more = ltb 0 (length msg.encoded);
  aborted = false;
  payload = [];
  done = none;
}

-- The loop on a payload size that may be negative.
abbrev pub send_chunks : ℕ → (ℕ → Wake) → ℕ → Sender → Message → Option (List Transfer × SendEnd)
send_chunks fuel wakes channel s msg =
    if ltb s.peer_max_frame_size max_transfer_frame_header && ltb 0 (length msg.encoded)
    then some ([], panicked)
    else send_loop fuel (settles_itself s.sender_settle_mode msg.send_settled) channel
        (s.peer_max_frame_size - max_transfer_frame_header) wakes 0 msg.encoded
        (first_transfer s msg)

unfoldable pub send :
    ℕ → (ℕ → Wake) → ℕ → Sender → Message → Option (Sender × List Transfer × SendEnd)
unfolding send_loop
send fuel wakes channel s msg =
    if ltb max_delivery_tag_length (length msg.tag)
    then some (s, [], failed tag_too_long)
    else if not (s.max_message_size == 0) && ltb s.max_message_size (length msg.encoded)
    then some (s, [], failed message_too_large)
    else elim (send_chunks fuel wakes channel s msg) [
      | none ↦ none
      | some (frs, e) ↦ some (count_message s msg, frs, e)
    ]

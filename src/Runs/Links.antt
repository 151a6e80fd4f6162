-- ===== src/Runs/Links.antt =====
-- The sender of sender.go and the receiver of receiver.go on concrete inputs.
use go_amqp.Base.{
  ◌+◌, ℕ, ◌-◌, ◌≡◌, refl, inr, true, false, Option, none, some, List, [], ◌∷◌, length, add32, ◌^◌,
  arith, ap, All,
}
use go_amqp.Buffer.{Error, new, len}
use go_amqp.Buffer.Laws.{new-IsValid, unread-new}
use go_amqp.Frames.Performatives.{err_cond_message_size_exceeded, Transfer, Flow, flow}
use go_amqp.Sender.{
  Sender, Message, sent_all, failed, context_done, max_transfer_frame_header, settles_itself,
  tag_for, count_message, first_transfer, send,
}
use go_amqp.Sender.Chunks.{always, Carries}
use go_amqp.Sender.Mux.{
  SenderMux, reacts, DetachError, set_credit, mux_handle_frame, takes, handed_on,
}
use go_amqp.Sender.Mux.Credit
use go_amqp.Sender.Mux.Credit.{Hands, mux_handle_frame-limit, Hands_within, handed_on-set_credit}
use go_amqp.Sender.Delivery.{IsAccepted, IsEmpty, first_taken, send-Carries, send_endless}
use go_amqp.Receiver.{Receiver, closing, empty_msg, mux_receive, receive_all}
use go_amqp.Receiver.Reassembly.{IsIdle, delivered}
use go_amqp.Receiver.Sent.{receive_all-send}
use go_amqp.Receiver.Bounds.{
  IsBounded, Counted, mux_receive-IsBounded, mux_receive-Counted, mux_receive_closes,
}

-- Frames of the peer with room for two bytes of payload.
abbrev narrow : Sender
narrow = record {
  handle = 0;
  max_message_size = 10;
  peer_max_frame_size = 68;
  sender_settle_mode = none;
  next_delivery_tag = 0;
  next_delivery_id = 4;
}

abbrev message : Message
message = record {
  tag = 7 ∷ [];
  format = 0;
  send_settled = false;
  encoded = 1 ∷ 2 ∷ 3 ∷ 4 ∷ 5 ∷ [];
}

message-IsAccepted : IsAccepted narrow message
message-IsAccepted = record { tag = omega arith; size = refl }

send-Carries_example :
    (frs : List Transfer) × (send 7 always 3 narrow message
      ≡ some (count_message narrow message, frs, sent_all (some 3)))
    × Carries
        (settles_itself narrow.sender_settle_mode message.send_settled)
        3
        (narrow.peer_max_frame_size - max_transfer_frame_header)
        (first_transfer narrow message)
        message.encoded
        frs
send-Carries_example =
    send-Carries 7 3 narrow message message-IsAccepted (omega arith) (omega arith) (omega arith)

abbrev header_only : Sender
header_only = record narrow { peer_max_frame_size = 66 }

send_endless_example :
    (send 100 always 3 header_only message ≡ none)
    × ((frs : List Transfer) × (send 4 (first_taken 3) 3 header_only message
          ≡ some (count_message header_only message, frs, failed context_done))
        × (length frs ≡ 3)
        × All IsEmpty frs)
send_endless_example =
    send_endless 100 3 3 header_only message (record { tag = omega arith; size = refl }) refl
      (omega arith)

abbrev idle : Receiver
idle = record {
  more = false;
  msg = empty_msg;
  msg_buf = new [];
  messages = [];
  unsettled = [];
  delivery_count = 0;
  available_credit = 1;
  max_message_size = 5;
  receiver_settle_mode = some 1;
  closed = false;
  detach_error = none;
}

idle-IsIdle : IsIdle idle
idle-IsIdle = record {
  no_more = refl;
  valid = new-IsValid [];
  nothing = unread-new [];
  unsettled_yet = refl;
}

abbrev accepts : List ℕ → Option Error
accepts bytes = none

receive_all-send_example :
    (frs : List Transfer) × (send 7 always 3 narrow message
      ≡ some (count_message narrow message, frs, sent_all (some 3)))
    × (receive_all accepts frs idle ≡ (
      delivered
          (add32 4 1)
          0
          (tag_for narrow message)
          (settles_itself narrow.sender_settle_mode message.send_settled)
          message.encoded
          idle,
      none,
    ))
receive_all-send_example =
    receive_all-send 7 3 accepts narrow message idle message-IsAccepted (omega arith) (omega arith)
      (omega arith) idle-IsIdle (inr (omega arith)) refl

abbrev too_long_transfer : Transfer
too_long_transfer = record {
  handle = 0;
  delivery_id = some 5;
  delivery_tag = some [];
  message_format = some 0;
  settled = false;
  more = true;
  aborted = false;
  payload = 1 ∷ 2 ∷ 3 ∷ 4 ∷ 5 ∷ 6 ∷ [];
  done = none;
}

idle-IsBounded : IsBounded idle
idle-IsBounded = record {
  valid = new-IsValid [];
  within = inr (omega (arith, ap length (unread-new [])));
}

mux_receive-IsBounded_example : IsBounded (mux_receive accepts false too_long_transfer idle).0
mux_receive-IsBounded_example =
    mux_receive-IsBounded accepts false too_long_transfer idle idle-IsBounded

mux_receive-Counted_example :
    Counted too_long_transfer idle (mux_receive accepts false too_long_transfer idle)
mux_receive-Counted_example = mux_receive-Counted accepts false too_long_transfer idle

abbrev closed : Receiver
closed = record idle {
  msg = record empty_msg { delivery_id = 5; tag = some [] };
  closed = true;
  detach_error = some err_cond_message_size_exceeded;
}

too_long_run :
    mux_receive accepts false too_long_transfer idle
    ≡ (closed, some (closing err_cond_message_size_exceeded))
unfolding mux_receive len new
too_long_run = refl

mux_receive_closes_example :
    (closed.closed ≡ true)
    × (closed.messages ≡ idle.messages)
    × (closed.msg_buf ≡ idle.msg_buf)
    × (closed.delivery_count ≡ idle.delivery_count)
    × (closed.available_credit ≡ idle.available_credit)
mux_receive_closes_example =
    mux_receive_closes accepts false too_long_transfer idle closed err_cond_message_size_exceeded
      too_long_run

abbrev two_credits : SenderMux
two_credits = record {
  handle = 0;
  delivery_count = 5;
  available_credit = 2;
  receiver_settle_mode = none;
  detach_on_disposition_error = true;
  detach_received = false;
}

-- What the peer had seen when it granted the credit: `count` deliveries.
abbrev granted : ℕ → ℕ → Flow
granted count credit = record {
  next_incoming_id = some 0;
  incoming_window = 100;
  next_outgoing_id = 0;
  outgoing_window = 100;
  handle = some 0;
  delivery_count = some count;
  link_credit = some credit;
  drain = false;
  echo = false;
}

abbrev eight_credits : SenderMux
eight_credits = record two_credits { available_credit = 8 }

granted_run : mux_handle_frame (flow (granted 3 10)) two_credits ≡ reacts eight_credits [] none
unfolding mux_handle_frame
granted_run = refl

mux_handle_frame-limit_example :
    (Credit.limit eight_credits ≡ add32 3 10)
    × (eight_credits.delivery_count ≡ two_credits.delivery_count)
    × (◌≡◌ {A = Option DetachError} none none)
mux_handle_frame-limit_example =
    mux_handle_frame-limit (granted 3 10) 10 two_credits eight_credits [] none refl (omega arith)
      (omega arith) (omega arith) granted_run

abbrev last_transfer : Transfer
last_transfer = record too_long_transfer { more = false }

listens : takes two_credits ≡ true
unfolding takes
listens = refl

one_message : Hands 1 two_credits (handed_on last_transfer two_credits)
one_message = Hands.whole last_transfer Hands.rest listens refl

Hands_within_example :
    (1 + (handed_on last_transfer two_credits).available_credit ≡ two_credits.available_credit)
    × ((handed_on last_transfer two_credits).delivery_count ≡ add32 two_credits.delivery_count 1)
Hands_within_example =
    Hands_within 1 two_credits (handed_on last_transfer two_credits) (omega arith) (omega arith)
      one_message

handed_on-set_credit_example :
    ((handed_on last_transfer (set_credit (granted 5 0) 0 two_credits)).available_credit
      ≡ 2 ^ 32 - 1)
    × (takes (handed_on last_transfer (set_credit (granted 5 0) 0 two_credits)) ≡ true)
handed_on-set_credit_example =
    handed_on-set_credit (granted 5 0) 0 last_transfer two_credits refl (omega arith) (omega arith)
      (omega arith)

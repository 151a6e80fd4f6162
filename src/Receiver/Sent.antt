-- ===== src/Receiver/Sent.antt =====
-- sender.go and receiver.go together: a message goes through `send` and `muxReceive`.
use go_amqp.Base.{ℕ, ◌+◌, ◌-◌, ◌≡◌, refl, ◌<◌, Option, none, some, List, length, add32}
use go_amqp.Buffer.{Error}
use go_amqp.Frames.Performatives.{Transfer}
use go_amqp.Sender.{
  Sender, Message, sent_all, max_transfer_frame_header, settles_itself, tag_for, count_message,
  first_transfer, send,
}
use go_amqp.Sender.Chunks.{always}
use go_amqp.Sender.Delivery.{IsAccepted, send-Carries}
use go_amqp.Receiver.{Receiver, receive_all}
use go_amqp.Receiver.Reassembly.{Within, IsIdle, delivered, receive_all-Carries}

-- When the mux of the sender takes every transfer of an accepted message that is not empty, an
-- idle receiver at the other end, whose limit covers the message, gets it as one message: the same
-- bytes, the sender's next delivery id, the message's format and tag (or the tag that the sender
-- made up), and the settled flag of the sender's mode. The peer's frames must hold more than a
-- transfer's header, and the bytes must be a message.
pub receive_all-send :
    (fuel channel : ℕ) (unmarshal : List ℕ → Option Error) (s : Sender) (msg : Message)
    (r : Receiver)
    → IsAccepted s msg
    → max_transfer_frame_header < s.peer_max_frame_size
    → 0 < length msg.encoded
    → length msg.encoded + 1 < fuel
    → IsIdle r
    → Within (length msg.encoded) r
    → unmarshal msg.encoded ≡ none
    → (frs : List Transfer) × (send fuel always channel s msg
        ≡ some (count_message s msg, frs, sent_all (some channel)))
      × (receive_all unmarshal frs r ≡ (
        delivered
            (add32 s.next_delivery_id 1)
            msg.format
            (tag_for s msg)
            (settles_itself s.sender_settle_mode msg.send_settled)
            msg.encoded
            r,
        none,
      ))
receive_all-send fuel channel unmarshal s msg r a h b f v w u =
    let (frs, ran, c) = send-Carries fuel channel s msg a h b f in
    (
      frs,
      ran,
      receive_all-Carries unmarshal (settles_itself s.sender_settle_mode msg.send_settled) channel
          (s.peer_max_frame_size - max_transfer_frame_header) (add32 s.next_delivery_id 1)
          msg.format (tag_for s msg) (first_transfer s msg) msg.encoded frs r c refl refl refl refl
          refl v w u,
    )

-- ===== src/Sender/Delivery.antt =====
-- sender.go: what `send` does with a message that it accepts.
use go_amqp.Base.{
  ℕ, zero, suc, ◌+◌, ◌-◌, ◌≡◌, refl, ap, ◌∙◌, ◌<◌, ◌≤◌, Bool, true, false, ◌&&◌, not, Option, none,
  some, List, [], ◌∷◌, All, if◌then◌else◌, ltb, ◌==◌, length, arith, le→ltb, lt→ltb,
}
use go_amqp.Frames.Performatives.{Transfer}
use go_amqp.Sender.{
  Sender, Message, SendEnd, sent_all, Wake, handed, cancelled, failed, context_done, cleared,
  handed_over, max_transfer_frame_header, max_delivery_tag_length, settles_itself, count_message,
  first_transfer, send_loop, send,
}
use go_amqp.Sender.Chunks.{always, Carries, send_loop-Sent, send_loop_more}

-- What `send` checks: the length of the tag, and the size of the encoded message.
pub record IsAccepted (s : Sender) (msg : Message) : Type 0 where
  pub tag : length msg.tag ≤ max_delivery_tag_length
  pub size : not (s.max_message_size == 0) && ltb s.max_message_size (length msg.encoded) ≡ false

abbrev counted :
    Sender → Message → Option (List Transfer × SendEnd) → Option (Sender × List Transfer × SendEnd)
counted s msg none = none
counted s msg (some (frs, e)) = some (count_message s msg, frs, e)

send_accepted :
    (fuel channel : ℕ) (wakes : ℕ → Wake) (s : Sender) (msg : Message)
    → IsAccepted s msg
    → max_transfer_frame_header ≤ s.peer_max_frame_size
    → send fuel wakes channel s msg
      ≡ counted s msg (
          send_loop fuel
            (settles_itself s.sender_settle_mode msg.send_settled)
            channel
            (s.peer_max_frame_size - max_transfer_frame_header)
            wakes
            0
            msg.encoded
            (first_transfer s msg))
unfolding send
send_accepted fuel channel wakes s msg a h =
    let t : ltb max_delivery_tag_length (length msg.tag) ≡ false =
      le→ltb max_delivery_tag_length (length msg.tag) a.tag in
    let p : ltb s.peer_max_frame_size max_transfer_frame_header ≡ false =
      le→ltb s.peer_max_frame_size max_transfer_frame_header h in
    rw (t, a.size, p) refl

-- When the mux takes every transfer, `send` hands over a message that it accepts and that is not
-- empty, if the peer's frames hold more than a transfer's header: the chunks put together are the
-- encoded message, every chunk but the last fills its frame and promises more, only the first has
-- the id, the tag and the format, and only the last the settled flag and the channel. One round for
-- each byte and two more are enough.
pub send-Carries :
    (fuel channel : ℕ) (s : Sender) (msg : Message)
    → IsAccepted s msg
    → max_transfer_frame_header < s.peer_max_frame_size
    → 0 < length msg.encoded
    → length msg.encoded + 1 < fuel
    → (frs : List Transfer) × (send fuel always channel s msg
        ≡ some (count_message s msg, frs, sent_all (some channel)))
      × Carries
          (settles_itself s.sender_settle_mode msg.send_settled)
          channel
          (s.peer_max_frame_size - max_transfer_frame_header)
          (first_transfer s msg)
          msg.encoded
          frs
send-Carries zero channel s msg a h b f = absurd (omega (arith, f))
send-Carries (suc fuel) channel s msg a h b f =
    let (frs, ran, carries) =
      send_loop-Sent fuel 0 channel (s.peer_max_frame_size - max_transfer_frame_header)
        (settles_itself s.sender_settle_mode msg.send_settled) msg.encoded (first_transfer s msg)
        (lt→ltb 0 (length msg.encoded) b) (omega (arith, h)) b (omega (arith, f)) in
    (
      frs,
      send_accepted (suc fuel) channel always s msg a (omega (arith, h)) ∙ ap (counted s msg) ran,
      carries,
    )

endless :
    (fuel n channel : ℕ) (st : Bool) (bytes : List ℕ) (fr : Transfer)
    → fr.more ≡ true
    → 0 < length bytes
    → send_loop fuel st channel 0 always n bytes fr ≡ none
unfolding send_loop
endless zero n channel st bytes fr m b = refl
endless (suc fuel) n channel st bytes fr m b =
    send_loop_more fuel n channel 0 st always bytes fr m (lt→ltb 0 (length bytes) b) refl
    ∙ rw
        (endless fuel (n + 1) channel st bytes
          (record fr {
            payload = [];
            more = true;
            delivery_id = none;
            delivery_tag = none;
            message_format = none;
          })
          refl b)
        refl

-- The mux takes `m` transfers, and then the context is cancelled.
abbrev pub first_taken : ℕ → ℕ → Wake
first_taken m n = if ltb n m then handed else cancelled

-- A transfer without payload that promises more.
abbrev pub IsEmpty : Transfer → Type 0
IsEmpty fr = (fr.payload ≡ []) × (fr.more ≡ true)

empties_sent :
    (rounds n m channel : ℕ) (st : Bool) (bytes : List ℕ) (fr : Transfer)
    → n + rounds ≡ m
    → fr.more ≡ true
    → 0 < length bytes
    → (frs : List Transfer) × (send_loop (suc rounds) st channel 0 (first_taken m) n bytes fr
        ≡ some (frs, failed context_done))
      × (length frs ≡ rounds)
      × All IsEmpty frs
unfolding send_loop
empties_sent zero n m channel st bytes fr e p b =
    let over : ltb n m ≡ false = le→ltb n m (omega (arith, e)) in ([], rw (p, over) refl, refl, tt)
empties_sent (suc rounds) n m channel st bytes fr e p b =
    let taken : first_taken m n ≡ handed = rw (lt→ltb n m (omega (arith, e))) refl in
    let unsent : ltb 0 (length bytes) ≡ true = lt→ltb 0 (length bytes) b in
    let filled = record fr { payload = []; more = true } in
    let (frs, ran, count, all_empty) =
      empties_sent rounds (n + 1) m channel st bytes (cleared filled) (omega (arith, e)) refl b in
    (
      filled ∷ frs,
      send_loop_more (suc rounds) n channel 0 st (first_taken m) bytes fr p unsent taken
          ∙ ap (handed_over filled) ran,
      ap suc count,
      ((refl, refl), all_empty),
    )

-- A message that is accepted and not empty, when the peer's largest frame is just as long as a
-- transfer's header: if the mux takes every transfer, `send` does not end, whatever the number of
-- rounds; if the mux takes `m` transfers and then the context is cancelled, all `m` of them are empty
-- and promise more, and `send` ends with the context's error.
pub send_endless :
    (fuel m channel : ℕ) (s : Sender) (msg : Message)
    → IsAccepted s msg
    → s.peer_max_frame_size ≡ max_transfer_frame_header
    → 0 < length msg.encoded
    → (send fuel always channel s msg ≡ none)
      × ((frs : List Transfer) × (send (suc m) (first_taken m) channel s msg
            ≡ some (count_message s msg, frs, failed context_done))
          × (length frs ≡ m)
          × All IsEmpty frs)
send_endless fuel m channel s msg a h b =
    let st = settles_itself s.sender_settle_mode msg.send_settled in
    let zero_size : s.peer_max_frame_size - max_transfer_frame_header ≡ 0 = omega (arith, h) in
    let unsent : ltb 0 (length msg.encoded) ≡ true = lt→ltb 0 (length msg.encoded) b in
    let loops = λ (f : ℕ) (wakes : ℕ → Wake).
      (send_accepted f channel wakes s msg a (omega (arith, h))
        ∙ ap
            (λ (size : ℕ).
              counted s msg
                (send_loop f st channel size wakes 0 msg.encoded (first_transfer s msg)))
            zero_size) in
    let (frs, ran, count, all_empty) =
      empties_sent m 0 m channel st msg.encoded (first_transfer s msg) (omega arith) unsent b in
    (
      loops fuel always
          ∙ ap (counted s msg)
              (endless fuel 0 channel st msg.encoded (first_transfer s msg) unsent b),
      (frs, loops (suc m) (first_taken m) ∙ ap (counted s msg) ran, count, all_empty),
    )

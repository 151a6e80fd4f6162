-- ===== src/Receiver/Bounds.antt =====
-- receiver.go: what `muxReceive` keeps to, whatever the peer sends.
use go_amqp.Base.{
  ℕ, ◌+◌, ◌≡◌, refl, sym, ap, ◌∙◌, ◌≤◌, ◌⊎◌, inl, inr, Bool, true, false, not, Option, none, some,
  List, [], length, arith, add32, sub32, Bool-cases, if_both, length-append,
}
use go_amqp.Buffer.{Buffer, Error, append, unread, len, reset}
use go_amqp.Buffer.Laws.{IsValid, len-unread, unread-append, append-IsValid}
use go_amqp.Frames.Performatives.{
  Transfer, AmqpError, err_cond_not_allowed, err_cond_message_size_exceeded,
}
use go_amqp.Receiver.{
  Receiver, Incoming, LinkError, closing, mux_receive, add_payload, take_payload, exceeds_max, push,
  finish, add_unsettled, close_with_error, is_inconsistent, is_missing, start_message, waits,
}

-- When a transfer makes the receiver close the link, the link is closed, nothing was delivered, no
-- credit was used, and the bytes of the message in progress are as they were.
pub mux_receive_closes :
    (unmarshal : List ℕ → Option Error) (detached : Bool) (fr : Transfer) (r r' : Receiver)
    (e : AmqpError)
    → mux_receive unmarshal detached fr r ≡ (r', some (closing e))
    → (r'.closed ≡ true)
      × (r'.messages ≡ r.messages)
      × (r'.msg_buf ≡ r.msg_buf)
      × (r'.delivery_count ≡ r.delivery_count)
      × (r'.available_credit ≡ r.available_credit)
unfolding mux_receive
mux_receive_closes unmarshal detached fr r r' e h = ground arith

-- Whether the bytes in progress are within the limit.
pub record IsBounded (r : Receiver) : Type 0 where
  pub valid : IsValid r.msg_buf
  pub within : (r.max_message_size ≡ 0) ⊎ (length (unread r.msg_buf) ≤ r.max_message_size)

-- What a transfer does to the messages and to the credit.
abbrev pub Counted : Transfer → Receiver → Receiver × Option LinkError → Type 0
Counted fr r (r', e) =
    ((r'.messages ≡ r.messages)
      × (r'.delivery_count ≡ r.delivery_count)
      × (r'.available_credit ≡ r.available_credit))
    ⊎ ((length r'.messages ≡ length r.messages + 1)
        × (r'.delivery_count ≡ add32 r.delivery_count 1)
        × (r'.available_credit ≡ sub32 r.available_credit 1)
        × (fr.more ≡ false)
        × (r'.more ≡ false)
        × (unread r'.msg_buf ≡ [])
        × (e ≡ none))

unsettled_keeps :
    (r : Receiver)
    → let r' = add_unsettled r in
      (r'.messages ≡ r.messages)
      × (r'.delivery_count ≡ r.delivery_count)
      × (r'.available_credit ≡ r.available_credit)
      × (r'.max_message_size ≡ r.max_message_size)
      × (r'.more ≡ r.more)
unsettled_keeps r = elim (Bool-cases (waits r.receiver_settle_mode)) [
  | inl q ↦ rw q (refl, refl, refl, refl, refl)
  | inr q ↦ rw q (refl, refl, refl, refl, refl)
]

finish-Counted :
    (fr : Transfer) (o : Option Error) (detached : Bool) (r : Receiver)
    → fr.more ≡ false
    → Counted fr r (finish o detached (add_payload fr r))
unfolding reset unread
finish-Counted fr (some e) detached r m = inl (refl, refl, refl)
finish-Counted fr none true r m =
    let (a, b, c, d, f) = unsettled_keeps (add_payload fr r) in inl (a, b, c)
finish-Counted fr none false r m =
    let (a, b, c, d, f) = unsettled_keeps (add_payload fr r) in
    inr (
      length-append (add_unsettled (add_payload fr r)).messages _
          ∙ ap (λ (ms : List (Incoming × List ℕ)). length ms + 1) a,
      ap (λ (n : ℕ). add32 n 1) b,
      ap (λ (n : ℕ). sub32 n 1) c,
      m,
      f ∙ m,
      refl,
      refl,
    )

close-Counted : (fr : Transfer) (e : AmqpError) (r : Receiver) → Counted fr r (close_with_error e r)
close-Counted fr e r =
    if_both (λ (q : Receiver). Counted fr r (q, some (closing e))) r.closed
      (λ _. inl (refl, refl, refl)) (λ _. inl (refl, refl, refl))

take_payload-Counted :
    (unmarshal : List ℕ → Option Error) (detached : Bool) (fr : Transfer) (r : Receiver)
    → Counted fr r (take_payload unmarshal detached fr r)
take_payload-Counted unmarshal detached fr r =
    if_both (Counted fr r) fr.aborted (λ _. inl (refl, refl, refl))
      (λ _.
        if_both (Counted fr r) (exceeds_max fr r)
          (λ _. close-Counted fr err_cond_message_size_exceeded r)
          (λ _.
            if_both (Counted fr r) fr.more (λ _. inl (refl, refl, refl))
              (finish-Counted fr (unmarshal (unread (append fr.payload r.msg_buf))) detached r)))

-- Each transfer delivers a message, and then counts one delivery, uses one credit, is the last of
-- its message and leaves an empty buffer, or it delivers nothing and leaves the count and the
-- credit alone.
pub mux_receive-Counted :
    (unmarshal : List ℕ → Option Error) (detached : Bool) (fr : Transfer) (r : Receiver)
    → Counted fr r (mux_receive unmarshal detached fr r)
unfolding mux_receive
mux_receive-Counted unmarshal detached fr r =
    if_both (Counted fr r) (not r.more)
      (λ _.
        if_both (Counted fr r) (is_missing fr.delivery_id fr.message_format fr.delivery_tag)
          (λ _. close-Counted fr err_cond_not_allowed (start_message fr r))
          (λ _. take_payload-Counted unmarshal detached fr (start_message fr r)))
      (λ _.
        if_both (Counted fr r) (is_inconsistent fr r.msg)
          (λ _. close-Counted fr err_cond_not_allowed r)
          (λ _. take_payload-Counted unmarshal detached fr r))

add_payload-IsBounded :
    (fr : Transfer) (r : Receiver)
    → IsBounded r
    → exceeds_max fr r ≡ false
    → IsBounded (add_payload fr r)
add_payload-IsBounded fr r b x = record {
  valid = append-IsValid r.msg_buf fr.payload b.valid;
  within =
      let grown : length (unread (append fr.payload r.msg_buf))
          ≡ len r.msg_buf + length fr.payload =
        ap length (unread-append r.msg_buf fr.payload b.valid)
        ∙ length-append (unread r.msg_buf) fr.payload
        ∙ ap (λ (n : ℕ). n + length fr.payload) (sym (len-unread r.msg_buf)) in
      ground (arith, grown);
}

empty-IsBounded : (r : Receiver) (b : Buffer) → IsBounded (record r { msg_buf = reset b })
unfolding reset unread
empty-IsBounded r b = record { valid = omega arith; within = ground arith }

same_buf-IsBounded :
    (r r' : Receiver)
    → r'.msg_buf ≡ r.msg_buf
    → r'.max_message_size ≡ r.max_message_size
    → IsBounded r
    → IsBounded r'
same_buf-IsBounded r r' m x b = record { valid = rw m b.valid; within = rw (m, x) b.within }

add_unsettled-IsBounded : (r : Receiver) → IsBounded r → IsBounded (add_unsettled r)
add_unsettled-IsBounded r b = elim (Bool-cases (waits r.receiver_settle_mode)) [
  | inl q ↦ same_buf-IsBounded r (add_unsettled r) (rw q refl) (rw q refl) b
  | inr q ↦ rw q b
]

abbrev Left : Receiver × Option LinkError → Type 0
Left (r, e) = IsBounded r

close-IsBounded : (e : AmqpError) (r : Receiver) → IsBounded r → Left (close_with_error e r)
close-IsBounded e r b =
    if_both IsBounded r.closed (λ _. b) (λ _. record { valid = b.valid; within = b.within })

finish-IsBounded :
    (o : Option Error) (detached : Bool) (r : Receiver) → IsBounded r → Left (finish o detached r)
finish-IsBounded (some e) detached r b = b
finish-IsBounded none true r b = add_unsettled-IsBounded r b
finish-IsBounded none false r b =
    same_buf-IsBounded (record r { msg_buf = reset (add_unsettled r).msg_buf })
      (push false (add_unsettled r)).0 refl ((unsettled_keeps r).3)
      (empty-IsBounded r (add_unsettled r).msg_buf)

take_payload-IsBounded :
    (unmarshal : List ℕ → Option Error) (detached : Bool) (fr : Transfer) (r : Receiver)
    → IsBounded r
    → Left (take_payload unmarshal detached fr r)
take_payload-IsBounded unmarshal detached fr r b =
    if_both Left fr.aborted
      (λ _. let e = empty-IsBounded r r.msg_buf in record { valid = e.valid; within = e.within })
      (λ _.
        if_both Left (exceeds_max fr r) (λ _. close-IsBounded err_cond_message_size_exceeded r b)
          (λ x.
            let grown = add_payload-IsBounded fr r b x in
            if_both Left fr.more (λ _. grown)
              (λ _.
                finish-IsBounded (unmarshal (unread (append fr.payload r.msg_buf))) detached
                  (add_payload fr r) grown)))

-- When the bytes that the receiver buffers are within its limit, they still are after any transfer,
-- whatever the peer sends.
pub mux_receive-IsBounded :
    (unmarshal : List ℕ → Option Error) (detached : Bool) (fr : Transfer) (r : Receiver)
    → IsBounded r
    → IsBounded (mux_receive unmarshal detached fr r).0
unfolding mux_receive
mux_receive-IsBounded unmarshal detached fr r b =
    let started : IsBounded (start_message fr r) = record { valid = b.valid; within = b.within } in
    if_both Left (not r.more)
      (λ _.
        if_both Left (is_missing fr.delivery_id fr.message_format fr.delivery_tag)
          (λ _. close-IsBounded err_cond_not_allowed (start_message fr r) started)
          (λ _. take_payload-IsBounded unmarshal detached fr (start_message fr r) started))
      (λ _.
        if_both Left (is_inconsistent fr r.msg) (λ _. close-IsBounded err_cond_not_allowed r b)
          (λ _. take_payload-IsBounded unmarshal detached fr r b))

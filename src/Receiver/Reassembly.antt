-- ===== src/Receiver/Reassembly.antt =====
-- receiver.go against sender.go: the transfers of a message that `send` hands over, received one
-- after another, give the message's bytes back.
use go_amqp.Base.{
  ℕ, ◌+◌, ◌≡◌, refl, sym, ap, ◌∙◌, ◌≤◌, ◌⊎◌, inl, inr, Bool, true, false, ◌||◌, Option, none, some,
  List, [], ◌∷◌, ◌++◌, ltb, length, arith, add32, sub32, length-append, Bool-cases, le→ltb,
  if◌then◌else◌,
}
use go_amqp.Buffer.{Buffer, Error, append, unread, len, reset}
use go_amqp.Buffer.Laws.{IsValid, len-unread, unread-append, append-IsValid, append-append}
use go_amqp.Frames.Performatives.{Transfer}
use go_amqp.Sender.{cleared}
use go_amqp.Sender.Chunks.{Carries, last, chunk}
use go_amqp.Receiver.{
  Receiver, empty_msg, mux_receive, receive_all, add_payload, take_payload, exceeds_max, push,
  add_unsettled, waits, add_tag, start_message,
}

-- Whether a size is within the receiver's limit; 0 is no limit.
abbrev pub Within : ℕ → Receiver → Type 0
Within n r = (r.max_message_size ≡ 0) ⊎ (n ≤ r.max_message_size)

Within-less : {m n : ℕ} (r : Receiver) → m ≤ n → Within n r → Within m r
Within-less r h (inl z) = inl z
Within-less r h (inr le) = inr (omega (arith, h, le))

Within-max :
    (fr : Transfer) (r : Receiver)
    → Within (length (unread r.msg_buf) + length fr.payload) r
    → exceeds_max fr r ≡ false
Within-max fr r (inl z) = rw z refl
Within-max fr r (inr h) =
    let fits : ltb r.max_message_size (len r.msg_buf + length fr.payload) ≡ false =
      le→ltb r.max_message_size (len r.msg_buf + length fr.payload)
        (omega (arith, h, len-unread r.msg_buf)) in
    ground (arith, fits)

-- One transfer of a message, after the checks of its fields.
take_more :
    (unmarshal : List ℕ → Option Error) (fr : Transfer) (r : Receiver)
    → fr.aborted ≡ false
    → fr.more ≡ true
    → exceeds_max fr r ≡ false
    → take_payload unmarshal false fr r ≡ (add_payload fr r, none)
take_more unmarshal fr r a m e = rw (a, e, m) refl

take_last :
    (unmarshal : List ℕ → Option Error) (fr : Transfer) (r : Receiver)
    → fr.aborted ≡ false
    → fr.more ≡ false
    → exceeds_max fr r ≡ false
    → unmarshal (unread (append fr.payload r.msg_buf)) ≡ none
    → take_payload unmarshal false fr r ≡ push false (add_unsettled (add_payload fr r))
take_last unmarshal fr r a m e u = rw (a, e, m, u) refl

-- All bytes of a message at once.
abbrev pub take_all : List ℕ → Bool → Receiver → Receiver
take_all bytes st r = record r {
  msg_buf = append bytes r.msg_buf;
  msg = record r.msg { settled = r.msg.settled || st };
  more = false;
}

-- That the checks of the fields pass for every transfer with the fields of `fr`, and leave `r'`.
abbrev Passes : (List ℕ → Option Error) → Transfer → Receiver → Receiver → Type 0
Passes unmarshal fr r r' =
    (f : Transfer)
    → f.delivery_id ≡ fr.delivery_id
    → f.delivery_tag ≡ fr.delivery_tag
    → f.message_format ≡ fr.message_format
    → mux_receive unmarshal false f r ≡ take_payload unmarshal false f r'

continuation-Passes :
    (unmarshal : List ℕ → Option Error) (fr : Transfer) (r : Receiver)
    → r.more ≡ true
    → fr.delivery_id ≡ none
    → fr.delivery_tag ≡ none
    → fr.message_format ≡ none
    → Passes unmarshal fr r r
unfolding mux_receive
continuation-Passes unmarshal fr r m i t n f i' t' n' = rw (m, i', i, t', t, n', n) refl

receive_chunk :
    (unmarshal : List ℕ → Option Error) (f : Transfer) (fs : List Transfer) (r r' : Receiver)
    → mux_receive unmarshal false f r ≡ (r', none)
    → receive_all unmarshal (f ∷ fs) r ≡ receive_all unmarshal fs r'
unfolding receive_all
receive_chunk unmarshal f fs r r' e = rw e refl

receive_end :
    (unmarshal : List ℕ → Option Error) (r : Receiver) → receive_all unmarshal [] r ≡ (r, none)
unfolding receive_all
receive_end unmarshal r = refl

or_false : (b c : Bool) → ((b || false) || c) ≡ (b || c)
or_false true c = refl
or_false false c = refl

append_twice :
    (b : Buffer) (xs ys bytes : List ℕ)
    → xs ++ ys ≡ bytes
    → append ys (append xs b) ≡ append bytes b
append_twice b xs ys bytes e = append-append b xs ys ∙ ap (λ (zs : List ℕ). append zs b) e

take_all_chunk :
    (f : Transfer) (xs ys bytes : List ℕ) (st : Bool) (r : Receiver)
    → xs ++ ys ≡ bytes
    → f.payload ≡ xs
    → f.settled ≡ false
    → take_all ys st (add_payload f r) ≡ take_all bytes st r
take_all_chunk f xs ys bytes st r e p s =
    rw (p, s)
      (λ i. record r {
        msg_buf = append_twice r.msg_buf xs ys bytes e i;
        msg = record r.msg { settled = or_false r.msg.settled st i };
        more = false;
      })

receive_from :
    (unmarshal : List ℕ → Option Error) (st : Bool) (channel size : ℕ) {fr : Transfer}
    {bytes : List ℕ} {frs : List Transfer} (r r' : Receiver)
    → Carries st channel size fr bytes frs
    → Passes unmarshal fr r r'
    → fr.aborted ≡ false
    → fr.settled ≡ false
    → IsValid r'.msg_buf
    → Within (length (unread r'.msg_buf) + length bytes) r'
    → unmarshal (unread (append bytes r'.msg_buf)) ≡ none
    → receive_all unmarshal frs r ≡ push false (add_unsettled (take_all bytes st r'))
receive_from unmarshal st channel size r r' (last fr bytes b h) p a s v w u =
    let f = record fr { payload = bytes; more = false; settled = st; done = some channel } in
    receive_chunk unmarshal f [] r (push false (add_unsettled (take_all bytes st r'))).0
      (p f refl refl refl ∙ take_last unmarshal f r' a refl (Within-max f r' w) u)
    ∙ receive_end unmarshal (push false (add_unsettled (take_all bytes st r'))).0
receive_from unmarshal st channel size r r' (chunk fr xs ys bytes fs e l c) p a s v w u =
    let f = record fr { payload = xs; more = true } in
    let r₁ = add_payload f r' in
    let total : length bytes ≡ length xs + length ys = ap length (sym e) ∙ length-append xs ys in
    let grown : length (unread (append xs r'.msg_buf)) ≡ length (unread r'.msg_buf) + length xs =
      ap length (unread-append r'.msg_buf xs v) ∙ length-append (unread r'.msg_buf) xs in
    receive_chunk unmarshal f fs r r₁ (
      p f refl refl refl
      ∙ take_more unmarshal f r' a refl (Within-max f r' (Within-less r' (omega (arith, total)) w)))
    ∙ receive_from unmarshal st channel size r₁ r₁ c
        (continuation-Passes unmarshal (cleared f) r₁ refl refl refl refl) a s
        (append-IsValid r'.msg_buf xs v) (Within-less r' (omega (arith, total, grown)) w)
        (ap unmarshal (ap unread (append_twice r'.msg_buf xs ys bytes e)) ∙ u)
    ∙ ap (λ (t : Receiver). push false (add_unsettled t))
        (take_all_chunk f xs ys bytes st r' e refl s)

first-Passes :
    (unmarshal : List ℕ → Option Error) (fr : Transfer) (id format : ℕ) (tag : List ℕ)
    (r : Receiver)
    → r.more ≡ false
    → fr.delivery_id ≡ some id
    → fr.delivery_tag ≡ some tag
    → fr.message_format ≡ some format
    → Passes unmarshal fr r (start_message fr r)
unfolding mux_receive
first-Passes unmarshal fr id format tag r m i t n f i' t' n' = rw (m, i', i, t', t, n', n) refl

-- The receiver after a whole message.
abbrev pub delivered : ℕ → ℕ → List ℕ → Bool → List ℕ → Receiver → Receiver
delivered id format tag settled bytes r = record r {
  more = false;
  msg = empty_msg;
  msg_buf = reset r.msg_buf;
  messages =
      r.messages
      ++ (record { delivery_id = id; format = format; tag = some tag; settled = settled }, bytes)
        ∷ [];
  unsettled = if waits r.receiver_settle_mode then add_tag tag r.unsettled else r.unsettled;
  delivery_count = add32 r.delivery_count 1;
  available_credit = sub32 r.available_credit 1;
}

-- A receiver that is between two messages: no transfer is awaited and the buffer is empty.
pub record IsIdle (r : Receiver) : Type 0 where
  pub no_more : r.more ≡ false
  pub valid : IsValid r.msg_buf
  pub nothing : unread r.msg_buf ≡ []
  pub unsettled_yet : r.msg.settled ≡ false

push-delivered :
    (fr : Transfer) (id format : ℕ) (tag bytes : List ℕ) (st : Bool) (r : Receiver)
    → IsIdle r
    → fr.delivery_id ≡ some id
    → fr.delivery_tag ≡ some tag
    → fr.message_format ≡ some format
    → push false (add_unsettled (take_all bytes st (start_message fr r)))
      ≡ (delivered id format tag st bytes r, none)
unfolding reset
push-delivered fr id format tag bytes st r v i t n =
    let whole : unread (append bytes r.msg_buf) ≡ bytes =
      unread-append r.msg_buf bytes v.valid ∙ ap (λ (xs : List ℕ). xs ++ bytes) v.nothing in
    elim (Bool-cases (waits r.receiver_settle_mode)) [
      | inl q ↦ rw (q, i, t, n, v.unsettled_yet, whole) refl
      | inr q ↦ rw (q, i, t, n, v.unsettled_yet, whole) refl
    ]

-- What `send` hands over of a message comes out of an idle receiver as one message with the same
-- bytes, id, tag, format and settled flag, if its size is within the receiver's limit and its
-- bytes can be unmarshalled: the delivery count goes up by one, the credit down by one, and the
-- receiver is between two messages again.
pub receive_all-Carries :
    (unmarshal : List ℕ → Option Error) (st : Bool) (channel size id format : ℕ) (tag : List ℕ)
    (fr : Transfer) (bytes : List ℕ) (frs : List Transfer) (r : Receiver)
    → Carries st channel size fr bytes frs
    → fr.delivery_id ≡ some id
    → fr.delivery_tag ≡ some tag
    → fr.message_format ≡ some format
    → fr.aborted ≡ false
    → fr.settled ≡ false
    → IsIdle r
    → Within (length bytes) r
    → unmarshal bytes ≡ none
    → receive_all unmarshal frs r ≡ (delivered id format tag st bytes r, none)
receive_all-Carries unmarshal st channel size id format tag fr bytes frs r c i t n a s v w u =
    let whole : unread (append bytes r.msg_buf) ≡ bytes =
      unread-append r.msg_buf bytes v.valid ∙ ap (λ (xs : List ℕ). xs ++ bytes) v.nothing in
    receive_from unmarshal st channel size r (start_message fr r) c
      (first-Passes unmarshal fr id format tag r v.no_more i t n) a s v.valid
      (Within-less r (omega (arith, ap length v.nothing)) w) (ap unmarshal whole ∙ u)
    ∙ push-delivered fr id format tag bytes st r v i t n

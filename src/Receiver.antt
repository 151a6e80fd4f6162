-- ===== src/Receiver.antt =====
-- receiver.go: how the receiver puts the transfers of a message together (`muxReceive`). What
-- `Message.Unmarshal` makes of the bytes is a parameter: an error or none. A message waits in
-- `messages`, the oldest first, with its bytes; after an error of `Unmarshal` the mux returns, and
-- what it left in the buffer is not tracked.
pub mod Bounds
pub mod Reassembly
pub mod Sent
use go_amqp.Base.{
  ℕ, ◌+◌, Bool, true, false, ◌&&◌, ◌||◌, not, Option, none, some, List, [], ◌∷◌, ◌++◌, ltb, ◌==◌,
  if◌then◌else◌, length, add32, sub32,
}
use go_amqp.Base.Maps.{bytes_eq}
use go_amqp.Buffer.{Buffer, Error, new, append, len, reset, unread}
use go_amqp.Frames.Performatives.{
  AmqpError, err_cond_not_allowed, err_cond_message_size_exceeded, Transfer,
}

-- What the receiver keeps of the message in progress; a nil tag is `none`.
pub record Incoming : Type 0 where
  pub delivery_id : ℕ
  pub format : ℕ
  pub tag : Option (List ℕ)
  pub settled : Bool

-- The first closing of the link sets `detach_error`. `unsettled` are the keys of the map of
-- messages that wait for their settlement.
pub record Receiver : Type 0 where
  pub more : Bool
  pub msg : Incoming
  pub msg_buf : Buffer
  pub messages : List (Incoming × List ℕ)
  pub unsettled : List (List ℕ)
  pub delivery_count : ℕ
  pub available_credit : ℕ
  pub max_message_size : ℕ
  pub receiver_settle_mode : Option ℕ
  pub closed : Bool
  pub detach_error : Option AmqpError

-- What the mux ends with: an error of the peer's transfers, by its condition; bytes that are no
-- message; or the link was detached while the message waited.
pub data LinkError : Type 0 where
  closing : AmqpError → LinkError
  malformed : Error → LinkError
  link_detached : LinkError

abbrev pub empty_msg : Incoming
empty_msg = record { delivery_id = 0; format = 0; tag = none; settled = false }

abbrev pub or_else : Option ℕ → ℕ → ℕ
or_else none n = n
or_else (some m) n = m

-- `closeWithError`, with `closeOnce`.
abbrev pub close_with_error : AmqpError → Receiver → Receiver × Option LinkError
close_with_error e r =
    (if r.closed then r else record r { closed = true; detach_error = some e }, some (closing e))

-- The first transfer of a message.
abbrev pub start_message : Transfer → Receiver → Receiver
start_message fr r = record r {
  msg = record r.msg {
    delivery_id = or_else fr.delivery_id r.msg.delivery_id;
    format = or_else fr.message_format r.msg.format;
    tag = fr.delivery_tag;
  };
}

-- Whether a field that the first transfer needs is missing.
abbrev pub is_missing : Option ℕ → Option ℕ → Option (List ℕ) → Bool
is_missing (some id) (some format) (some tag) = false
is_missing id format tag = true

abbrev pub number_differs : Option ℕ → ℕ → Bool
number_differs none n = false
number_differs (some m) n = not (m == n)

-- A nil tag of the message is compared as an empty one.
abbrev pub tag_or_empty : Option (List ℕ) → List ℕ
tag_or_empty none = []
tag_or_empty (some tag) = tag

abbrev pub tag_differs : Option (List ℕ) → Option (List ℕ) → Bool
tag_differs none tag = false
tag_differs (some t) tag = not (bytes_eq t (tag_or_empty tag))

-- Whether a field of a continuation is not that of the first transfer.
abbrev pub is_inconsistent : Transfer → Incoming → Bool
is_inconsistent fr msg =
    number_differs fr.delivery_id msg.delivery_id
    || (number_differs fr.message_format msg.format || tag_differs fr.delivery_tag msg.tag)

abbrev pub exceeds_max : Transfer → Receiver → Bool
exceeds_max fr r =
    not (r.max_message_size == 0) && ltb r.max_message_size (len r.msg_buf + length fr.payload)

abbrev pub abort : Receiver → Receiver
abort r = record r { msg_buf = reset r.msg_buf; msg = empty_msg; more = false }

abbrev pub add_payload : Transfer → Receiver → Receiver
add_payload fr r = record r {
  msg_buf = append fr.payload r.msg_buf;
  msg = record r.msg { settled = r.msg.settled || fr.settled };
  more = fr.more;
}

-- In receiver settle mode second (1) the message waits for its settlement.
abbrev pub waits : Option ℕ → Bool
waits none = false
waits (some mode) = mode == 1

unfoldable pub has_tag : List ℕ → List (List ℕ) → Bool
has_tag tag [] = false
has_tag tag (t ∷ ts) = bytes_eq t tag || has_tag tag ts

abbrev pub add_tag : List ℕ → List (List ℕ) → List (List ℕ)
add_tag tag tags = if has_tag tag tags then tags else tag ∷ tags

abbrev pub add_unsettled : Receiver → Receiver
add_unsettled r =
    if waits r.receiver_settle_mode
    then record r { unsettled = add_tag (tag_or_empty r.msg.tag) r.unsettled }
    else r

-- The message is pushed, or, when the select finds the link detached, dropped.
abbrev pub push : Bool → Receiver → Receiver × Option LinkError
push true r = (r, some link_detached)
push false r = (
  record r {
    messages = r.messages ++ (r.msg, unread r.msg_buf) ∷ [];
    msg_buf = reset r.msg_buf;
    msg = empty_msg;
    delivery_count = add32 r.delivery_count 1;
    available_credit = sub32 r.available_credit 1;
  },
  none,
)

abbrev pub finish : Option Error → Bool → Receiver → Receiver × Option LinkError
finish (some e) detached r = (r, some (malformed e))
finish none detached r = push detached (add_unsettled r)

-- From the abort flag on.
abbrev pub take_payload :
    (List ℕ → Option Error) → Bool → Transfer → Receiver → Receiver × Option LinkError
take_payload unmarshal detached fr r =
    let r' = add_payload fr r in
    if fr.aborted
    then (abort r, none)
    else if exceeds_max fr r
    then close_with_error err_cond_message_size_exceeded r
    else if fr.more
    then (r', none)
    else finish (unmarshal (unread r'.msg_buf)) detached r'

unfoldable pub mux_receive :
    (List ℕ → Option Error) → Bool → Transfer → Receiver → Receiver × Option LinkError
mux_receive unmarshal detached fr r =
    let started = start_message fr r in
    if not r.more
    then if is_missing fr.delivery_id fr.message_format fr.delivery_tag
      then close_with_error err_cond_not_allowed started
      else take_payload unmarshal detached fr started
    else if is_inconsistent fr r.msg
    then close_with_error err_cond_not_allowed r
    else take_payload unmarshal detached fr r

-- What follows a transfer that did not make the mux return.
abbrev pub go_on :
    Receiver × Option LinkError
    → (Receiver → Receiver × Option LinkError)
    → Receiver × Option LinkError
go_on (r, none) later = later r
go_on (r, some e) later = (r, some e)

-- The transfers one after another, until one makes the mux return; the link stays attached.
unfoldable pub receive_all :
    (List ℕ → Option Error) → List Transfer → Receiver → Receiver × Option LinkError
receive_all unmarshal [] r = (r, none)
receive_all unmarshal (fr ∷ frs) r =
    go_on (mux_receive unmarshal false fr r) (λ r'. receive_all unmarshal frs r')

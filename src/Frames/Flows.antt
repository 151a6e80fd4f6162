-- ===== src/Frames/Flows.antt =====
-- internal/frames/frames.go: the frames that flow while a link is attached, with all the fields that
-- they have on the wire.
use go_amqp.Base.{ℕ, Bool, false, not, Option, none, some, List, [], ◌∷◌, ◌==◌, length}
use go_amqp.Buffer.{Step, ◌>>=◌, ◌>>◌, return, append}
use go_amqp.Encoding.Codes.{code_flow, code_transfer, code_disposition}
use go_amqp.Encoding.Write.{write_binary, write_ubyte, write_uint32, write_bool}
use go_amqp.Encoding.Read.{read_binary, read_ubyte, read_uint32, read_bool}
use go_amqp.Encoding.Composite.{
  MarshalField, UnmarshalField, marshal_composite, unmarshal_composite,
}
use go_amqp.Encoding.Any.{Value, Pairs, no_pairs, State, count_pairs, no_info}
use go_amqp.Encoding.Any.Write.{required, unless, always, write_map, write_pairs, write_state}
use go_amqp.Encoding.Any.Read.{mandatory, unread_bytes, read_map_symbol, read_delivery_state}
use go_amqp.Frames.Fields.{pointer, into, field, field_pointer}

pub record PerformFlow : Type 0 where
  pub next_incoming_id : Option ℕ
  pub incoming_window : ℕ
  pub next_outgoing_id : ℕ
  pub outgoing_window : ℕ
  pub handle : Option ℕ
  pub delivery_count : Option ℕ
  pub link_credit : Option ℕ
  pub available : Option ℕ
  pub drain : Bool
  pub echo : Bool
  pub properties : Pairs

abbrev pub empty_flow : PerformFlow
empty_flow = record {
  next_incoming_id = none;
  incoming_window = 0;
  next_outgoing_id = 0;
  outgoing_window = 0;
  handle = none;
  delivery_count = none;
  link_credit = none;
  available = none;
  drain = false;
  echo = false;
  properties = no_pairs;
}

abbrev pub flow_marshal_fields : PerformFlow → List MarshalField
flow_marshal_fields f =
    pointer (λ n. always (write_uint32 n)) f.next_incoming_id
    ∷ required (always (write_uint32 f.incoming_window))
    ∷ required (always (write_uint32 f.next_outgoing_id))
    ∷ required (always (write_uint32 f.outgoing_window))
    ∷ pointer (λ n. always (write_uint32 n)) f.handle
    ∷ pointer (λ n. always (write_uint32 n)) f.delivery_count
    ∷ pointer (λ n. always (write_uint32 n)) f.link_credit
    ∷ pointer (λ n. always (write_uint32 n)) f.available
    ∷ unless (not f.drain) (always (write_bool f.drain))
    ∷ unless (not f.echo) (always (write_bool f.echo))
    ∷ unless (no_info f.properties)
        (write_map (count_pairs f.properties) (write_pairs f.properties))
    ∷ []

abbrev pub flow_fields : (any : Step Value) → List (UnmarshalField PerformFlow)
flow_fields any =
    field_pointer (λ s a. record s { next_incoming_id = a }) read_uint32
    ∷ mandatory (into (λ s a. record s { incoming_window = a }) read_uint32)
    ∷ mandatory (into (λ s a. record s { next_outgoing_id = a }) read_uint32)
    ∷ mandatory (into (λ s a. record s { outgoing_window = a }) read_uint32)
    ∷ field_pointer (λ s a. record s { handle = a }) read_uint32
    ∷ field_pointer (λ s a. record s { delivery_count = a }) read_uint32
    ∷ field_pointer (λ s a. record s { link_credit = a }) read_uint32
    ∷ field_pointer (λ s a. record s { available = a }) read_uint32
    ∷ field (λ s a. record s { drain = a }) read_bool
    ∷ field (λ s a. record s { echo = a }) read_bool
    ∷ field (λ s a. record s { properties = a }) (read_map_symbol any)
    ∷ []

unfoldable pub marshal_flow : PerformFlow → Step (Unit {0})
marshal_flow f = marshal_composite code_flow (flow_marshal_fields f)

unfoldable pub unmarshal_flow : (any : Step Value) → Step PerformFlow
unmarshal_flow any = unmarshal_composite code_flow (flow_fields any) empty_flow

-- The tag is a slice that may be nil, which is not the same as an empty one; a tag that is read is not nil.
pub record PerformTransfer : Type 0 where
  pub handle : ℕ
  pub delivery_id : Option ℕ
  pub delivery_tag : Option (List ℕ)
  pub message_format : Option ℕ
  pub settled : Bool
  pub more : Bool
  pub receiver_settle_mode : Option ℕ
  pub state : Option State
  pub resume : Bool
  pub aborted : Bool
  pub batchable : Bool
  pub payload : List ℕ

abbrev pub empty_transfer : PerformTransfer
empty_transfer = record {
  handle = 0;
  delivery_id = none;
  delivery_tag = none;
  message_format = none;
  settled = false;
  more = false;
  receiver_settle_mode = none;
  state = none;
  resume = false;
  aborted = false;
  batchable = false;
  payload = [];
}

-- The bytes of a slice that may be nil.
abbrev pub bytes_of : Option (List ℕ) → List ℕ
bytes_of none = []
bytes_of (some xs) = xs

abbrev pub transfer_marshal_fields : PerformTransfer → List MarshalField
transfer_marshal_fields t =
    required (always (write_uint32 t.handle))
    ∷ pointer (λ n. always (write_uint32 n)) t.delivery_id
    ∷ unless (length (bytes_of t.delivery_tag) == 0) (write_binary (bytes_of t.delivery_tag))
    ∷ pointer (λ n. always (write_uint32 n)) t.message_format
    ∷ unless (not t.settled) (always (write_bool t.settled))
    ∷ unless (not t.more) (always (write_bool t.more))
    ∷ pointer (λ n. always (write_ubyte n)) t.receiver_settle_mode
    ∷ pointer write_state t.state
    ∷ unless (not t.resume) (always (write_bool t.resume))
    ∷ unless (not t.aborted) (always (write_bool t.aborted))
    ∷ unless (not t.batchable) (always (write_bool t.batchable))
    ∷ []

abbrev pub transfer_fields : (any : Step Value) → List (UnmarshalField PerformTransfer)
transfer_fields any =
    mandatory (into (λ s a. record s { handle = a }) read_uint32)
    ∷ field_pointer (λ s a. record s { delivery_id = a }) read_uint32
    ∷ field_pointer (λ s a. record s { delivery_tag = a }) read_binary
    ∷ field_pointer (λ s a. record s { message_format = a }) read_uint32
    ∷ field (λ s a. record s { settled = a }) read_bool
    ∷ field (λ s a. record s { more = a }) read_bool
    ∷ field_pointer (λ s a. record s { receiver_settle_mode = a }) read_ubyte
    ∷ field_pointer (λ s a. record s { state = a }) (read_delivery_state any)
    ∷ field (λ s a. record s { resume = a }) read_bool
    ∷ field (λ s a. record s { aborted = a }) read_bool
    ∷ field (λ s a. record s { batchable = a }) read_bool
    ∷ []

unfoldable pub marshal_transfer : PerformTransfer → Step (Unit {0})
marshal_transfer t =
    marshal_composite code_transfer (transfer_marshal_fields t) >> always (append t.payload)

unfoldable pub unmarshal_transfer : (any : Step Value) → Step PerformTransfer
unmarshal_transfer any = do
  t ← unmarshal_composite code_transfer (transfer_fields any) empty_transfer
  buf ← unread_bytes
  return (record t { payload = buf })

pub record PerformDisposition : Type 0 where
  pub role : Bool
  pub first : ℕ
  pub last : Option ℕ
  pub settled : Bool
  pub state : Option State
  pub batchable : Bool

abbrev pub empty_disposition : PerformDisposition
empty_disposition = record {
  role = false;
  first = 0;
  last = none;
  settled = false;
  state = none;
  batchable = false;
}

abbrev pub disposition_marshal_fields : PerformDisposition → List MarshalField
disposition_marshal_fields d =
    required (always (write_bool d.role))
    ∷ required (always (write_uint32 d.first))
    ∷ pointer (λ n. always (write_uint32 n)) d.last
    ∷ unless (not d.settled) (always (write_bool d.settled))
    ∷ pointer write_state d.state
    ∷ unless (not d.batchable) (always (write_bool d.batchable))
    ∷ []

abbrev pub disposition_fields : (any : Step Value) → List (UnmarshalField PerformDisposition)
disposition_fields any =
    mandatory (into (λ s a. record s { role = a }) read_bool)
    ∷ mandatory (into (λ s a. record s { first = a }) read_uint32)
    ∷ field_pointer (λ s a. record s { last = a }) read_uint32
    ∷ field (λ s a. record s { settled = a }) read_bool
    ∷ field_pointer (λ s a. record s { state = a }) (read_delivery_state any)
    ∷ field (λ s a. record s { batchable = a }) read_bool
    ∷ []

unfoldable pub marshal_disposition : PerformDisposition → Step (Unit {0})
marshal_disposition d = marshal_composite code_disposition (disposition_marshal_fields d)

unfoldable pub unmarshal_disposition : (any : Step Value) → Step PerformDisposition
unmarshal_disposition any =
    unmarshal_composite code_disposition (disposition_fields any) empty_disposition

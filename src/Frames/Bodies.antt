-- ===== src/Frames/Bodies.antt =====
-- internal/frames/frames.go: the frames that open and close a connection, a session and a link, with
-- all the fields that they have on the wire. A nil map is an empty one.
use go_amqp.Base.{ℕ, Bool, false, not, Option, none, List, [], ◌∷◌, ◌==◌, length}
use go_amqp.Buffer.{Step}
use go_amqp.Encoding.Codes.{code_open, code_begin, code_attach, code_detach, code_end, code_close}
use go_amqp.Encoding.Write.{
  write_string, write_ubyte, write_ushort, write_uint32, write_uint64, write_bool,
}
use go_amqp.Encoding.Read.{read_string, read_ubyte, read_ushort, read_uint32, read_ulong, read_bool}
use go_amqp.Encoding.Arrays.{write_array_symbol}
use go_amqp.Encoding.Composite.{
  MarshalField, UnmarshalField, marshal_composite, unmarshal_composite,
}
use go_amqp.Encoding.Any.{Value, Pairs, no_pairs, ErrorInfo, count_pairs, no_info}
use go_amqp.Encoding.Any.Write.{required, unless, always, write_map, write_pairs, write_error}
use go_amqp.Encoding.Any.Read.{mandatory, read_map_symbol, read_error}
use go_amqp.Frames.Fields.{
  pointer, into, field, field_or, field_over, field_pointer, read_multi_symbol, write_milliseconds,
  read_milliseconds, read_unsettled,
}
use go_amqp.Frames.Terminus.{
  Source, Target, marshal_source, unmarshal_source, marshal_target, unmarshal_target,
}

pub record PerformOpen : Type 0 where
  pub container_id : List ℕ
  pub hostname : List ℕ
  pub max_frame_size : ℕ
  pub channel_max : ℕ
  pub idle_timeout : ℕ
  pub outgoing_locales : List (List ℕ)
  pub incoming_locales : List (List ℕ)
  pub offered_capabilities : List (List ℕ)
  pub desired_capabilities : List (List ℕ)
  pub properties : Pairs

abbrev pub empty_open : PerformOpen
empty_open = record {
  container_id = [];
  hostname = [];
  max_frame_size = 0;
  channel_max = 0;
  idle_timeout = 0;
  outgoing_locales = [];
  incoming_locales = [];
  offered_capabilities = [];
  desired_capabilities = [];
  properties = no_pairs;
}

abbrev pub open_marshal_fields : PerformOpen → List MarshalField
open_marshal_fields o =
    required (write_string o.container_id)
    ∷ unless (length o.hostname == 0) (write_string o.hostname)
    ∷ unless (o.max_frame_size == 4294967295) (always (write_uint32 o.max_frame_size))
    ∷ unless (o.channel_max == 65535) (always (write_ushort o.channel_max))
    ∷ unless (o.idle_timeout == 0) (write_milliseconds o.idle_timeout)
    ∷ unless (length o.outgoing_locales == 0) (always (write_array_symbol o.outgoing_locales))
    ∷ unless (length o.incoming_locales == 0) (always (write_array_symbol o.incoming_locales))
    ∷ unless (length o.offered_capabilities == 0)
        (always (write_array_symbol o.offered_capabilities))
    ∷ unless (length o.desired_capabilities == 0)
        (always (write_array_symbol o.desired_capabilities))
    ∷ unless (no_info o.properties)
        (write_map (count_pairs o.properties) (write_pairs o.properties))
    ∷ []

abbrev pub open_fields : (any : Step Value) → List (UnmarshalField PerformOpen)
open_fields any =
    mandatory (into (λ s a. record s { container_id = a }) read_string)
    ∷ field (λ s a. record s { hostname = a }) read_string
    ∷ field_or 4294967295 (λ s a. record s { max_frame_size = a }) read_uint32
    ∷ field_or 65535 (λ s a. record s { channel_max = a }) read_ushort
    ∷ field (λ s a. record s { idle_timeout = a }) read_milliseconds
    ∷ field_over (λ s. s.outgoing_locales) (λ s a. record s { outgoing_locales = a })
        read_multi_symbol
    ∷ field_over (λ s. s.incoming_locales) (λ s a. record s { incoming_locales = a })
        read_multi_symbol
    ∷ field_over (λ s. s.offered_capabilities) (λ s a. record s { offered_capabilities = a })
        read_multi_symbol
    ∷ field_over (λ s. s.desired_capabilities) (λ s a. record s { desired_capabilities = a })
        read_multi_symbol
    ∷ field (λ s a. record s { properties = a }) (read_map_symbol any)
    ∷ []

unfoldable pub marshal_open : PerformOpen → Step (Unit {0})
marshal_open o = marshal_composite code_open (open_marshal_fields o)

unfoldable pub unmarshal_open : (any : Step Value) → Step PerformOpen
unmarshal_open any = unmarshal_composite code_open (open_fields any) empty_open

pub record PerformBegin : Type 0 where
  pub remote_channel : Option ℕ
  pub next_outgoing_id : ℕ
  pub incoming_window : ℕ
  pub outgoing_window : ℕ
  pub handle_max : ℕ
  pub offered_capabilities : List (List ℕ)
  pub desired_capabilities : List (List ℕ)
  pub properties : Pairs

abbrev pub empty_begin : PerformBegin
empty_begin = record {
  remote_channel = none;
  next_outgoing_id = 0;
  incoming_window = 0;
  outgoing_window = 0;
  handle_max = 0;
  offered_capabilities = [];
  desired_capabilities = [];
  properties = no_pairs;
}

abbrev pub begin_marshal_fields : PerformBegin → List MarshalField
begin_marshal_fields b =
    pointer (λ n. always (write_ushort n)) b.remote_channel
    ∷ required (always (write_uint32 b.next_outgoing_id))
    ∷ required (always (write_uint32 b.incoming_window))
    ∷ required (always (write_uint32 b.outgoing_window))
    ∷ unless (b.handle_max == 4294967295) (always (write_uint32 b.handle_max))
    ∷ unless (length b.offered_capabilities == 0)
        (always (write_array_symbol b.offered_capabilities))
    ∷ unless (length b.desired_capabilities == 0)
        (always (write_array_symbol b.desired_capabilities))
    ∷ unless (no_info b.properties)
        (write_map (count_pairs b.properties) (write_pairs b.properties))
    ∷ []

abbrev pub begin_fields : (any : Step Value) → List (UnmarshalField PerformBegin)
begin_fields any =
    field_pointer (λ s a. record s { remote_channel = a }) read_ushort
    ∷ mandatory (into (λ s a. record s { next_outgoing_id = a }) read_uint32)
    ∷ mandatory (into (λ s a. record s { incoming_window = a }) read_uint32)
    ∷ mandatory (into (λ s a. record s { outgoing_window = a }) read_uint32)
    ∷ field_or 4294967295 (λ s a. record s { handle_max = a }) read_uint32
    ∷ field_over (λ s. s.offered_capabilities) (λ s a. record s { offered_capabilities = a })
        read_multi_symbol
    ∷ field_over (λ s. s.desired_capabilities) (λ s a. record s { desired_capabilities = a })
        read_multi_symbol
    ∷ field (λ s a. record s { properties = a }) (read_map_symbol any)
    ∷ []

unfoldable pub marshal_begin : PerformBegin → Step (Unit {0})
marshal_begin b = marshal_composite code_begin (begin_marshal_fields b)

unfoldable pub unmarshal_begin : (any : Step Value) → Step PerformBegin
unmarshal_begin any = unmarshal_composite code_begin (begin_fields any) empty_begin

pub record PerformAttach : Type 0 where
  pub name : List ℕ
  pub handle : ℕ
  pub role : Bool
  pub sender_settle_mode : Option ℕ
  pub receiver_settle_mode : Option ℕ
  pub source : Option Source
  pub target : Option Target
  pub unsettled : Pairs
  pub incomplete_unsettled : Bool
  pub initial_delivery_count : ℕ
  pub max_message_size : ℕ
  pub offered_capabilities : List (List ℕ)
  pub desired_capabilities : List (List ℕ)
  pub properties : Pairs

abbrev pub empty_attach : PerformAttach
empty_attach = record {
  name = [];
  handle = 0;
  role = false;
  sender_settle_mode = none;
  receiver_settle_mode = none;
  source = none;
  target = none;
  unsettled = no_pairs;
  incomplete_unsettled = false;
  initial_delivery_count = 0;
  max_message_size = 0;
  offered_capabilities = [];
  desired_capabilities = [];
  properties = no_pairs;
}

abbrev pub attach_marshal_fields : PerformAttach → List MarshalField
attach_marshal_fields a =
    required (write_string a.name)
    ∷ required (always (write_uint32 a.handle))
    ∷ required (always (write_bool a.role))
    ∷ pointer (λ n. always (write_ubyte n)) a.sender_settle_mode
    ∷ pointer (λ n. always (write_ubyte n)) a.receiver_settle_mode
    ∷ pointer marshal_source a.source
    ∷ pointer marshal_target a.target
    ∷ unless (no_info a.unsettled) (write_map (count_pairs a.unsettled) (write_pairs a.unsettled))
    ∷ unless (not a.incomplete_unsettled) (always (write_bool a.incomplete_unsettled))
    ∷ unless a.role (always (write_uint32 a.initial_delivery_count))
    ∷ unless (a.max_message_size == 0) (always (write_uint64 a.max_message_size))
    ∷ unless (length a.offered_capabilities == 0)
        (always (write_array_symbol a.offered_capabilities))
    ∷ unless (length a.desired_capabilities == 0)
        (always (write_array_symbol a.desired_capabilities))
    ∷ unless (no_info a.properties)
        (write_map (count_pairs a.properties) (write_pairs a.properties))
    ∷ []

abbrev pub attach_fields : (any : Step Value) → List (UnmarshalField PerformAttach)
attach_fields any =
    mandatory (into (λ s x. record s { name = x }) read_string)
    ∷ mandatory (into (λ s x. record s { handle = x }) read_uint32)
    ∷ mandatory (into (λ s x. record s { role = x }) read_bool)
    ∷ field_pointer (λ s x. record s { sender_settle_mode = x }) read_ubyte
    ∷ field_pointer (λ s x. record s { receiver_settle_mode = x }) read_ubyte
    ∷ field_pointer (λ s x. record s { source = x }) (unmarshal_source any)
    ∷ field_pointer (λ s x. record s { target = x }) (unmarshal_target any)
    ∷ field (λ s x. record s { unsettled = x }) (read_unsettled any)
    ∷ field (λ s x. record s { incomplete_unsettled = x }) read_bool
    ∷ field (λ s x. record s { initial_delivery_count = x }) read_uint32
    ∷ field (λ s x. record s { max_message_size = x }) read_ulong
    ∷ field_over (λ s. s.offered_capabilities) (λ s x. record s { offered_capabilities = x })
        read_multi_symbol
    ∷ field_over (λ s. s.desired_capabilities) (λ s x. record s { desired_capabilities = x })
        read_multi_symbol
    ∷ field (λ s x. record s { properties = x }) (read_map_symbol any)
    ∷ []

unfoldable pub marshal_attach : PerformAttach → Step (Unit {0})
marshal_attach a = marshal_composite code_attach (attach_marshal_fields a)

unfoldable pub unmarshal_attach : (any : Step Value) → Step PerformAttach
unmarshal_attach any = unmarshal_composite code_attach (attach_fields any) empty_attach

pub record PerformDetach : Type 0 where
  pub handle : ℕ
  pub closed : Bool
  pub error : Option ErrorInfo

abbrev pub empty_detach : PerformDetach
empty_detach = record { handle = 0; closed = false; error = none }

abbrev pub detach_marshal_fields : PerformDetach → List MarshalField
detach_marshal_fields d =
    required (always (write_uint32 d.handle))
    ∷ unless (not d.closed) (always (write_bool d.closed))
    ∷ pointer write_error d.error
    ∷ []

abbrev pub detach_fields : (any : Step Value) → List (UnmarshalField PerformDetach)
detach_fields any =
    mandatory (into (λ s a. record s { handle = a }) read_uint32)
    ∷ field (λ s a. record s { closed = a }) read_bool
    ∷ field_pointer (λ s a. record s { error = a }) (read_error any)
    ∷ []

unfoldable pub marshal_detach : PerformDetach → Step (Unit {0})
marshal_detach d = marshal_composite code_detach (detach_marshal_fields d)

unfoldable pub unmarshal_detach : (any : Step Value) → Step PerformDetach
unmarshal_detach any = unmarshal_composite code_detach (detach_fields any) empty_detach

pub record PerformEnd : Type 0 where
  pub error : Option ErrorInfo

abbrev pub empty_end : PerformEnd
empty_end = record { error = none }

abbrev pub end_marshal_fields : PerformEnd → List MarshalField
end_marshal_fields e = pointer write_error e.error ∷ []

abbrev pub end_fields : (any : Step Value) → List (UnmarshalField PerformEnd)
end_fields any = field_pointer (λ s a. record s { error = a }) (read_error any) ∷ []

unfoldable pub marshal_end : PerformEnd → Step (Unit {0})
marshal_end e = marshal_composite code_end (end_marshal_fields e)

unfoldable pub unmarshal_end : (any : Step Value) → Step PerformEnd
unmarshal_end any = unmarshal_composite code_end (end_fields any) empty_end

pub record PerformClose : Type 0 where
  pub error : Option ErrorInfo

abbrev pub empty_close : PerformClose
empty_close = record { error = none }

abbrev pub close_marshal_fields : PerformClose → List MarshalField
close_marshal_fields c = pointer write_error c.error ∷ []

abbrev pub close_fields : (any : Step Value) → List (UnmarshalField PerformClose)
close_fields any = field_pointer (λ s a. record s { error = a }) (read_error any) ∷ []

unfoldable pub marshal_close : PerformClose → Step (Unit {0})
marshal_close c = marshal_composite code_close (close_marshal_fields c)

unfoldable pub unmarshal_close : (any : Step Value) → Step PerformClose
unmarshal_close any = unmarshal_composite code_close (close_fields any) empty_close

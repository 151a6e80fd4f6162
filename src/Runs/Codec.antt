-- ===== src/Runs/Codec.antt =====
-- The readers and writers of internal/encoding and the frame header of internal/frames on concrete
-- inputs.
use go_amqp.Base.{
  ℕ, ◌+◌, ◌^◌, ◌<◌, true, some, List, [], ◌∷◌, ◌++◌, ◌≡◌, refl, ap, arith, length, length-append,
}
use go_amqp.Buffer.{
  Buffer, Outcome, not_utf8, ok, err, new, append, append_byte, append_uint32, unread, len,
}
use go_amqp.Buffer.Laws.{new-IsValid, unread-new, unread-append}
use go_amqp.Buffer.Reads.{Reads}
use go_amqp.Encoding.Utf8.{valid_string, valid_from, following}
use go_amqp.Encoding.Codes.{code_flow}
use go_amqp.Encoding.Write.{write_string, write_descriptor, write_null, write_bool, write_uint32}
use go_amqp.Encoding.Composite.{marshal_composite, put_at, set_count}
use go_amqp.Encoding.Composite.Fields.{Body, trips-Body}
use go_amqp.Encoding.Composite.RoundTrip.{form_composite, marshal_composite-Writes}
use go_amqp.Encoding.Any.Decode.{read_any}
use go_amqp.Frames.Flows.{PerformFlow, empty_flow, flow_marshal_fields, flow_fields, marshal_flow}
use go_amqp.Frames.Header.{Appends, parse_header, write, parse_header-write}
use go_amqp.Frames.RoundTrip.{IsFlow, flow_trips}

abbrev empty : Buffer
empty = new []

abbrev rest : List ℕ
rest = 9 ∷ []

-- "é" in UTF-8.
abbrev accent : List ℕ
accent = 0xc3 ∷ 0xa9 ∷ []

accent_valid : valid_string accent ≡ true
unfolding valid_string valid_from following
accent_valid = refl

-- A continuation byte alone.
abbrev broken : List ℕ
broken = 0xa9 ∷ []

broken_refused : (write_string broken empty).0 ≡ err not_utf8
unfolding write_string valid_string valid_from following
broken_refused = refl

-- A flow for the session alone.
abbrev a_flow : PerformFlow
a_flow = record empty_flow {
  next_incoming_id = some 5;
  incoming_window = 5000;
  outgoing_window = 70000;
}

a_flow-IsFlow : IsFlow a_flow
a_flow-IsFlow = record {
  incoming_id = omega arith;
  windows = (omega arith, (omega arith, omega arith));
  link = (tt, tt);
  credit = (tt, tt);
  properties = refl;
}

a_flow-Body : Body (flow_marshal_fields a_flow) (flow_fields (read_any 1)) empty_flow a_flow
a_flow-Body = trips-Body (flow_trips (read_any 1) a_flow a_flow-IsFlow)

abbrev flow_payload : List ℕ
flow_payload = form_composite code_flow (set_count (flow_marshal_fields a_flow)) a_flow-Body.body

a_flow-Appends : Appends (marshal_flow a_flow) flow_payload
unfolding marshal_flow
a_flow-Appends b v =
    marshal_composite-Writes code_flow (flow_marshal_fields a_flow) a_flow-Body.body
      a_flow-Body.written b v

flow_written : length (unread (marshal_flow a_flow empty).1) < 100
unfolding marshal_flow marshal_composite append append_byte append_uint32 write_descriptor
    write_null write_bool write_uint32 put_at unread new len
flow_written = omega arith

flow_short : length flow_payload + 8 < 2 ^ 32
flow_short =
    let there =
      ap (λ (o : Outcome (Unit {0}) × Buffer). unread o.1)
        (a_flow-Appends empty (new-IsValid [])) in
    let alone = unread-append empty flow_payload (new-IsValid []) in
    omega (
      arith,
      flow_written,
      ap length there,
      ap length alone,
      length-append (unread empty) flow_payload,
    )

parse_header-write_example :
    ((write 0 5 (marshal_flow a_flow) empty).0 ≡ ok tt)
    × Reads parse_header
        (append rest (write 0 5 (marshal_flow a_flow) empty).1)
        (record { size = length flow_payload + 8; data_offset = 2; frame_type = 0; channel = 5 })
        (flow_payload ++ rest)
parse_header-write_example =
    parse_header-write 0 5 (marshal_flow a_flow) flow_payload rest empty a_flow-Appends flow_short
      (omega arith) (new-IsValid []) (unread-new [])

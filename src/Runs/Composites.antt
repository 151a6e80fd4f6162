-- ===== src/Runs/Composites.antt =====
-- The arrays, the composites, `ReadAny` and the frame bodies on concrete inputs.
use go_amqp.Base.{
  ℕ, ◌^◌, ◌<◌, ◌≤◌, true, false, some, List, [], ◌∷◌, ◌≡◌, refl, arith, length, inr, All,
}
use go_amqp.Buffer.{
  Buffer, ok, err, panic, new, append, append_byte, append_uint32, unread, len, invalid_map_key,
}
use go_amqp.Buffer.Laws.{new-IsValid, unread-new}
use go_amqp.Buffer.Reads.{Reads}
use go_amqp.Encoding.Codes.{code_disposition, code_transfer, code_list8, code_null, code_vbin8}
use go_amqp.Encoding.Signed.{ℤ, pos, negsuc, Fits}
use go_amqp.Encoding.Write.{
  write_descriptor, write_null, write_bool, write_uint32, write_ubyte, write_binary,
}
use go_amqp.Encoding.Composite.{marshal_composite, unmarshal_composite, put_at}
use go_amqp.Encoding.Composite.RoundTrip.{unmarshal_composite-marshal_composite}
use go_amqp.Encoding.Arrays.{
  write_array_uint32, read_array_uint32, write_array_int32, read_array_int32,
}
use go_amqp.Encoding.Arrays.Fixed.{
  read_array_uint32-write_array_uint32, read_array_int32-write_array_int32,
}
use go_amqp.Encoding.Arrays.Faults.{read_array_int32-write_array_int32_cuts}
use go_amqp.Encoding.Read.{read_map_header}
use go_amqp.Encoding.Any.{null, binary, accepted}
use go_amqp.Encoding.Any.Write.{write_state}
use go_amqp.Encoding.Any.Read.{read_annotations, read_map_any, hashable}
use go_amqp.Encoding.Any.Decode.{read_any}
use go_amqp.Encoding.Any.Fuel.{ran_out}
use go_amqp.Encoding.Any.Ends.{read_any-ends}
use go_amqp.Encoding.Any.Keys.{
  binary_key, binary_key_header, any_binary, any_null, read_annotations-panics,
}
use go_amqp.Frames.Terminus.{Source, empty_source}
use go_amqp.Frames.Flows.{
  PerformFlow, PerformTransfer, PerformDisposition, empty_flow, empty_transfer, empty_disposition,
  marshal_flow, marshal_transfer, marshal_disposition, transfer_marshal_fields,
  disposition_marshal_fields, disposition_fields,
}
use go_amqp.Frames.Parse.{parse_body, perform_flow, perform_transfer, perform_disposition}
use go_amqp.Frames.RoundTrip.{
  IsDisposition, received, disposition_trips, parse_body-marshal_flow, parse_body-marshal_transfer,
  parse_body-marshal_disposition,
}
use go_amqp.Frames.Ends.{parse_body-ends}

abbrev nothing : Buffer
nothing = new []

abbrev more : List ℕ
more = 9 ∷ []

-- The receiver accepts the deliveries 7 to 300.
abbrev a_disposition : PerformDisposition
a_disposition = record {
  role = true;
  first = 7;
  last = some 300;
  settled = true;
  state = some accepted;
  batchable = false;
}

a_disposition-IsDisposition : IsDisposition a_disposition
a_disposition-IsDisposition = record { first = omega arith; last = omega arith; state = tt }

a_disposition_short :
    length (
      unread
        (marshal_composite code_disposition (disposition_marshal_fields a_disposition) nothing).1)
    < 2 ^ 32
unfolding marshal_composite append append_byte append_uint32 write_descriptor write_null write_bool
    write_uint32 write_state put_at unread new len
a_disposition_short = omega arith

unmarshal_composite-marshal_composite_example :
    ((marshal_composite code_disposition (disposition_marshal_fields a_disposition) nothing).0
      ≡ ok tt)
    × Reads
        (unmarshal_composite code_disposition (disposition_fields (read_any 1)) empty_disposition)
        (append more
          (marshal_composite code_disposition (disposition_marshal_fields a_disposition) nothing).1)
        a_disposition
        more
unmarshal_composite-marshal_composite_example =
    unmarshal_composite-marshal_composite code_disposition
      (disposition_marshal_fields a_disposition) (disposition_fields (read_any 1)) empty_disposition
      a_disposition nothing more
      (disposition_trips (read_any 1) a_disposition a_disposition-IsDisposition) (omega arith)
      (omega arith) (new-IsValid []) (unread-new []) a_disposition_short

a_disposition_framed : length (unread (marshal_disposition a_disposition nothing).1) < 2 ^ 32
unfolding marshal_disposition
a_disposition_framed = a_disposition_short

parse_body-marshal_disposition_example :
    ((marshal_disposition a_disposition nothing).0 ≡ ok tt)
    × Reads
        (parse_body 1)
        (append more (marshal_disposition a_disposition nothing).1)
        (perform_disposition a_disposition)
        more
parse_body-marshal_disposition_example =
    parse_body-marshal_disposition 1 a_disposition nothing more a_disposition-IsDisposition
      (new-IsValid []) (unread-new []) a_disposition_framed

abbrev a_flow : PerformFlow
a_flow = record empty_flow {
  next_incoming_id = some 5;
  incoming_window = 5000;
  outgoing_window = 70000;
  handle = some 0;
  link_credit = some 10;
  drain = true;
}

a_flow_short : length (unread (marshal_flow a_flow nothing).1) < 2 ^ 32
unfolding marshal_flow marshal_composite append append_byte append_uint32 write_descriptor
    write_null write_bool write_uint32 put_at unread new len
a_flow_short = omega arith

parse_body-marshal_flow_example :
    ((marshal_flow a_flow nothing).0 ≡ ok tt)
    × Reads (parse_body 1) (append more (marshal_flow a_flow nothing).1) (perform_flow a_flow) more
parse_body-marshal_flow_example =
    parse_body-marshal_flow 1 a_flow nothing more
      (record {
        incoming_id = omega arith;
        windows = (omega arith, (omega arith, omega arith));
        link = (omega arith, tt);
        credit = (omega arith, tt);
        properties = refl;
      })
      (new-IsValid []) (unread-new []) a_flow_short

abbrev a_transfer : PerformTransfer
a_transfer = record empty_transfer {
  handle = 1;
  delivery_id = some 4;
  delivery_tag = some (1 ∷ 2 ∷ []);
  message_format = some 0;
  more = true;
  payload = 0 ∷ 0x53 ∷ 0x75 ∷ [];
}

a_transfer_short :
    length (unread (marshal_composite code_transfer (transfer_marshal_fields a_transfer) nothing).1)
    < 2 ^ 32
unfolding marshal_composite append append_byte append_uint32 write_descriptor write_null write_bool
    write_uint32 write_ubyte write_binary put_at unread new len
a_transfer_short = omega arith

parse_body-marshal_transfer_example :
    ((marshal_transfer a_transfer nothing).0 ≡ ok tt)
    × Reads
        (parse_body 1)
        (marshal_transfer a_transfer nothing).1
        (perform_transfer (received a_transfer))
        a_transfer.payload
parse_body-marshal_transfer_example =
    parse_body-marshal_transfer 1 a_transfer nothing
      (record {
        handle = omega arith;
        delivery_id = omega arith;
        tag = omega arith;
        format = omega arith;
        state = tt;
      })
      (new-IsValid []) (unread-new []) a_transfer_short

-- A list that holds a list, whose element is missing.
abbrev nested : Buffer
nested = new (code_list8 ∷ 4 ∷ 1 ∷ code_list8 ∷ 1 ∷ 1 ∷ [])

nested_short : len nested < 7
unfolding len new
nested_short = omega arith

read_any-ends_example :
    (ran_out (read_any 7 nested).0 ≡ false) × (len (read_any 7 nested).1 ≤ len nested)
read_any-ends_example = read_any-ends 7 nested nested_short

parse_body-ends_example :
    (ran_out (parse_body 7 nested).0 ≡ false) × (len (parse_body 7 nested).1 ≤ len nested)
parse_body-ends_example = parse_body-ends 7 nested nested_short

-- A map with one pair, whose key is a binary and whose value is null.
abbrev bad_map : Buffer
bad_map = new (binary_key (1 ∷ 2 ∷ []) more)

bad_map_header : Reads read_map_header bad_map 2 (code_vbin8 ∷ 2 ∷ 1 ∷ 2 ∷ code_null ∷ more)
bad_map_header =
    binary_key_header (1 ∷ 2 ∷ []) more bad_map (omega arith) (unread-new _) (new-IsValid _)

bad_map_key : Reads (read_any 1) bad_map_header.after (binary (1 ∷ 2 ∷ [])) (code_null ∷ more)
bad_map_key =
    any_binary 0 (1 ∷ 2 ∷ []) (code_null ∷ more) bad_map_header.after (omega arith)
      bad_map_header.left bad_map_header.valid

bad_map_value : Reads (read_any 1) bad_map_key.after null more
bad_map_value = any_null 0 more bad_map_key.after bad_map_key.left bad_map_key.valid

bad_key : hashable (binary (1 ∷ 2 ∷ [])) ≡ false
unfolding hashable
bad_key = refl

read_annotations-panics_example :
    ((read_annotations (read_any 1) bad_map).0 ≡ panic)
    × ((read_map_any (read_any 1) bad_map).0 ≡ err invalid_map_key)
read_annotations-panics_example =
    read_annotations-panics 1 2 (binary (1 ∷ 2 ∷ [])) null
      (code_vbin8 ∷ 2 ∷ 1 ∷ 2 ∷ code_null ∷ more) (code_null ∷ more) more bad_map bad_map_header
      (omega arith) bad_map_key bad_map_value bad_key

abbrev a_source : Source
a_source = record empty_source { default_outcome = some null }

read_array_uint32-write_array_uint32_example :
    Reads read_array_uint32
      (append more (write_array_uint32 (3 ∷ 300 ∷ []) nothing))
      (3 ∷ 300 ∷ [])
      more
read_array_uint32-write_array_uint32_example =
    read_array_uint32-write_array_uint32 (3 ∷ 300 ∷ []) nothing more
      (omega arith, (omega arith, tt)) (omega arith) (new-IsValid []) (unread-new [])

abbrev small_negatives : List ℤ
small_negatives = negsuc 0 ∷ pos 5 ∷ []

read_array_int32-write_array_int32_example :
    Reads read_array_int32
      (append more (write_array_int32 small_negatives nothing))
      small_negatives
      more
read_array_int32-write_array_int32_example =
    read_array_int32-write_array_int32 small_negatives nothing more (omega arith, (omega arith, tt))
      (inr (refl, (omega arith, (omega arith, tt)))) (omega arith) (new-IsValid []) (unread-new [])

-- -257 comes back as -1.
read_array_int32-write_array_int32_cuts_example :
    Reads read_array_int32
      (append more (write_array_int32 (negsuc 256 ∷ pos 5 ∷ []) nothing))
      (negsuc 0 ∷ pos 5 ∷ [])
      more
    × All (Fits (2 ^ 7)) (negsuc 0 ∷ pos 5 ∷ [])
read_array_int32-write_array_int32_cuts_example =
    read_array_int32-write_array_int32_cuts (negsuc 256 ∷ pos 5 ∷ []) nothing more refl
      (omega arith) (new-IsValid []) (unread-new [])

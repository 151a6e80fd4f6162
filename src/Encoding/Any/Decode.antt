-- ===== src/Encoding/Any/Decode.antt =====
-- internal/encoding/decode.go: `ReadAny`, with readAnyArray, readAnyList, readAnyMap and readComposite.
-- The map of `readAnyMap` with string keys only is the same list of pairs.
use go_amqp.Base.{
  ℕ, zero, suc, ◌+◌, Bool, false, ◌||◌, not, List, [], ◌∷◌, ltb, ◌==◌, if◌then◌else◌, length, take,
  drop, get_or,
}
use go_amqp.Buffer.{
  panic, Step, Outcome, ok, err, out_of_fuel, invalid_length, invalid_header, invalid_type,
  not_implemented, unknown_type, ◌>>=◌, return, fail, big_endian,
}
use go_amqp.Encoding.Codes.{
  code_bool, code_bool_true, code_bool_false, code_ubyte, code_ushort, code_uint, code_small_uint,
  code_uint0, code_ulong, code_small_ulong, code_ulong0, code_byte, code_short, code_int,
  code_smallint, code_long, code_smalllong, code_float, code_double, code_decimal32, code_decimal64,
  code_decimal128, code_char, code_timestamp, code_uuid, code_vbin8, code_vbin32, code_str8,
  code_str32, code_sym8, code_sym32, code_list0, code_list8, code_list32, code_map8, code_map32,
  code_array8, code_array32, code_open, code_begin, code_attach, code_flow, code_transfer,
  code_disposition, code_detach, code_end, code_close, code_source, code_target, code_error,
  code_message_header, code_delivery_annotations, code_message_annotations, code_message_properties,
  code_application_properties, code_application_data, code_amqp_sequence, code_amqp_value,
  code_footer, code_state_received, code_state_accepted, code_state_rejected, code_state_released,
  code_state_modified, code_sasl_mechanism, code_sasl_init, code_sasl_challenge, code_sasl_response,
  code_sasl_outcome, code_delete_on_close, code_delete_on_no_links, code_delete_on_no_messages,
  code_delete_on_no_links_or_messages,
}
use go_amqp.Encoding.Read.{
  try_read_null, peek_type, read_ubyte, read_ushort, read_uint32, read_ulong, read_sbyte,
  read_short, read_int32, read_long, read_float, read_double, read_bool, read_string, read_binary,
  read_uuid,
}
use go_amqp.Encoding.Arrays.{
  read_array_ubyte, read_array_int8, read_array_uint16, read_array_int16, read_array_uint32,
  read_array_int32, read_array_uint64, read_array_int64, read_array_float, read_array_double,
  read_array_bool, read_array_string, read_array_symbol, read_array_binary, read_array_timestamp,
  read_array_uuid,
}
use go_amqp.Encoding.Composite.{lift}
use go_amqp.Encoding.Any.{
  Array, ubytes, uint16s, uint32s, uint64s, floats, doubles, int8s, int16s, int32s, int64s,
  timestamps, bools, strings, symbols, binaries, uuids, Value, null, bool, ubyte, ushort, uint,
  ulong, float, double, byte, short, int, long, binary, string, uuid, array, list, map, error,
  state,
}
use go_amqp.Encoding.Any.Read.{
  unread_bytes, read_as, read_timestamp, read_lifetime, read_list, read_map_any, read_described,
  read_error, read_received, read_accepted, read_rejected, read_released, read_modified,
}

abbrev pub one_of : List ℕ → ℕ → Bool
one_of [] code = false
one_of (c ∷ cs) code = code == c || one_of cs code

-- The readers of a switch, tried by the codes of their cases.
abbrev pub switch : {A : Type 0} → List (List ℕ × Step A) → ℕ → Step A → Step A
switch [] code default = default
switch ((codes, m) ∷ cases) code default =
    let rest = switch cases code default in if one_of codes code then m else rest

-- The index of the element type, by the code of the array.
abbrev pub type_idx : List ℕ → Outcome ℕ
type_idx buf =
    let code = get_or buf 0 0 in
    if length buf == 0
    then err invalid_length
    else if code == code_array8
    then ok 3
    else if code == code_array32
    then ok 9
    else err (invalid_type code)

abbrev pub read_array_of : {A : Type 0} → (A → Array) → Step A → Step Value
read_array_of f m = do a ← m; return (array (f a))

abbrev pub array_cases : List (List ℕ × Step Value)
array_cases =
    ((code_byte ∷ []), read_array_of int8s read_array_int8)
    ∷ ((code_ubyte ∷ []), read_array_of ubytes read_array_ubyte)
    ∷ ((code_ushort ∷ []), read_array_of uint16s read_array_uint16)
    ∷ ((code_short ∷ []), read_array_of int16s read_array_int16)
    ∷ ((code_uint0 ∷ code_small_uint ∷ code_uint ∷ []), read_array_of uint32s read_array_uint32)
    ∷ ((code_smallint ∷ code_int ∷ []), read_array_of int32s read_array_int32)
    ∷ ((code_ulong0 ∷ code_small_ulong ∷ code_ulong ∷ []), read_array_of uint64s read_array_uint64)
    ∷ ((code_smalllong ∷ code_long ∷ []), read_array_of int64s read_array_int64)
    ∷ ((code_float ∷ []), read_array_of floats read_array_float)
    ∷ ((code_double ∷ []), read_array_of doubles read_array_double)
    ∷ ((code_bool ∷ code_bool_true ∷ code_bool_false ∷ []), read_array_of bools read_array_bool)
    ∷ ((code_str8 ∷ code_str32 ∷ []), read_array_of strings read_array_string)
    ∷ ((code_sym8 ∷ code_sym32 ∷ []), read_array_of symbols read_array_symbol)
    ∷ ((code_vbin8 ∷ code_vbin32 ∷ []), read_array_of binaries read_array_binary)
    ∷ ((code_timestamp ∷ []), read_array_of timestamps read_array_timestamp)
    ∷ ((code_uuid ∷ []), read_array_of uuids read_array_uuid)
    ∷ []

unfoldable pub read_any_array : Step Value
read_any_array = do
  buf ← unread_bytes
  idx ← lift (type_idx buf)
  if ltb (length buf) (idx + 1)
      then fail invalid_length
      else switch array_cases (get_or buf idx 0) (fail (not_implemented (get_or buf idx 0)))

-- The composite's type, 0 where its descriptor is no ulong.
unfoldable pub composite_type : List ℕ → Outcome ℕ
composite_type buf =
    let code = get_or buf 1 0 in
    if ltb (length buf) 2
    then err invalid_length
    else if not (get_or buf 0 0 == 0)
    then err invalid_header
    else if code == code_small_ulong
    then (if ltb (length buf) 3 then err invalid_length else ok (get_or buf 2 0))
    else if code == code_ulong
    then (if ltb (length buf) 10 then err invalid_length else ok (big_endian (take 8 (drop 2 buf))))
    else ok 0

-- The composites that `readComposite` knows and does not read.
abbrev pub unread_composites : List ℕ
unread_composites =
    code_open ∷ code_begin ∷ code_attach ∷ code_flow ∷ code_transfer ∷ code_disposition
    ∷ code_detach ∷ code_end ∷ code_close ∷ code_source ∷ code_target ∷ code_message_header
    ∷ code_delivery_annotations ∷ code_message_annotations ∷ code_message_properties
    ∷ code_application_properties ∷ code_application_data ∷ code_amqp_sequence ∷ code_amqp_value
    ∷ code_footer ∷ code_sasl_mechanism ∷ code_sasl_init ∷ code_sasl_challenge ∷ code_sasl_response
    ∷ code_sasl_outcome ∷ []

abbrev pub lifetime_policies : List ℕ
lifetime_policies =
    code_delete_on_close ∷ code_delete_on_no_messages ∷ code_delete_on_no_links
    ∷ code_delete_on_no_links_or_messages ∷ []

module _ (any : Step Value) where
  abbrev pub composite_cases : ℕ → List (List ℕ × Step Value)
  composite_cases type_ =
      ((code_error ∷ []), read_as error (read_error any))
      ∷ (lifetime_policies, read_lifetime)
      ∷ ((code_state_accepted ∷ []), read_as state read_accepted)
      ∷ ((code_state_modified ∷ []), read_as state (read_modified any))
      ∷ ((code_state_received ∷ []), read_as state read_received)
      ∷ ((code_state_rejected ∷ []), read_as state (read_rejected any))
      ∷ ((code_state_released ∷ []), read_as state read_released)
      ∷ (unread_composites, fail (not_implemented type_))
      ∷ []

  unfoldable pub read_composite : Step Value
  read_composite = do
    buf ← unread_bytes
    type_ ← lift (composite_type buf)
    switch (composite_cases type_) type_ (read_described any)

  abbrev pub any_cases : List (List ℕ × Step Value)
  any_cases =
      ((0 ∷ []), read_composite)
      ∷ ((code_bool ∷ code_bool_true ∷ code_bool_false ∷ []), read_as bool read_bool)
      ∷ ((code_ubyte ∷ []), read_as ubyte read_ubyte)
      ∷ ((code_ushort ∷ []), read_as ushort read_ushort)
      ∷ ((code_uint ∷ code_small_uint ∷ code_uint0 ∷ []), read_as uint read_uint32)
      ∷ ((code_ulong ∷ code_small_ulong ∷ code_ulong0 ∷ []), read_as ulong read_ulong)
      ∷ ((code_byte ∷ []), read_as byte read_sbyte)
      ∷ ((code_short ∷ []), read_as short read_short)
      ∷ ((code_int ∷ code_smallint ∷ []), read_as int read_int32)
      ∷ ((code_long ∷ code_smalllong ∷ []), read_as long read_long)
      ∷ ((code_float ∷ []), read_as float read_float)
      ∷ ((code_double ∷ []), read_as double read_double)
      ∷ ((code_vbin8 ∷ code_vbin32 ∷ []), read_as binary read_binary)
      ∷ ((code_str8 ∷ code_str32 ∷ code_sym8 ∷ code_sym32 ∷ []), read_as string read_string)
      ∷ ((code_timestamp ∷ []), read_timestamp)
      ∷ ((code_uuid ∷ []), read_as uuid read_uuid)
      ∷ ((code_array8 ∷ code_array32 ∷ []), read_any_array)
      ∷ ((code_list0 ∷ code_list8 ∷ code_list32 ∷ []), read_as list (read_list any))
      ∷ ((code_map8 ∷ code_map32 ∷ []), read_as map (read_map_any any))
      ∷ []

abbrev pub unimplemented : List ℕ
unimplemented = code_decimal32 ∷ code_decimal64 ∷ code_decimal128 ∷ code_char ∷ []

-- An error of `peekType` is an invalid length.
abbrev pub peek_code : Step ℕ
peek_code r = elim ((peek_type r).0) [
  | ok code ↦ (ok code, r)
  | err e ↦ (err invalid_length, r)
  | panic ↦ (panic, r)
]

unfoldable pub read_any : ℕ → Step Value
read_any zero = fail out_of_fuel
read_any (suc fuel) = do
  is_null ← try_read_null
  if is_null then return null else (do
    type_ ← peek_code
    switch (any_cases (read_any fuel)) type_
        (fail (if one_of unimplemented type_ then not_implemented type_ else unknown_type type_)))

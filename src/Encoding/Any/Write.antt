-- ===== src/Encoding/Any/Write.antt =====
-- internal/encoding: `Marshal` of a value of any type, with the lists, maps, described types, errors and
-- delivery states of types.go.
use go_amqp.Base.{
  ℕ, ◌+◌, ◌-◌, ◌*◌, ◌%◌, ◌^◌, Bool, true, false, not, [], ◌∷◌, ltb, ◌==◌, if◌then◌else◌, length,
}
use go_amqp.Buffer.{
  Buffer, Step, ok, err, too_long, invalid_map_key, fail, ◌>>◌, return, append, append_byte,
  append_uint32, append_uint64, len,
}
use go_amqp.Encoding.Codes.{
  code_list0, code_list32, code_map32, code_small_ulong, code_timestamp, code_error,
  code_state_received, code_state_accepted, code_state_rejected, code_state_released,
  code_state_modified,
}
use go_amqp.Encoding.Signed.{ℤ, to_word}
use go_amqp.Encoding.Write.{
  write_null, write_bool, write_ubyte, write_ushort, write_sbyte, write_short, write_int32,
  write_int64, write_uint32, write_uint64, write_float, write_double, write_string, write_symbol,
  write_uuid, write_binary,
}
use go_amqp.Encoding.Arrays.{
  write_array_ubyte, write_array_int8, write_array_uint16, write_array_int16, write_array_uint32,
  write_array_int32, write_array_uint64, write_array_int64, write_array_float, write_array_double,
  write_array_bool, write_array_string, write_array_symbol, write_array_binary,
  write_array_timestamp, write_array_uuid,
}
use go_amqp.Encoding.Composite.{MarshalField, marshal_composite, fix_size_at, put_at}
use go_amqp.Encoding.Any.{
  Array, ubytes, uint16s, uint32s, uint64s, floats, doubles, int8s, int16s, int32s, int64s,
  timestamps, bools, strings, symbols, binaries, uuids, Value, null, bool, ubyte, ushort, uint,
  ulong, float, double, byte, short, int, long, timestamp, binary, string, symbol, uuid, array,
  list, map, described, lifetime, error, state, Values, no_values, value, Pairs, no_pairs, pair,
  ErrorInfo, error_info, State, received, accepted, rejected, rejected_plain, released, modified,
  count_values, count_pairs, no_info,
}

-- A writer that cannot fail.
abbrev pub always : (Buffer → Buffer) → Step (Unit {0})
always w wr = (ok tt, w wr)

unfoldable pub write_timestamp : ℤ → Buffer → Buffer
write_timestamp ms wr = append_uint64 (to_word (2 ^ 64) ms) (append_byte code_timestamp wr)

unfoldable pub write_array : Array → Step (Unit {0})
write_array (ubytes a) = always (write_array_ubyte a)
write_array (int8s a) = always (write_array_int8 a)
write_array (uint16s a) = always (write_array_uint16 a)
write_array (int16s a) = always (write_array_int16 a)
write_array (uint32s a) = always (write_array_uint32 a)
write_array (int32s a) = always (write_array_int32 a)
write_array (uint64s a) = always (write_array_uint64 a)
write_array (int64s a) = always (write_array_int64 a)
write_array (floats a) = always (write_array_float a)
write_array (doubles a) = always (write_array_double a)
write_array (bools a) = always (write_array_bool a)
write_array (strings a) = write_array_string a
write_array (symbols a) = always (write_array_symbol a)
write_array (binaries a) = always (write_array_binary a)
write_array (timestamps a) = always (write_array_timestamp a)
write_array (uuids a) = always (write_array_uuid a)

-- LifetimePolicy.Marshal: a composite without fields.
unfoldable pub write_lifetime : ℕ → Buffer → Buffer
write_lifetime p wr = append (0 ∷ code_small_ulong ∷ p ∷ code_list0 ∷ []) wr

-- list.Marshal, where `elements` writes the elements.
unfoldable pub write_list : ℕ → Step (Unit {0}) → Step (Unit {0})
write_list count elements wr =
    let headed = append_byte code_list32 wr in
    if count == 0
    then (ok tt, append_byte code_list0 wr)
    else (elements >> fix_size_at (len headed))
        (append_uint32 (count % 2 ^ 32) (append (0 ∷ 0 ∷ 0 ∷ 0 ∷ []) headed))

-- The end of writeMap: the size and the number of keys and values go over the placeholders.
abbrev pub finish_map : ℕ → ℕ → Step (Unit {0})
finish_map start_idx pairs wr = if ltb (2 ^ 32 - 1 - 4) pairs then (err too_long, wr) else (
  ok tt,
  put_at (start_idx + 5) (pairs % 2 ^ 32)
      (put_at (start_idx + 1) ((len wr - start_idx - 1 - 4) % 2 ^ 32) wr),
)

-- writeMap, where `elements` writes the keys and values.
unfoldable pub write_map : ℕ → Step (Unit {0}) → Step (Unit {0})
write_map count elements wr =
    (elements >> finish_map (len wr) (count * 2))
      (append (code_map32 ∷ 0 ∷ 0 ∷ 0 ∷ 0 ∷ 0 ∷ 0 ∷ 0 ∷ 0 ∷ []) wr)

abbrev pub required : Step (Unit {0}) → MarshalField
required w = record { omit = false; write = w }

abbrev pub unless : Bool → Step (Unit {0}) → MarshalField
unless omit w = record { omit = omit; write = w }

-- A key of Annotations: a string is written as a symbol.
unfoldable pub write_annotation_key : Value → Step (Unit {0})
write_annotation_key (string xs) = write_symbol xs
write_annotation_key (symbol xs) = write_symbol xs
write_annotation_key (long n) = always (write_int64 n)
write_annotation_key k = fail invalid_map_key

-- The keys of a `map[any]any` are written by `Marshal`. It writes a string key as `map[string]any`
-- and a symbol key as `map[Symbol]any` do theirs, so one clause serves the three.
unfoldable mutual
  pub write_value : Value → Step (Unit {0})
  write_value null = always write_null
  write_value (bool b) = always (write_bool b)
  write_value (ubyte n) = always (write_ubyte n)
  write_value (ushort n) = always (write_ushort n)
  write_value (uint n) = always (write_uint32 n)
  write_value (ulong n) = always (write_uint64 n)
  write_value (float n) = always (write_float n)
  write_value (double n) = always (write_double n)
  write_value (byte n) = always (write_sbyte n)
  write_value (short n) = always (write_short n)
  write_value (int n) = always (write_int32 n)
  write_value (long n) = always (write_int64 n)
  write_value (timestamp ms) = always (write_timestamp ms)
  write_value (binary xs) = write_binary xs
  write_value (string xs) = write_string xs
  write_value (symbol xs) = write_symbol xs
  write_value (uuid xs) = always (write_uuid xs)
  write_value (array a) = write_array a
  write_value (list vs) = write_list (count_values vs) (write_values vs)
  write_value (map ps) = write_map (count_pairs ps) (write_pairs ps)
  write_value (described d v) = always (append_byte 0) >> (write_value d >> write_value v)
  write_value (lifetime p) = always (write_lifetime p)
  write_value (error e) = write_error e
  write_value (state s) = write_state s

  pub write_values : Values → Step (Unit {0})
  write_values no_values = return tt
  write_values (value v vs) = write_value v >> write_values vs

  pub write_pairs : Pairs → Step (Unit {0})
  write_pairs no_pairs = return tt
  write_pairs (pair k v ps) = write_value k >> (write_value v >> write_pairs ps)

  pub write_annotation_pairs : Pairs → Step (Unit {0})
  write_annotation_pairs no_pairs = return tt
  write_annotation_pairs (pair k v ps) =
      write_annotation_key k >> (write_value v >> write_annotation_pairs ps)

  pub write_error : ErrorInfo → Step (Unit {0})
  write_error (error_info condition description info) = marshal_composite code_error (
      required (write_symbol condition)
      ∷ unless (length description == 0) (write_string description)
      ∷ unless (no_info info) (write_map (count_pairs info) (write_pairs info))
      ∷ [])

  pub write_state : State → Step (Unit {0})
  write_state (received number offset) =
      marshal_composite code_state_received
        (required (always (write_uint32 number)) ∷ required (always (write_uint64 offset)) ∷ [])
  write_state accepted = marshal_composite code_state_accepted []
  write_state (rejected e) = marshal_composite code_state_rejected (required (write_error e) ∷ [])
  write_state rejected_plain = marshal_composite code_state_rejected (unless true (return tt) ∷ [])
  write_state released = marshal_composite code_state_released []
  write_state (modified failed undeliverable annotations) = marshal_composite code_state_modified (
      unless (not failed) (always (write_bool failed))
      ∷ unless (not undeliverable) (always (write_bool undeliverable))
      ∷ unless (no_info annotations)
          (write_map (count_pairs annotations) (write_annotation_pairs annotations))
      ∷ [])

-- ===== src/Encoding/Any/Read.antt =====
-- internal/encoding: `ReadAny` and what it calls: the maps, the list, the described types, the errors
-- and the delivery states of types.go, the arrays and composites of decode.go. `any` stands for the
-- call of `ReadAny`; `read_any` ties the knot on fuel, one unit for each level of nesting. A reader
-- leaves the struct that it fills out of sight: it starts from an empty one and returns it.
use go_amqp.Base.{
  ℕ, zero, suc, ◌+◌, ◌/◌, ◌^◌, Bool, true, false, ◌&&◌, not, Option, none, some, List, [], ◌∷◌, ltb,
  ◌==◌, if◌then◌else◌, length, drop, get_or,
}
use go_amqp.Buffer.{
  ◌>>=◌, Step, Outcome, ok, err, panic, missing_field, invalid_map_key, invalid_length,
  invalid_header, invalid_body, invalid_type, invalid_size, return, fail, unread, read_byte,
}
use go_amqp.Buffer.{read_uint64 as word64}
use go_amqp.Encoding.Codes.{
  code_ulong, code_small_ulong, code_ulong0, code_timestamp, code_error, code_state_received,
  code_state_accepted, code_state_rejected, code_state_released, code_state_modified,
}
use go_amqp.Encoding.Signed.{from_word}
use go_amqp.Encoding.Read.{
  read_type, unread_len, read_uint32, read_ulong, read_bool, read_string, read_list_header,
  read_map_header, read_composite_header,
}
use go_amqp.Encoding.Composite.{UnmarshalField, lift, unmarshal, unmarshal_composite}
use go_amqp.Encoding.Any.{
  Value, null, timestamp, binary, string, symbol, array, list, map, described, lifetime, Values,
  no_values, value, Pairs, no_pairs, pair, ErrorInfo, error_info, State, received, accepted,
  rejected, rejected_plain, released, modified,
}

-- `r.Bytes()`
abbrev pub unread_bytes : Step (List ℕ)
unread_bytes r = (ok (unread r), r)

module _ {S : Type 0} where
  -- A field without a null handler, and one whose handler is an error.
  abbrev pub optional : (S → Step S) → UnmarshalField S
  optional read = record { read = read; handle_null = λ s. ok s }

  abbrev pub mandatory : (S → Step S) → UnmarshalField S
  mandatory read = record { read = read; handle_null = λ s. err missing_field }

abbrev pub read_as : {A B : Type 0} → (A → B) → Step A → Step B
read_as f m = do a ← m; return (f a)

-- A composite without fields.
abbrev pub read_empty : {S : Type 0} → ℕ → S → Step S
read_empty code s = unmarshal_composite code [] s

unfoldable pub read_timestamp : Step Value
read_timestamp = do
  type_ ← read_type
  if type_ == code_timestamp
      then (do n ← word64; return (timestamp (from_word (2 ^ 63) n)))
      else fail (invalid_type type_)

unfoldable pub read_lifetime : Step Value
read_lifetime = do
  (typ, fields) ← read_composite_header
  if fields == 0 then return (lifetime typ) else fail (invalid_size fields)

-- The message type and the bytes that it takes.
unfoldable pub peek_message_type : List ℕ → Outcome (ℕ × ℕ)
peek_message_type buf =
    let t = get_or buf 1 0 in
    if ltb (length buf) 3
    then err invalid_body
    else if not (get_or buf 0 0 == 0)
    then err invalid_header
    else if t == code_ulong0
    then ok (0, 2)
    else if t == code_small_ulong
    then ok (get_or buf 2 0, 3)
    else if not (t == code_ulong)
    then err (invalid_type t)
    else if ltb (length (drop 2 buf)) 8
    then err invalid_length
    else ok (get_or buf 9 0, 10)

-- The keys that Go's map takes: a slice or a map among them is a panic, also inside a described type.
abbrev pub is_slice_or_map : Value → Bool
is_slice_or_map (binary xs) = true
is_slice_or_map (array a) = true
is_slice_or_map (list vs) = true
is_slice_or_map (map ps) = true
is_slice_or_map v = false

unfoldable pub hashable : Value → Bool
hashable (described d v) = hashable d && hashable v
hashable v = not (is_slice_or_map v)

-- `m[key] = value`
abbrev pub stored : Value → Outcome Value
stored k = if hashable k then ok k else panic

-- The same after the test of the key's kind.
abbrev pub checked_key : Value → Outcome Value
checked_key k = if is_slice_or_map k then err invalid_map_key else stored k

-- `for i := uint32(0); i < count; i += 2`
abbrev pub rounds : ℕ → ℕ
rounds count = (count + 1) / 2

-- Error.Unmarshal
abbrev pub read_condition : ErrorInfo → Step ErrorInfo
read_condition (error_info c d i) = do c' ← read_string; return (error_info c' d i)

abbrev pub read_description : ErrorInfo → Step ErrorInfo
read_description (error_info c d i) = do d' ← read_string; return (error_info c d' i)

-- The Unmarshal of each delivery state.
unfoldable pub read_received : Step State
read_received =
    read_as (λ (s : ℕ × ℕ). received s.0 s.1)
      (unmarshal_composite code_state_received
        (mandatory (λ s. do n ← read_uint32; return (n, s.1))
          ∷ mandatory (λ s. do n ← read_ulong; return (s.0, n))
          ∷ [])
        (0, 0))

unfoldable pub read_accepted : Step State
read_accepted = read_empty code_state_accepted accepted

abbrev pub as_rejected : Option ErrorInfo → State
as_rejected none = rejected_plain
as_rejected (some e) = rejected e

unfoldable pub read_released : Step State
read_released = read_empty code_state_released released

module _ (any : Step Value) where
  abbrev pub read_values : ℕ → Step Values
  read_values zero = return no_values
  read_values (suc n) = do v ← any; vs ← read_values n; return (value v vs)

  -- list.Unmarshal
  unfoldable pub read_list : Step Values
  read_list = do
    count ← read_list_header
    left ← unread_len
    if ltb left count then fail invalid_length else read_values count

  -- The rounds of a map: its key, its value, and the key's test.
  abbrev pub read_pairs : (Value → Outcome Value) → Step Value → ℕ → Step Pairs
  read_pairs check key zero = return no_pairs
  read_pairs check key (suc n) = do
    k ← key
    v ← any
    k' ← lift (check k)
    ps ← read_pairs check key n
    return (pair k' v ps)

  unfoldable pub read_map_any : Step Pairs
  read_map_any = do count ← read_map_header; read_pairs checked_key any (rounds count)

  unfoldable pub read_map_string : Step Pairs
  read_map_string = do
    count ← read_map_header
    read_pairs (λ k. ok k) (read_as string read_string) (rounds count)

  unfoldable pub read_map_symbol : Step Pairs
  read_map_symbol = do
    count ← read_map_header
    read_pairs (λ k. ok k) (read_as symbol read_string) (rounds count)

  unfoldable pub read_annotations : Step Pairs
  read_annotations = do count ← read_map_header; read_pairs stored any (rounds count)

  unfoldable pub read_described : Step Value
  read_described = do
    b ← read_byte
    if not (b == 0) then fail invalid_header else (do
      descriptor ← unmarshal (λ s. any) null
      v ← unmarshal (λ s. any) null
      return (described descriptor v))

  abbrev pub read_info : ErrorInfo → Step ErrorInfo
  read_info (error_info c d i) = do i' ← read_map_string; return (error_info c d i')

  unfoldable pub read_error : Step ErrorInfo
  read_error =
      unmarshal_composite code_error
        (mandatory read_condition ∷ optional read_description ∷ optional read_info ∷ [])
        (error_info [] [] no_pairs)

  unfoldable pub read_rejected : Step State
  read_rejected =
      read_as as_rejected (
        unmarshal_composite code_state_rejected (optional (λ s. read_as some read_error) ∷ []) none)

  unfoldable pub read_modified : Step State
  read_modified =
      read_as (λ (s : Bool × (Bool × Pairs)). modified s.0 s.1.0 s.1.1)
        (unmarshal_composite code_state_modified
          (optional (λ s. do b ← read_bool; return (b, s.1))
            ∷ optional (λ s. do b ← read_bool; return (s.0, (b, s.1.1)))
            ∷ optional (λ s. do a ← read_annotations; return (s.0, (s.1.0, a)))
            ∷ [])
          (false, (false, no_pairs)))

  -- The state that a code stands for; `other` is for any other code.
  abbrev pub read_state_of : ℕ → Step State → Step State
  read_state_of code other =
      if code == code_state_accepted
      then read_accepted
      else if code == code_state_modified
      then read_modified
      else if code == code_state_received
      then read_received
      else if code == code_state_rejected
      then read_rejected
      else if code == code_state_released
      then read_released
      else other

  -- `Unmarshal` of a `*DeliveryState`.
  unfoldable pub read_delivery_state : Step State
  read_delivery_state = do
    buf ← unread_bytes
    (type_, n) ← lift (peek_message_type buf)
    read_state_of type_ (fail (invalid_type type_))

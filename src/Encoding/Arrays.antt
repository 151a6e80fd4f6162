-- ===== src/Encoding/Arrays.antt =====
-- internal/encoding/types.go: the arrays, one writer and one reader for each element type. The loops
-- over the elements are `each`, `elements` and `times`; a time is its milliseconds since 1970, as an
-- int64, and a float its bit pattern. `append_byte` takes a byte.
pub mod Fixed
pub mod Faults
use go_amqp.Base.{
  ℕ, zero, suc, ◌+◌, ◌*◌, ◌^◌, ◌%◌, Bool, true, false, ◌&&◌, ◌||◌, not, List, [], ◌∷◌, ltb, ◌==◌,
  if◌then◌else◌, length, take, drop, replicate,
}
use go_amqp.Buffer.{
  Buffer, Step, ok, err, not_utf8, invalid_length, invalid_type, ◌>>=◌, return, fail, append,
  append_byte, append_uint16, append_uint32, append_uint64, big_endian, len, read_byte,
}
use go_amqp.Encoding.Codes.{
  code_ubyte, code_ushort, code_uint, code_small_uint, code_uint0, code_ulong, code_small_ulong,
  code_ulong0, code_byte, code_short, code_int, code_smallint, code_long, code_smalllong,
  code_float, code_double, code_bool, code_bool_true, code_bool_false, code_vbin8, code_vbin32,
  code_str8, code_str32, code_sym8, code_sym32, code_timestamp, code_uuid,
}
use go_amqp.Encoding.Signed.{ℤ, pos, negsuc, to_word, from_word}
use go_amqp.Encoding.Utf8.{valid_string}
use go_amqp.Encoding.Write.{write_array_header, write_variable_array_header}
use go_amqp.Encoding.Read.{read_array_header, read_type, need, unread_len}

module _ {A : Type 0} where
  -- `for _, element := range a`
  abbrev pub each : (A → Buffer → Buffer) → List A → Buffer → Buffer
  each put [] wr = wr
  each put (a ∷ rest) wr = each put rest (put a wr)

  -- The elements of a slice of the buffer, `size` bytes each.
  abbrev pub elements : ℕ → ℕ → (List ℕ → A) → List ℕ → List A
  elements zero size get buf = []
  elements (suc n) size get buf = get (take size buf) ∷ elements n size get (drop size buf)

  -- `for i := range aa`, where a round reads from the buffer.
  abbrev pub times : ℕ → Step A → Step (List A)
  times zero m = return []
  times (suc n) m = do a ← m; rest ← times n m; return (a ∷ rest)

  abbrev pub any : (A → Bool) → List A → Bool
  any p [] = false
  any p (a ∷ rest) = p a || any p rest

  abbrev pub write_fixed : ℕ → ℕ → (A → Buffer → Buffer) → List A → Buffer → Buffer
  write_fixed size code put a wr = each put a (write_array_header (length a) size code wr)

  abbrev pub read_elements : ℕ → (List ℕ → A) → ℕ → Step (List A)
  read_elements size get count = do
    buf ← need (count * size) invalid_length
    return (elements count size get buf)

  abbrev pub read_fixed : ℕ → ℕ → (List ℕ → A) → Step (List A)
  read_fixed code size get = do
    count ← read_array_header
    type_ ← read_type
    if type_ == code then read_elements size get count else fail (invalid_type type_)

-- int8(b), int16(u) and so on of a word of `size` bytes.
abbrev pub signed : ℕ → List ℕ → ℤ
signed half buf = from_word half (big_endian buf)

unfoldable pub write_array_ubyte : List ℕ → Buffer → Buffer
write_array_ubyte a wr = append a (write_array_header (length a) 1 code_ubyte wr)

unfoldable pub read_array_ubyte : Step (List ℕ)
read_array_ubyte = do
  count ← read_array_header
  type_ ← read_type
  if type_ == code_ubyte then need count invalid_length else fail (invalid_type type_)

unfoldable pub write_array_int8 : List ℤ → Buffer → Buffer
write_array_int8 = write_fixed 1 code_byte (λ n. append_byte (to_word (2 ^ 8) n))

unfoldable pub read_array_int8 : Step (List ℤ)
read_array_int8 = read_fixed code_byte 1 (signed (2 ^ 7))

unfoldable pub write_array_uint16 : List ℕ → Buffer → Buffer
write_array_uint16 = write_fixed 2 code_ushort append_uint16

unfoldable pub read_array_uint16 : Step (List ℕ)
read_array_uint16 = read_fixed code_ushort 2 big_endian

unfoldable pub write_array_int16 : List ℤ → Buffer → Buffer
write_array_int16 = write_fixed 2 code_short (λ n. append_uint16 (to_word (2 ^ 16) n))

unfoldable pub read_array_int16 : Step (List ℤ)
read_array_int16 = read_fixed code_short 2 (signed (2 ^ 15))

-- One byte each if all are small.
unfoldable pub write_array_uint32 : List ℕ → Buffer → Buffer
write_array_uint32 a wr =
    if any (ltb 255) a
    then write_fixed 4 code_uint append_uint32 a wr
    else write_fixed 1 code_small_uint (λ n. append_byte (n % 2 ^ 8)) a wr

unfoldable pub read_array_uint32 : Step (List ℕ)
read_array_uint32 = do
  count ← read_array_header
  type_ ← read_type
  if type_ == code_uint0
      then return (replicate count 0)
      else if type_ == code_small_uint
      then read_elements 1 big_endian count
      else if type_ == code_uint
      then read_elements 4 big_endian count
      else fail (invalid_type type_)

-- n > math.MaxInt8
abbrev pub above_int8 : ℤ → Bool
above_int8 (pos n) = ltb 127 n
above_int8 (negsuc n) = false

unfoldable pub write_array_int32 : List ℤ → Buffer → Buffer
write_array_int32 a wr =
    if any above_int8 a
    then write_fixed 4 code_int (λ n. append_uint32 (to_word (2 ^ 32) n)) a wr
    else write_fixed 1 code_smallint (λ n. append_byte (to_word (2 ^ 8) n)) a wr

unfoldable pub read_array_int32 : Step (List ℤ)
read_array_int32 = do
  count ← read_array_header
  type_ ← read_type
  if type_ == code_smallint
      then read_elements 1 (signed (2 ^ 7)) count
      else if type_ == code_int
      then read_elements 4 (signed (2 ^ 31)) count
      else fail (invalid_type type_)

unfoldable pub write_array_uint64 : List ℕ → Buffer → Buffer
write_array_uint64 a wr =
    if any (ltb 255) a
    then write_fixed 8 code_ulong append_uint64 a wr
    else write_fixed 1 code_small_ulong (λ n. append_byte (n % 2 ^ 8)) a wr

unfoldable pub read_array_uint64 : Step (List ℕ)
read_array_uint64 = do
  count ← read_array_header
  type_ ← read_type
  if type_ == code_ulong0
      then return (replicate count 0)
      else if type_ == code_small_ulong
      then read_elements 1 big_endian count
      else if type_ == code_ulong
      then read_elements 8 big_endian count
      else fail (invalid_type type_)

unfoldable pub write_array_int64 : List ℤ → Buffer → Buffer
write_array_int64 a wr =
    if any above_int8 a
    then write_fixed 8 code_long (λ n. append_uint64 (to_word (2 ^ 64) n)) a wr
    else write_fixed 1 code_smalllong (λ n. append_byte (to_word (2 ^ 8) n)) a wr

unfoldable pub read_array_int64 : Step (List ℤ)
read_array_int64 = do
  count ← read_array_header
  type_ ← read_type
  if type_ == code_smalllong
      then read_elements 1 (signed (2 ^ 7)) count
      else if type_ == code_long
      then read_elements 8 (signed (2 ^ 63)) count
      else fail (invalid_type type_)

unfoldable pub write_array_float : List ℕ → Buffer → Buffer
write_array_float = write_fixed 4 code_float append_uint32

unfoldable pub read_array_float : Step (List ℕ)
read_array_float = read_fixed code_float 4 big_endian

unfoldable pub write_array_double : List ℕ → Buffer → Buffer
write_array_double = write_fixed 8 code_double append_uint64

unfoldable pub read_array_double : Step (List ℕ)
read_array_double = read_fixed code_double 8 big_endian

unfoldable pub write_array_bool : List Bool → Buffer → Buffer
write_array_bool = write_fixed 1 code_bool (λ b. append_byte (if b then 1 else 0))

unfoldable pub read_array_bool : Step (List Bool)
read_array_bool = do
  count ← read_array_header
  type_ ← read_type
  if type_ == code_bool
      then read_elements 1 (λ buf. not (big_endian buf == 0)) count
      else if type_ == code_bool_true
      then return (replicate count true)
      else if type_ == code_bool_false
      then return (replicate count false)
      else fail (invalid_type type_)

unfoldable pub write_array_timestamp : List ℤ → Buffer → Buffer
write_array_timestamp = write_fixed 8 code_timestamp (λ ms. append_uint64 (to_word (2 ^ 64) ms))

unfoldable pub read_array_timestamp : Step (List ℤ)
read_array_timestamp = read_fixed code_timestamp 8 (signed (2 ^ 63))

unfoldable pub write_array_uuid : List (List ℕ) → Buffer → Buffer
write_array_uuid = write_fixed 16 code_uuid append

unfoldable pub read_array_uuid : Step (List (List ℕ))
read_array_uuid = read_fixed code_uuid 16 (λ buf. buf)

-- Strings, symbols and binaries: a length of one byte or of four, for all elements alike.
abbrev pub total : List (List ℕ) → ℕ
total [] = 0
total (a ∷ rest) = length a + total rest

abbrev pub element_type : ℕ → ℕ → List (List ℕ) → ℕ
element_type code8 code32 a = if any (λ xs. ltb 255 (length xs)) a then code32 else code8

abbrev pub write_variable : ℕ → ℕ → List (List ℕ) → Buffer → Buffer
write_variable code8 code32 a wr =
    let type_ = element_type code8 code32 a in
    let headed = write_variable_array_header (length a) (total a) type_ wr in
    if type_ == code32
    then each (λ xs b. append xs (append_uint32 (length xs % 2 ^ 32) b)) a headed
    else each (λ xs b. append xs (append_byte (length xs % 2 ^ 8) b)) a headed

abbrev pub read_sized8 : Step (List ℕ)
read_sized8 = do size ← read_byte; need size invalid_length

abbrev pub read_sized32 : Step (List ℕ)
read_sized32 = do buf ← need 4 invalid_length; need (big_endian buf) invalid_length

-- Each element is taken to have two bytes at least.
abbrev pub read_variable : ℕ → ℕ → Step (List (List ℕ))
read_variable code8 code32 = do
  count ← read_array_header
  left ← unread_len
  if ltb left (count * 2) then fail invalid_length else (do
    type_ ← read_type
    if type_ == code8
        then times count read_sized8
        else if type_ == code32
        then times count read_sized32
        else fail (invalid_type type_))

unfoldable pub write_array_string : List (List ℕ) → Step (Unit {0})
write_array_string a wr =
    if any (λ xs. not (valid_string xs)) a
    then (err not_utf8, wr)
    else (ok tt, write_variable code_str8 code_str32 a wr)

unfoldable pub read_array_string : Step (List (List ℕ))
read_array_string = read_variable code_str8 code_str32

unfoldable pub write_array_symbol : List (List ℕ) → Buffer → Buffer
write_array_symbol = write_variable code_sym8 code_sym32

unfoldable pub read_array_symbol : Step (List (List ℕ))
read_array_symbol = read_variable code_sym8 code_sym32

unfoldable pub write_array_binary : List (List ℕ) → Buffer → Buffer
write_array_binary = write_variable code_vbin8 code_vbin32

unfoldable pub read_array_binary : Step (List (List ℕ))
read_array_binary = read_variable code_vbin8 code_vbin32

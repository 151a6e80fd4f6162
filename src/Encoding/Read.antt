-- ===== src/Encoding/Read.antt =====
-- internal/encoding/decode.go: the readers of single values and of the headers.
use go_amqp.Base.{
  ℕ, ◌-◌, ◌^◌, ◌%◌, Bool, true, false, ◌||◌, ◌&&◌, not, List, [], ltb, ◌==◌, if◌then◌else◌, take,
  drop, get_or, length,
}
use go_amqp.Buffer.{
  Step, ok, Error, invalid_length, invalid_header, invalid_type, ◌>>=◌, return, fail, next, len,
  skip, unread, read_byte, peek_byte, read_uint16, big_endian,
}
use go_amqp.Buffer.{read_uint32 as word32, read_uint64 as word64}
use go_amqp.Encoding.Codes.{
  code_null, code_bool, code_bool_true, code_bool_false, code_ubyte, code_ushort, code_uint,
  code_small_uint, code_uint0, code_ulong, code_small_ulong, code_ulong0, code_byte, code_short,
  code_int, code_smallint, code_long, code_smalllong, code_float, code_double, code_vbin8,
  code_vbin32, code_str8, code_str32, code_sym8, code_sym32, code_array8, code_array32, code_uuid,
  code_list0, code_list8, code_list32, code_map8, code_map32,
}
use go_amqp.Encoding.Signed.{ℤ, pos, from_word}

-- tryReadNull, in types.go: takes a null if one is next.
unfoldable pub try_read_null : Step Bool
try_read_null r =
    if ltb 0 (len r) && get_or (unread r) 0 0 == code_null
    then (ok true, skip 1 r)
    else (ok false, r)

-- `readType` and `peekType`: a type code is a byte.
unfoldable pub read_type : Step ℕ
read_type = read_byte

unfoldable pub peek_type : Step ℕ
peek_type = peek_byte

-- `buf, ok := r.Next(n)` followed by a return with an error where `ok` is false.
abbrev pub need : ℕ → Error → Step (List ℕ)
need n e = do (buf, got) ← next n; if got then return buf else fail e

unfoldable pub read_ubyte : Step ℕ
read_ubyte = do
  type_ ← read_type
  if type_ == code_ubyte then read_byte else fail (invalid_type type_)

unfoldable pub read_ushort : Step ℕ
read_ushort = do
  type_ ← read_type
  if type_ == code_ushort then read_uint16 else fail (invalid_type type_)

unfoldable pub read_uint32 : Step ℕ
read_uint32 = do
  type_ ← read_type
  if type_ == code_uint0
      then return 0
      else if type_ == code_small_uint
      then read_byte
      else if type_ == code_uint
      then word32
      else fail (invalid_type type_)

unfoldable pub read_ulong : Step ℕ
read_ulong = do
  type_ ← read_type
  if type_ == code_ulong0
      then return 0
      else if type_ == code_small_ulong
      then read_byte
      else if type_ == code_ulong
      then word64
      else fail (invalid_type type_)

-- `readUint`: any unsigned type, widened.
unfoldable pub read_uint : Step ℕ
read_uint = do
  type_ ← read_type
  if type_ == code_uint0 || type_ == code_ulong0
      then return 0
      else if type_ == code_ubyte || type_ == code_small_uint || type_ == code_small_ulong
      then read_byte
      else if type_ == code_ushort
      then read_uint16
      else if type_ == code_uint
      then word32
      else if type_ == code_ulong
      then word64
      else fail (invalid_type type_)

unfoldable pub read_sbyte : Step ℤ
read_sbyte = do
  type_ ← read_type
  if type_ == code_byte
      then (do n ← read_byte; return (from_word (2 ^ 7) n))
      else fail (invalid_type type_)

unfoldable pub read_short : Step ℤ
read_short = do
  type_ ← read_type
  if type_ == code_short
      then (do n ← read_uint16; return (from_word (2 ^ 15) n))
      else fail (invalid_type type_)

unfoldable pub read_int32 : Step ℤ
read_int32 = do
  type_ ← read_type
  if type_ == code_smallint
      then (do n ← read_byte; return (from_word (2 ^ 7) n))
      else if type_ == code_int
      then (do n ← word32; return (from_word (2 ^ 31) n))
      else fail (invalid_type type_)

unfoldable pub read_long : Step ℤ
read_long = do
  type_ ← read_type
  if type_ == code_smalllong
      then (do n ← read_byte; return (from_word (2 ^ 7) n))
      else if type_ == code_long
      then (do n ← word64; return (from_word (2 ^ 63) n))
      else fail (invalid_type type_)

-- `readInt`: any integer type. A uint64 from 2 ^ 63 on wraps to a negative int.
unfoldable pub read_int : Step ℤ
read_int = do
  type_ ← peek_type
  if type_ == code_ubyte
      then (do n ← read_ubyte; return (pos n))
      else if type_ == code_ushort
      then (do n ← read_ushort; return (pos n))
      else if type_ == code_uint0 || type_ == code_small_uint || type_ == code_uint
      then (do n ← read_uint32; return (pos n))
      else if type_ == code_ulong0 || type_ == code_small_ulong || type_ == code_ulong
      then (do n ← read_ulong; return (from_word (2 ^ 63) n))
      else if type_ == code_byte
      then read_sbyte
      else if type_ == code_short
      then read_short
      else if type_ == code_smallint || type_ == code_int
      then read_int32
      else if type_ == code_smalllong || type_ == code_long
      then read_long
      else fail (invalid_type type_)

unfoldable pub read_float : Step ℕ
read_float = do type_ ← read_type; if type_ == code_float then word32 else fail (invalid_type type_)

unfoldable pub read_double : Step ℕ
read_double = do
  type_ ← read_type
  if type_ == code_double then word64 else fail (invalid_type type_)

unfoldable pub read_bool : Step Bool
read_bool = do
  type_ ← read_type
  if type_ == code_bool
      then (do b ← read_byte; return (not (b == 0)))
      else if type_ == code_bool_true
      then return true
      else if type_ == code_bool_false
      then return false
      else fail (invalid_type type_)

-- The length of a string, by its type code.
unfoldable pub read_string_length : ℕ → Step ℕ
read_string_length type_ =
    if type_ == code_str8 || type_ == code_sym8
    then read_byte
    else if type_ == code_str32 || type_ == code_sym32
    then (do buf ← need 4 (invalid_type type_); return (big_endian buf))
    else fail (invalid_type type_)

unfoldable pub read_string : Step (List ℕ)
unfolding read_string_length
read_string = do type_ ← read_type; length ← read_string_length type_; need length invalid_length

unfoldable pub read_binary_length : ℕ → Step ℕ
read_binary_length type_ =
    if type_ == code_vbin8
    then read_byte
    else if type_ == code_vbin32
    then (do buf ← need 4 (invalid_type type_); return (big_endian buf))
    else fail (invalid_type type_)

unfoldable pub read_binary : Step (List ℕ)
unfolding read_binary_length
read_binary = do
  type_ ← read_type
  length ← read_binary_length type_
  if length == 0 then return [] else need length invalid_length

unfoldable pub read_uuid : Step (List ℕ)
read_uuid = do
  type_ ← read_type
  if type_ == code_uuid then need 16 invalid_length else fail (invalid_type type_)

-- The size and count of a compound value: one byte each, or four. The size counts what follows
-- it, so `available - 1` or `available - 4` bounds it, where `available` is what was unread before.
unfoldable pub sizes8 : ℕ → Step ℕ
sizes8 available = do
  buf ← need 2 invalid_length
  if ltb (available - 1) (get_or buf 0 0) then fail invalid_length else return (get_or buf 1 0)

abbrev pub checked32 : ℕ → Error → List ℕ → Step ℕ
checked32 available e buf =
    if ltb (available - 4) (big_endian (take 4 buf))
    then fail e
    else return (big_endian (take 4 (drop 4 buf)))

unfoldable pub sizes32 : ℕ → Error → Step ℕ
sizes32 available e = do buf ← need 8 e; checked32 available e buf

-- `r.Len()`
abbrev pub unread_len : Step ℕ
unread_len r = (ok (len r), r)

unfoldable pub read_list_header : Step ℕ
unfolding sizes8 sizes32
read_list_header = do
  type_ ← read_type
  list_length ← unread_len
  if type_ == code_list0
      then return 0
      else if type_ == code_list8
      then sizes8 list_length
      else if type_ == code_list32
      then sizes32 list_length invalid_length
      else fail (invalid_type type_)

unfoldable pub read_array_header : Step ℕ
unfolding sizes8 sizes32
read_array_header = do
  type_ ← read_type
  array_length ← unread_len
  if type_ == code_array8
      then sizes8 array_length
      else if type_ == code_array32
      then sizes32 array_length (invalid_type type_)
      else fail (invalid_type type_)

unfoldable pub read_map_header : Step ℕ
unfolding sizes8 sizes32
read_map_header = do
  type_ ← read_type
  map_length ← unread_len
  count ←
      (if type_ == code_map8
        then sizes8 map_length
        else if type_ == code_map32
        then sizes32 map_length invalid_length
        else fail (invalid_type type_))
  left ← unread_len
  if ltb left count then fail invalid_length else return count

-- The composite's type code and its number of fields.
unfoldable pub read_composite_header : Step (ℕ × ℕ)
read_composite_header = do
  type_ ← read_type
  if not (type_ == 0)
      then fail invalid_header
      else (do v ← read_ulong; fields ← read_list_header; return (v % 256, fields))

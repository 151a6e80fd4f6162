-- ===== src/Encoding/Write.antt =====
-- internal/encoding/encode.go: the writers of single values and of the headers.
-- An unsigned value is a number below its width, a float its bit pattern (math.Float32bits), a
-- string its bytes. The lengths of slices are below 2 ^ 63.
use go_amqp.Base.{
  ℕ, ◌+◌, ◌-◌, ◌*◌, ◌%◌, ◌^◌, Bool, List, [], ◌∷◌, ltb, leb, ◌==◌, if◌then◌else◌, length,
}
use Prim.Native.Nat.{bit_and}
use go_amqp.Buffer.{
  Buffer, Step, ok, err, not_utf8, too_long, append, append_byte, append_uint16, append_uint32,
  append_uint64,
}
use go_amqp.Encoding.Codes.{
  code_null, code_bool_true, code_bool_false, code_ubyte, code_ushort, code_uint, code_small_uint,
  code_uint0, code_ulong, code_small_ulong, code_ulong0, code_byte, code_short, code_int,
  code_smallint, code_long, code_smalllong, code_float, code_double, code_vbin8, code_vbin32,
  code_str8, code_str32, code_sym8, code_sym32, code_array8, code_array32, code_uuid,
}
use go_amqp.Encoding.Signed.{ℤ, to_word, is_small}
use go_amqp.Encoding.Utf8.{valid_string}

-- The cases nil and bool of `Marshal`.
unfoldable pub write_null : Buffer → Buffer
write_null wr = append_byte code_null wr

unfoldable pub write_bool : Bool → Buffer → Buffer
write_bool t wr = append_byte (if t then code_bool_true else code_bool_false) wr

-- The cases uint8, uint16, int8 and int16.
unfoldable pub write_ubyte : ℕ → Buffer → Buffer
write_ubyte n wr = append (code_ubyte ∷ n ∷ []) wr

unfoldable pub write_ushort : ℕ → Buffer → Buffer
write_ushort n wr = append_uint16 n (append_byte code_ushort wr)

unfoldable pub write_sbyte : ℤ → Buffer → Buffer
write_sbyte n wr = append (code_byte ∷ to_word (2 ^ 8) n ∷ []) wr

unfoldable pub write_short : ℤ → Buffer → Buffer
write_short n wr = append_uint16 (to_word (2 ^ 16) n) (append_byte code_short wr)

unfoldable pub write_int32 : ℤ → Buffer → Buffer
write_int32 n wr =
    if is_small n
    then append (code_smallint ∷ to_word (2 ^ 8) n ∷ []) wr
    else append_uint32 (to_word (2 ^ 32) n) (append_byte code_int wr)

unfoldable pub write_int64 : ℤ → Buffer → Buffer
write_int64 n wr =
    if is_small n
    then append (code_smalllong ∷ to_word (2 ^ 8) n ∷ []) wr
    else append_uint64 (to_word (2 ^ 64) n) (append_byte code_long wr)

unfoldable pub write_uint32 : ℕ → Buffer → Buffer
write_uint32 n wr =
    if n == 0
    then append_byte code_uint0 wr
    else if ltb n 256
    then append (code_small_uint ∷ n % 256 ∷ []) wr
    else append_uint32 n (append_byte code_uint wr)

unfoldable pub write_uint64 : ℕ → Buffer → Buffer
write_uint64 n wr =
    if n == 0
    then append_byte code_ulong0 wr
    else if ltb n 256
    then append (code_small_ulong ∷ n % 256 ∷ []) wr
    else append_uint64 n (append_byte code_ulong wr)

unfoldable pub write_float : ℕ → Buffer → Buffer
write_float bits wr = append_uint32 bits (append_byte code_float wr)

unfoldable pub write_double : ℕ → Buffer → Buffer
write_double bits wr = append_uint64 bits (append_byte code_double wr)

unfoldable pub write_string : List ℕ → Step (Unit {0})
write_string str wr =
    let l = length str in
    if valid_string str
    then if ltb l 256
      then (ok tt, append str (append (code_str8 ∷ l % 256 ∷ []) wr))
      else if ltb l (2 ^ 32 - 1)
      then (ok tt, append str (append_uint32 l (append_byte code_str32 wr)))
      else (err too_long, wr)
    else (err not_utf8, wr)

-- Symbol.Marshal, in types.go.
unfoldable pub write_symbol : List ℕ → Step (Unit {0})
write_symbol s wr =
    let l = length s in
    if ltb l 256
    then (ok tt, append s (append (code_sym8 ∷ l % 256 ∷ []) wr))
    else if ltb l (2 ^ 32 - 1)
    then (ok tt, append s (append_uint32 l (append_byte code_sym32 wr)))
    else (err too_long, wr)

-- UUID.Marshal, in types.go; a UUID is its 16 bytes.
unfoldable pub write_uuid : List ℕ → Buffer → Buffer
write_uuid u wr = append u (append_byte code_uuid wr)

unfoldable pub write_binary : List ℕ → Step (Unit {0})
write_binary bin wr =
    let l = length bin in
    if ltb l 256
    then (ok tt, append bin (append (code_vbin8 ∷ l % 256 ∷ []) wr))
    else if ltb l (2 ^ 32 - 1)
    then (ok tt, append bin (append_uint32 l (append_byte code_vbin32 wr)))
    else (err too_long, wr)

unfoldable pub write_descriptor : ℕ → Buffer → Buffer
write_descriptor code wr = append (0 ∷ code_small_ulong ∷ code ∷ []) wr

-- `length` elements of `type_size` bytes each.
unfoldable pub write_array_header : ℕ → ℕ → ℕ → Buffer → Buffer
write_array_header count type_size type_ wr =
    let size = count * type_size in
    if leb (size + 2) 255
    then append (code_array8 ∷ (size + 2) % 256 ∷ count % 256 ∷ type_ ∷ []) wr
    else append_byte type_ (
        append_uint32 (count % 2 ^ 32)
          (append_uint32 ((size + 5) % 2 ^ 32) (append_byte code_array32 wr)))

unfoldable pub write_variable_array_header : ℕ → ℕ → ℕ → Buffer → Buffer
write_variable_array_header count elements_size_total type_ wr =
    let element_type_size = if bit_and type_ 0xf0 == 0xb0 then 4 else 1 in
    let size = elements_size_total + count * element_type_size in
    if leb (size + 2) 255
    then append (code_array8 ∷ (size + 2) % 256 ∷ count % 256 ∷ type_ ∷ []) wr
    else append_byte type_ (
        append_uint32 (count % 2 ^ 32)
          (append_uint32 ((size + 5) % 2 ^ 32) (append_byte code_array32 wr)))

-- ===== src/Encoding/Any/Readers.antt =====
-- The readers of single values, of headers and of arrays, and fuel.
use go_amqp.Base.{ℕ, zero, suc}
use go_amqp.Buffer.{Step, read_uint16}
use go_amqp.Buffer.{read_uint32 as word32, read_uint64 as word64}
use go_amqp.Encoding.Read.{
  read_type, sizes8, sizes32, read_list_header, read_array_header, read_map_header,
  read_composite_header, read_uint, read_string_length, read_binary_length, read_ubyte, read_ushort,
  read_uint32, read_ulong, read_sbyte, read_short, read_int32, read_long, read_float, read_double,
  read_bool, read_string, read_binary, read_uuid,
}
use go_amqp.Encoding.Arrays.{
  times, read_array_ubyte, read_array_int8, read_array_uint16, read_array_int16, read_array_uint32,
  read_array_int32, read_array_uint64, read_array_int64, read_array_float, read_array_double,
  read_array_bool, read_array_string, read_array_symbol, read_array_binary, read_array_timestamp,
  read_array_uuid,
}
use go_amqp.Encoding.Any.Read.{read_timestamp, read_lifetime}
use go_amqp.Encoding.Any.Fuel.{Fine, fine_rules, Fine-bind, Fine-return}

module _ (n : ℕ) where
  pub Fine-read_ubyte : Fine n read_ubyte
  unfolding read_ubyte read_type
  Fine-read_ubyte = search fine_rules depth 12

  pub Fine-read_ushort : Fine n read_ushort
  unfolding read_ushort read_type read_uint16
  Fine-read_ushort = search fine_rules depth 12

  pub Fine-read_uint32 : Fine n read_uint32
  unfolding read_uint32 read_type word32
  Fine-read_uint32 = search fine_rules depth 12

  pub Fine-read_ulong : Fine n read_ulong
  unfolding read_ulong read_type word64
  Fine-read_ulong = search fine_rules depth 12

  pub Fine-read_sbyte : Fine n read_sbyte
  unfolding read_sbyte read_type
  Fine-read_sbyte = search fine_rules depth 12

  pub Fine-read_short : Fine n read_short
  unfolding read_short read_type read_uint16
  Fine-read_short = search fine_rules depth 12

  pub Fine-read_int32 : Fine n read_int32
  unfolding read_int32 read_type word32
  Fine-read_int32 = search fine_rules depth 12

  pub Fine-read_long : Fine n read_long
  unfolding read_long read_type word64
  Fine-read_long = search fine_rules depth 12

  pub Fine-read_float : Fine n read_float
  unfolding read_float read_type word32
  Fine-read_float = search fine_rules depth 12

  pub Fine-read_double : Fine n read_double
  unfolding read_double read_type word64
  Fine-read_double = search fine_rules depth 12

  pub Fine-read_bool : Fine n read_bool
  unfolding read_bool read_type
  Fine-read_bool = search fine_rules depth 12

  pub Fine-read_string : Fine n read_string
  unfolding read_string read_type read_string_length
  Fine-read_string = search fine_rules depth 12

  pub Fine-read_binary : Fine n read_binary
  unfolding read_binary read_type read_binary_length
  Fine-read_binary = search fine_rules depth 12

  pub Fine-read_uuid : Fine n read_uuid
  unfolding read_uuid read_type
  Fine-read_uuid = search fine_rules depth 12

  pub Fine-read_timestamp : Fine n read_timestamp
  unfolding read_timestamp read_type word64
  Fine-read_timestamp = search fine_rules depth 12

  pub Fine-read_list_header : Fine n read_list_header
  unfolding read_list_header read_type sizes8 sizes32
  Fine-read_list_header = search fine_rules depth 12

  pub Fine-read_array_header : Fine n read_array_header
  unfolding read_array_header read_type sizes8 sizes32
  Fine-read_array_header = search fine_rules depth 12

  pub Fine-read_map_header : Fine n read_map_header
  unfolding read_map_header read_type sizes8 sizes32
  Fine-read_map_header = search fine_rules depth 12

  pub Fine-read_composite_header : Fine n read_composite_header
  unfolding read_composite_header read_type
  Fine-read_composite_header = search (fine_rules, Fine-read_ulong, Fine-read_list_header) depth 12

  pub Fine-read_lifetime : Fine n read_lifetime
  unfolding read_lifetime
  Fine-read_lifetime = search (fine_rules, Fine-read_composite_header) depth 12

  Fine-times : {A : Type 0} (m : Step A) (k : ℕ) → Fine n m → Fine n (times k m)
  Fine-times m zero f = Fine-return n _
  Fine-times m (suc k) f =
      Fine-bind n _ _ f (λ a. Fine-bind n _ _ (Fine-times m k f) (λ as_. Fine-return n _))

  pub Fine-read_array_ubyte : Fine n read_array_ubyte
  unfolding read_array_ubyte read_type
  Fine-read_array_ubyte = search (fine_rules, Fine-read_array_header) depth 12

  pub Fine-read_array_int8 : Fine n read_array_int8
  unfolding read_array_int8 read_type
  Fine-read_array_int8 = search (fine_rules, Fine-read_array_header) depth 12

  pub Fine-read_array_uint16 : Fine n read_array_uint16
  unfolding read_array_uint16 read_type
  Fine-read_array_uint16 = search (fine_rules, Fine-read_array_header) depth 12

  pub Fine-read_array_int16 : Fine n read_array_int16
  unfolding read_array_int16 read_type
  Fine-read_array_int16 = search (fine_rules, Fine-read_array_header) depth 12

  pub Fine-read_array_uint32 : Fine n read_array_uint32
  unfolding read_array_uint32 read_type
  Fine-read_array_uint32 = search (fine_rules, Fine-read_array_header) depth 12

  pub Fine-read_array_int32 : Fine n read_array_int32
  unfolding read_array_int32 read_type
  Fine-read_array_int32 = search (fine_rules, Fine-read_array_header) depth 12

  pub Fine-read_array_uint64 : Fine n read_array_uint64
  unfolding read_array_uint64 read_type
  Fine-read_array_uint64 = search (fine_rules, Fine-read_array_header) depth 12

  pub Fine-read_array_int64 : Fine n read_array_int64
  unfolding read_array_int64 read_type
  Fine-read_array_int64 = search (fine_rules, Fine-read_array_header) depth 12

  pub Fine-read_array_float : Fine n read_array_float
  unfolding read_array_float read_type
  Fine-read_array_float = search (fine_rules, Fine-read_array_header) depth 12

  pub Fine-read_array_double : Fine n read_array_double
  unfolding read_array_double read_type
  Fine-read_array_double = search (fine_rules, Fine-read_array_header) depth 12

  pub Fine-read_array_bool : Fine n read_array_bool
  unfolding read_array_bool read_type
  Fine-read_array_bool = search (fine_rules, Fine-read_array_header) depth 12

  pub Fine-read_array_string : Fine n read_array_string
  unfolding read_array_string read_type
  Fine-read_array_string = search (fine_rules, Fine-read_array_header, Fine-times) depth 12

  pub Fine-read_array_symbol : Fine n read_array_symbol
  unfolding read_array_symbol read_type
  Fine-read_array_symbol = search (fine_rules, Fine-read_array_header, Fine-times) depth 12

  pub Fine-read_array_binary : Fine n read_array_binary
  unfolding read_array_binary read_type
  Fine-read_array_binary = search (fine_rules, Fine-read_array_header, Fine-times) depth 12

  pub Fine-read_array_timestamp : Fine n read_array_timestamp
  unfolding read_array_timestamp read_type
  Fine-read_array_timestamp = search (fine_rules, Fine-read_array_header) depth 12

  pub Fine-read_array_uuid : Fine n read_array_uuid
  unfolding read_array_uuid read_type
  Fine-read_array_uuid = search (fine_rules, Fine-read_array_header) depth 12

  pub Fine-read_uint : Fine n read_uint
  unfolding read_uint read_type read_uint16 word32 word64
  Fine-read_uint = search fine_rules depth 16

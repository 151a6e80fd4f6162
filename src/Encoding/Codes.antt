-- ===== src/Encoding/Codes.antt =====
-- internal/encoding/types.go: the type codes (AMQPType).
use go_amqp.Base.{ℕ}

abbrev pub code_null : ℕ
code_null = 0x40

abbrev pub code_bool : ℕ
code_bool = 0x56

abbrev pub code_bool_true : ℕ
code_bool_true = 0x41

abbrev pub code_bool_false : ℕ
code_bool_false = 0x42

abbrev pub code_ubyte : ℕ
code_ubyte = 0x50

abbrev pub code_ushort : ℕ
code_ushort = 0x60

abbrev pub code_uint : ℕ
code_uint = 0x70

abbrev pub code_small_uint : ℕ
code_small_uint = 0x52

abbrev pub code_uint0 : ℕ
code_uint0 = 0x43

abbrev pub code_ulong : ℕ
code_ulong = 0x80

abbrev pub code_small_ulong : ℕ
code_small_ulong = 0x53

abbrev pub code_ulong0 : ℕ
code_ulong0 = 0x44

abbrev pub code_byte : ℕ
code_byte = 0x51

abbrev pub code_short : ℕ
code_short = 0x61

abbrev pub code_int : ℕ
code_int = 0x71

abbrev pub code_smallint : ℕ
code_smallint = 0x54

abbrev pub code_long : ℕ
code_long = 0x81

abbrev pub code_smalllong : ℕ
code_smalllong = 0x55

abbrev pub code_float : ℕ
code_float = 0x72

abbrev pub code_double : ℕ
code_double = 0x82

abbrev pub code_decimal32 : ℕ
code_decimal32 = 0x74

abbrev pub code_decimal64 : ℕ
code_decimal64 = 0x84

abbrev pub code_decimal128 : ℕ
code_decimal128 = 0x94

abbrev pub code_char : ℕ
code_char = 0x73

abbrev pub code_timestamp : ℕ
code_timestamp = 0x83

abbrev pub code_uuid : ℕ
code_uuid = 0x98

abbrev pub code_vbin8 : ℕ
code_vbin8 = 0xa0

abbrev pub code_vbin32 : ℕ
code_vbin32 = 0xb0

abbrev pub code_str8 : ℕ
code_str8 = 0xa1

abbrev pub code_str32 : ℕ
code_str32 = 0xb1

abbrev pub code_sym8 : ℕ
code_sym8 = 0xa3

abbrev pub code_sym32 : ℕ
code_sym32 = 0xb3

abbrev pub code_list0 : ℕ
code_list0 = 0x45

abbrev pub code_list8 : ℕ
code_list8 = 0xc0

abbrev pub code_list32 : ℕ
code_list32 = 0xd0

abbrev pub code_map8 : ℕ
code_map8 = 0xc1

abbrev pub code_map32 : ℕ
code_map32 = 0xd1

abbrev pub code_array8 : ℕ
code_array8 = 0xe0

abbrev pub code_array32 : ℕ
code_array32 = 0xf0

abbrev pub code_open : ℕ
code_open = 0x10

abbrev pub code_begin : ℕ
code_begin = 0x11

abbrev pub code_attach : ℕ
code_attach = 0x12

abbrev pub code_flow : ℕ
code_flow = 0x13

abbrev pub code_transfer : ℕ
code_transfer = 0x14

abbrev pub code_disposition : ℕ
code_disposition = 0x15

abbrev pub code_detach : ℕ
code_detach = 0x16

abbrev pub code_end : ℕ
code_end = 0x17

abbrev pub code_close : ℕ
code_close = 0x18

abbrev pub code_source : ℕ
code_source = 0x28

abbrev pub code_target : ℕ
code_target = 0x29

abbrev pub code_error : ℕ
code_error = 0x1d

abbrev pub code_message_header : ℕ
code_message_header = 0x70

abbrev pub code_delivery_annotations : ℕ
code_delivery_annotations = 0x71

abbrev pub code_message_annotations : ℕ
code_message_annotations = 0x72

abbrev pub code_message_properties : ℕ
code_message_properties = 0x73

abbrev pub code_application_properties : ℕ
code_application_properties = 0x74

abbrev pub code_application_data : ℕ
code_application_data = 0x75

abbrev pub code_amqp_sequence : ℕ
code_amqp_sequence = 0x76

abbrev pub code_amqp_value : ℕ
code_amqp_value = 0x77

abbrev pub code_footer : ℕ
code_footer = 0x78

abbrev pub code_state_received : ℕ
code_state_received = 0x23

abbrev pub code_state_accepted : ℕ
code_state_accepted = 0x24

abbrev pub code_state_rejected : ℕ
code_state_rejected = 0x25

abbrev pub code_state_released : ℕ
code_state_released = 0x26

abbrev pub code_state_modified : ℕ
code_state_modified = 0x27

abbrev pub code_sasl_mechanism : ℕ
code_sasl_mechanism = 0x40

abbrev pub code_sasl_init : ℕ
code_sasl_init = 0x41

abbrev pub code_sasl_challenge : ℕ
code_sasl_challenge = 0x42

abbrev pub code_sasl_response : ℕ
code_sasl_response = 0x43

abbrev pub code_sasl_outcome : ℕ
code_sasl_outcome = 0x44

abbrev pub code_delete_on_close : ℕ
code_delete_on_close = 0x2b

abbrev pub code_delete_on_no_links : ℕ
code_delete_on_no_links = 0x2c

abbrev pub code_delete_on_no_messages : ℕ
code_delete_on_no_messages = 0x2d

abbrev pub code_delete_on_no_links_or_messages : ℕ
code_delete_on_no_links_or_messages = 0x2e

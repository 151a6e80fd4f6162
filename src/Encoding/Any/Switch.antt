-- ===== src/Encoding/Any/Switch.antt =====
-- internal/encoding/encode.go: the types that `Marshal` has a case for.
use go_amqp.Base.{Bool, true, false, if◌then◌else◌}
use go_amqp.Buffer.{Step, not_marshaled, fail}

-- The Go types: those that the switch names, `marshaler` for any other type with a Marshal method, the
-- empty interface `any`, which is the type of what a pointer points to and never that of a value, and
-- the pointers to them.
pub data GoType : Type 0 where
  nil boolean uint uint64 uint32 uint16 uint8 int int8 int16 int32 int64 float32 float64 : GoType
  text bytes map_any map_string map_symbol unsettled time : GoType
  int8s uint16s int16s uint32s int32s uint64s int64s float32s float64s booleans : GoType
  texts symbols byte_slices times uuids anys : GoType
  marshaler any_ : GoType
  pointer_to : GoType → GoType

-- The types that have a case for themselves and one for their pointer; the method set of a pointer to a
-- `marshaler` has its Marshal.
abbrev pub has_two_cases : GoType → Bool
has_two_cases nil = false
has_two_cases any_ = false
has_two_cases (pointer_to t) = false
has_two_cases t = true

abbrev pub has_case : GoType → Bool
has_case nil = true
has_case (pointer_to t) = has_two_cases t
has_case t = has_two_cases t

-- The type switch of `Marshal`, where `w` is what the case of the type does.
abbrev pub marshal_as : GoType → Step (Unit {0}) → Step (Unit {0})
marshal_as t w = if has_case t then w else fail not_marshaled

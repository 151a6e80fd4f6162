-- ===== src/Encoding/Any.antt =====
-- internal/encoding: values of any type. A value of Go's `any` is a `Value`, with one constructor for
-- each type that `Marshal` or `ReadAny` has. A map is the list of its pairs, in the order in which
-- they are written or read; Go's map has of a repeated key the last pair only, and a map that is empty
-- but not nil is taken for nil. A Go `int` is a `long`. A string is its bytes,
-- a float its bits, a time its milliseconds since 1970.
pub mod Write
pub mod Read
pub mod Decode
pub mod Keys
pub mod Fuel
pub mod Readers
pub mod Enough
pub mod Ends
pub mod Writers
pub mod Switch
use go_amqp.Base.{ℕ, ◌+◌, Bool, true, false, List}
use go_amqp.Encoding.Signed.{ℤ}

pub data Array : Type 0 where
  ubytes uint16s uint32s uint64s floats doubles : List ℕ → Array
  int8s int16s int32s int64s timestamps : List ℤ → Array
  bools : List Bool → Array
  strings symbols binaries uuids : List (List ℕ) → Array

mutual
  pub data Value : Type 0 where
    null : Value
    bool : Bool → Value
    ubyte ushort uint ulong float double : ℕ → Value
    byte short int long timestamp : ℤ → Value
    binary string symbol uuid : List ℕ → Value
    array : Array → Value
    list : Values → Value
    map : Pairs → Value
    described : Value → Value → Value
    lifetime : ℕ → Value
    error : ErrorInfo → Value
    state : State → Value

  pub data Values : Type 0 where
    no_values : Values
    value : Value → Values → Values

  pub data Pairs : Type 0 where
    no_pairs : Pairs
    pair : Value → Value → Pairs → Pairs

  -- `Error`: the condition, the description and the info.
  pub data ErrorInfo : Type 0 where
    error_info : List ℕ → List ℕ → Pairs → ErrorInfo

  -- The delivery states; a rejection may have an error.
  pub data State : Type 0 where
    received : ℕ → ℕ → State
    accepted : State
    rejected : ErrorInfo → State
    rejected_plain : State
    released : State
    modified : Bool → Bool → Pairs → State

unfoldable pub count_values : Values → ℕ
count_values no_values = 0
count_values (value v vs) = count_values vs + 1

unfoldable pub count_pairs : Pairs → ℕ
count_pairs no_pairs = 0
count_pairs (pair k v ps) = count_pairs ps + 1

abbrev pub no_info : Pairs → Bool
no_info no_pairs = true
no_info (pair k v ps) = false

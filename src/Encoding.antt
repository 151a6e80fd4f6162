-- ===== src/Encoding.antt =====
-- internal/encoding: the AMQP 1.0 type system on the wire. `Write` is encode.go, `Read` is
-- decode.go, Arrays is the arrays of types.go, Composite and Any are the composites and the values of
-- any type; the other children prove that what is written is read back.
pub mod Codes
pub mod Signed
pub mod Utf8
pub mod Write
pub mod Read
pub mod Back
pub mod Unsigned
pub mod Integers
pub mod Variable
pub mod Headers
pub mod Arrays
pub mod Composite
pub mod Any

-- ===== src/Lib.antt =====
-- Verification of go-amqp, an AMQP 1.0 client.
--
-- A connection reads frames from the network and hands each to a session by its channel; the
-- session's mux hands the performatives to the links by their handle, and the links send theirs
-- back through the session, which numbers the transfers and keeps the flow windows. A frame is a
-- header and a body in the type system of internal/encoding, written to and read from a buffer.
--
-- Base: the native numbers with their Boolean tests, uint32 arithmetic (`add32`, `sub32`), lists,
--   words as bits, and maps as association lists without repeated keys.
-- Bitmap: internal/bitmap/bitmap.go. `Bitmap` has the words of `bits` and `max`; `new`, `add`,
--   `remove` and `next` are its operations. `contains` is the set that a bitmap stands for.
-- Buffer: internal/buffer/buffer.go. `Buffer` has the bytes and the read position; the operations
--   keep their names. An operation that may fail is a `Step`: it returns a value, an error or a panic.
-- Encoding: internal/encoding. Codes are the type codes of types.go, Write is encode.go, Read is
--   decode.go, one function for each of theirs. A signed number is a `ℤ`, on the wire a word.
--   Encoding.Arrays has the arrays of types.go, Encoding.Composite `MarshalComposite` and
--   `UnmarshalComposite`; Encoding.Any has the values of any type, `Marshal` and `ReadAny` on them,
--   and the maps, lists, described types, errors and delivery states of types.go; its Switch has the
--   types that `Marshal` has a case for.
-- Frames: Header is internal/frames/parsing.go (`ParseHeader`, `Write`). Terminus, Bodies, Flows and
--   Sasl are the bodies of internal/frames/frames.go on the wire: a record for each struct, with the
--   fields that its `Marshal` and `Unmarshal` list. Parse is `ParseBody`. Performatives has the fields
--   that the muxes act on.
-- Connection: conn.go. `new_session` and `delete_session` are `newSession` and `deleteSession`, `on_frame` is
--   a round of `connReader`, `open_amqp` what `openAMQP` takes from the peer. A history is a list of
--   `Event`s.
-- Creditor: creditor.go. Channels are numbers, with a list of those that were closed.
-- Session: session.go. `Mux` holds the variables of `Session.mux`, and each case of its select is a
--   function (`on_flow`, `on_attach`, `on_transfer`, `on_detach`, `on_end`, `on_tx_transfer`,
--   `on_tx`); Session.Dispose has the case of a disposition, Session.Handles `allocateHandle` and
--   `deallocateHandle`. What a case sends, and to whom, is a list of `Action`s.
-- Sender: sender.go. `send` is its `send`, from the encoded message on. Sender.Mux has the credit and the
--   frames of its `mux`, with the link's `muxHandleFrame` for a detach.
-- Receiver: receiver.go. `mux_receive` is `muxReceive`; whether `Message.Unmarshal` accepts the bytes is a
--   parameter, an error or none. Sent has the sender and the receiver together.
-- Runs: concrete inputs.
--
-- Fuel: `read_any` has one unit of fuel for each level of nesting, which is `ReadAny`'s recursion; a
-- unit more than the bytes that are unread is enough.
--
-- Loops: the loop over the delivery ids of a disposition and the loop of `send` run on fuel, and
-- return `none` when it runs out. For the first, two rounds more than the distance from the first id to the
-- last are enough when the range ends below 2 ^ 32 - 1; for the second, two rounds more than the bytes
-- when the peer's frames hold more than a transfer's header. All other loops are structural.
--
-- Concurrency: a mutex makes an operation atomic, and a mux is one goroutine, so each operation and
-- each case of a select is a function on the state; histories are lists or relations of such steps.
--
-- Not modelled: the network, TLS, timers and contexts; messages; the rest
-- of the connection (negotiation, reading and writing, shutdown), the other cases of the links' muxes, the attach and detach of links, and the exchanges of SASL.
pub mod Base
pub mod Bitmap
pub mod Buffer
pub mod Encoding
pub mod Frames
pub mod Connection
pub mod Creditor
pub mod Session
pub mod Sender
pub mod Receiver
mod Runs

-- ===== src/Frames.antt =====
-- internal/frames: the frame header and `ParseBody` of parsing.go, the bodies of frames.go on the wire,
-- and the performatives as the session and its links see them. A frame's body enters `write` as the
-- step that marshals it.
pub mod Header
pub mod Fields
pub mod Terminus
pub mod Bodies
pub mod Sasl
pub mod Flows
pub mod Parse
pub mod Carried
pub mod States
pub mod DefaultOutcome
pub mod Ends
pub mod RoundTrip
pub mod Performatives

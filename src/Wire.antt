-- ===== src/Wire.antt =====
-- What the wire format of the protocol promises, for the envelope that every exchange sends
-- (internal/ipc/gen/ipc_generated.js, `Envelope`) and for the messages in it.
pub mod RoundTrip
pub mod Unknown
pub mod Total
pub mod Delimited
pub mod Maps
pub mod Merge
mod Examples

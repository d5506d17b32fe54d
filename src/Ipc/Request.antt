-- ===== src/Ipc/Request.antt =====
-- `Request` of internal/ipc/gen/ipc_generated.js (bundled in internal/quickshell/services/qml_ipc.mjs): the
-- message, `encode` and `decode` and their length-delimited forms, and the lemmas from which its
-- round trip is put together.
pub mod Message
pub mod Encode
pub mod Decode
pub mod RoundTrip
pub mod Ends
pub use tilbo.Ipc.Request.Message.{Request, empty}
unfoldable pub use tilbo.Ipc.Request.Encode.{encode, encode_delimited}
unfoldable pub use tilbo.Ipc.Request.Decode.{decode_field, decode, decode_delimited}

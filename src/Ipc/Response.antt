-- ===== src/Ipc/Response.antt =====
-- `Response` of internal/ipc/gen/ipc_generated.js (bundled in internal/quickshell/services/qml_ipc.mjs): the
-- message, `encode` and `decode` and their length-delimited forms, and the lemmas from which its
-- round trip is put together.
pub mod Message
pub mod Encode
pub mod Decode
pub mod RoundTrip
pub mod Ends
pub use tilbo.Ipc.Response.Message.{Response, empty}
unfoldable pub use tilbo.Ipc.Response.Encode.{encode, encode_delimited}
unfoldable pub use tilbo.Ipc.Response.Decode.{decode_field, decode, decode_delimited}

-- ===== src/PeerId.antt =====
-- sf-peer-id: the identifier of a peer, its text and binary forms, and its errors.
pub mod Errors
pub mod Hex
pub mod Base
pub mod Text
pub mod Parsing
pub mod RoundTrip
pub mod Random
pub mod Binary
pub mod NoStd
pub mod Encoding
pub mod Serde
pub mod SerdeLaws
mod Tests

-- ===== src/Transport.antt =====
-- sf-wt-transport, sf-core and sf-node: addresses, streams and the polling of a transport.
pub mod Address
pub mod Stream
pub mod Polling
pub mod Node
pub mod Events
pub mod Writes
mod Tests
pub mod Platform
pub mod Dialing
pub mod Trust
pub mod Opening
pub mod Urls
pub mod Announcing
pub mod Building
mod DialingTests
pub mod Listening

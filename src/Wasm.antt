-- ===== src/Wasm.antt =====
-- sf-wasm: the tables of the browser client.
pub mod Events
pub mod Peer
pub mod Handshake
pub mod Trickle
pub mod PeerManager
pub mod Callbacks
pub mod Client
pub mod ClientLaws
pub mod Socket
pub mod Heard
pub mod Peers
pub mod Notify
mod Browser
mod Tests
mod HandshakeTests

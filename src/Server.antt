-- ===== src/Server.antt =====
-- sf-server: the signalling server.
pub mod Handler
pub mod State
pub mod Delivery
pub mod Registry
pub mod Ws
pub mod Session
pub mod Spec
pub mod Refinement
pub mod Extract
pub mod Identity
pub mod Race
pub mod Incoming
pub mod Startup
pub mod Serving
mod Tests
mod ServingTests
mod IdentityTests
mod WsTests

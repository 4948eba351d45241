-- ===== src/System.antt =====
-- The parts together: a browser client of sf-wasm, the server of sf-server, and another client.
pub mod Relay
pub mod Identity
mod Tests

-- ===== src/Webrtc.antt =====
-- sf-webrtc: session descriptions, ICE candidates, event streams, channels and connections.
pub mod Errors
pub mod Sdp
pub mod Ice
pub mod Events
pub mod Channel
pub mod Streams
pub mod Traffic
pub mod Servers
pub mod Connection
pub mod Signaling
pub mod Gathering
mod Tests

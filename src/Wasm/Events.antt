-- ===== src/Wasm/Events.antt =====
-- sf-wasm/src/client.rs: the events that callbacks are notified of.
use sf_rs.Prelude.{ℕ, List}
use sf_rs.PeerId.Base.{PeerId}

pub data ClientEvent : Type 0 where
  new_peer_event : PeerId → ClientEvent
  message_event : PeerId → List ℕ → ClientEvent
  data_channel_open : PeerId → ClientEvent
  data_channel_close : PeerId → ClientEvent
  data_channel_message : PeerId → List ℕ → ClientEvent

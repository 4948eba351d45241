-- ===== src/Server/Handler.antt =====
-- sf-server/src/peer_handler.rs, socket_metadata.rs and error.rs: a connected peer, its channel, and
-- what it does with an incoming frame.
use sf_rs.Prelude.{
  refl, ℕ, List, [], ◌∷◌, ◌++◌, Bool, true, false, ◌≡◌, ◌≢◌, Option, none, some, Outcome, ok, err,
  Totals, bump,
}
use sf_rs.PeerId.Base.{PeerId}
use sf_rs.PeerId.Errors.{IoError}
use sf_rs.PeerId.Errors
use sf_rs.PeerId.Text.{display}
use sf_rs.Protocol.{PeerRequest, PeerEvent, keep_alive, forward}

-- `crate::Error`.
pub data ServerError : Type 0 where
  bind serve : IoError → ServerError
  peer_not_found peer_already_exists : PeerId → ServerError
  send_channel_closed : ServerError
  serde : List ℕ → ServerError
  peer_id : Errors.Error → ServerError

-- `SocketMetadata`; the address is its text.
pub record SocketMetadata : Type 0 where
  pub origin : List ℕ
  pub peer_id : PeerId

-- `PeerHandler`. A clone shares the channel, which is named by a number; the counters are those of
-- the label `peer_id`.
pub record PeerHandler : Type 0 where
  pub meta : SocketMetadata
  pub sender : ℕ

-- `id()`.
abbrev pub id : PeerHandler → PeerId
id h = h.meta.peer_id

-- The label of the handler's counters, `meta.peer_id.to_string()`.
abbrev pub label : PeerHandler → List ℕ
label h = display h.meta.peer_id

-- A future is pending or has its result.
pub data Poll {ℓ} (A : Type ℓ) : Type ℓ where
  pending : Poll A
  ready : A → Poll A

-- tokio's `mpsc` channels, by their numbers: a poll of what `Sender::send` returns, with whether the
-- message was accepted, and the messages that wait in a channel.
pub record ChannelOps (N : Type 0) : Type 0 where
  pub send : ℕ → PeerRequest → N → Poll (N × Bool)
  pub queue : ℕ → N → List PeerRequest

-- An accepted message waits behind those that were there; the other channels stay as they are.
pub record ChannelLaws {N : Type 0} (channels : ChannelOps N) : Type 0 where
  pub accepted :
      (i : ℕ) (req : PeerRequest) (n n' : N)
      → channels.send i req n ≡ ready (n', true)
      → channels.queue i n' ≡ channels.queue i n ++ req ∷ []
  pub others :
      (i j : ℕ) (req : PeerRequest) (n n' : N)
      → channels.send i req n ≡ ready (n', true)
      → j ≢ i
      → channels.queue j n' ≡ channels.queue j n

-- The channels, and `sf.peer.messages_sent_total`.
pub record Network (N : Type 0) : Type 0 where
  pub channels : N
  pub sent : Totals

module _ {N : Type 0} (channels : ChannelOps N) where
  abbrev queued :
      Network N → PeerHandler → Poll (N × Bool) → Poll (Network N × Outcome ServerError (Unit {0}))
  queued net h pending = pending
  queued net h (ready (n, true)) =
      ready (record { channels = n; sent = bump (label h) net.sent }, ok tt)
  queued net h (ready (n, false)) = ready (record net { channels = n }, err send_channel_closed)

  -- `send`.
  unfoldable pub send :
      Network N → PeerHandler → PeerRequest → Poll (Network N × Outcome ServerError (Unit {0}))
  send net h req = queued net h (channels.send h.sender req net.channels)

  -- A message that is accepted makes a success.
  pub send_accepted :
      (net : Network N) (h : PeerHandler) (req : PeerRequest) (n : N)
      → channels.send h.sender req net.channels ≡ ready (n, true)
      → send net h req ≡ ready (record { channels = n; sent = bump (label h) net.sent }, ok tt)
  unfolding send
  send_accepted net h req n e = rw e refl

-- `axum::extract::ws::Message`.
pub data Message : Type 0 where
  text binary ping pong : List ℕ → Message
  close : Option (List ℕ) → Message

-- `AppStateInterface`, over a state that is passed along.
pub record AppStateInterface (St : Type 0) : Type 0 where
  pub handle_keepalive : PeerId → St → St
  pub handle_forward : PeerId → PeerId → Option PeerId → PeerEvent → St → St

module _ {St : Type 0} (state : AppStateInterface St) where
  -- `handle_request`.
  unfoldable pub handle_request : PeerHandler → PeerRequest → St → St
  handle_request h keep_alive st = state.handle_keepalive (id h) st
  handle_request h (forward from_peer_id to_peer_id event) st =
      state.handle_forward from_peer_id (id h) to_peer_id event st

  abbrev parsed : PeerHandler → Option PeerRequest → St → St
  parsed h (some req) st = handle_request h req st
  parsed h none st = st

  abbrev dispatch : (List ℕ → Option PeerRequest) → PeerHandler → Message → St → Bool × St
  dispatch parse h (text raw) st = (true, parsed h (parse raw) st)
  dispatch parse h (binary b) st = (true, st)
  dispatch parse h (ping d) st = (true, st)
  dispatch parse h (pong d) st = (true, st)
  dispatch parse h (close fr) st = (false, st)

  -- `process_incoming`: whether to go on, `sf.peer.messages_received_total`, and the state.
  -- `parse` is `serde_json::from_str::<PeerRequest>`.
  unfoldable pub process_incoming :
      (List ℕ → Option PeerRequest) → PeerHandler → Message → Totals → St → Bool × Totals × St
  unfolding handle_request
  process_incoming parse h msg received st =
      let (go_on, st') = dispatch parse h msg st in (go_on, bump (label h) received, st')

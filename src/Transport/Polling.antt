-- ===== src/Transport/Polling.antt =====
-- sf-wt-transport/src/listener/native.rs and sf-core/src/transport.rs: the events of a listener. The
-- interface watcher and the accept channel are given as what they have ready.
use sf_rs.Prelude.{ℕ, zero, suc, List, [], ◌∷◌, Bool, true, false, Option, none, some}
use sf_rs.Transport.Address.{IpAddr, SocketAddr, Multiaddr, ip4, tcp, ip_to_listenaddr}

-- `TransportEvent`.
pub data TransportEvent (Io : Type 0) : Type 0 where
  new_connection listen_addr addr_expired : Multiaddr → TransportEvent Io
  listen_error : Io → TransportEvent Io

-- `if_watch`'s `io::Result<IfEvent>`.
pub data IfEvent (Io : Type 0) : Type 0 where
  up down : IpAddr → IfEvent Io
  if_error : Io → IfEvent Io

-- `Listener`. `sessions` is what the accept channel holds, and `accept_closed` says that its sender is
-- gone. `handle` is the number of the web server beside it. Without a watcher there are no events of it.
pub record Listener (Io : Type 0) : Type 0 where
  pub bind : SocketAddr
  pub handle : Option ℕ
  pub addr : Multiaddr
  pub if_events : List (IfEvent Io)
  pub sessions : ℕ
  pub accept_closed : Bool
  pub pending_event : Option (TransportEvent Io)

-- The address that `Connection::new` gives every connection, `/ip4/127.0.0.1/tcp/0`.
abbrev pub remote_address : Multiaddr
remote_address = ip4 2130706433 ∷ tcp 0 ∷ []

module _ {Io : Type 0} where
  abbrev announced :
      (Multiaddr → TransportEvent Io)
      → Option Multiaddr
      → Option (TransportEvent Io) × List (IfEvent Io)
      → List (IfEvent Io)
      → Option (TransportEvent Io) × List (IfEvent Io)
  announced event (some addr) later es = (some (event addr), es)
  announced event none later es = later

  -- `poll_if_addr`: the event, if one is ready, and what the watcher has left.
  unfoldable pub poll_if_addr :
      SocketAddr → List (IfEvent Io) → Option (TransportEvent Io) × List (IfEvent Io)
  unfolding ip_to_listenaddr
  poll_if_addr bind [] = (none, [])
  poll_if_addr bind (up ip ∷ es) =
      announced listen_addr (ip_to_listenaddr bind ip) (poll_if_addr bind es) es
  poll_if_addr bind (down ip ∷ es) =
      announced addr_expired (ip_to_listenaddr bind ip) (poll_if_addr bind es) es
  poll_if_addr bind (if_error e ∷ es) = (some (listen_error e), es)

  -- The `match` on what the accept channel returns; `again` is the next round of the loop.
  abbrev accepted :
      Listener Io
      → Option (TransportEvent Io) × Listener Io
      → ℕ
      → Bool
      → Option (TransportEvent Io) × Listener Io
  accepted l again (suc n) closed =
      (some (new_connection remote_address), record l { sessions = n })
  accepted l again zero true = again
  accepted l again zero false = (none, l)

  abbrev interfaces :
      Listener Io
      → Option (TransportEvent Io) × Listener Io
      → Option (TransportEvent Io) × List (IfEvent Io)
      → Option (TransportEvent Io) × Listener Io
  interfaces l accepting (some event, es) = (some event, record l { if_events = es })
  interfaces l accepting (none, es) = accepting

  abbrev noted :
      Listener Io
      → Option (TransportEvent Io) × Listener Io
      → Option (TransportEvent Io)
      → Option (TransportEvent Io) × Listener Io
  noted l again (some event) = (some event, record l { pending_event = none })
  noted l again none = again

  -- `poll_next`: an event, or none while it is pending. The fuel is what the budget of tokio's task has
  -- left: without it the accept channel reports that it is pending, whatever it holds.
  unfoldable pub poll_next : ℕ → Listener Io → Option (TransportEvent Io) × Listener Io
  unfolding poll_if_addr
  poll_next zero l =
      let (event, es) = poll_if_addr l.bind l.if_events in
      noted l (interfaces l (none, record l { if_events = es }) (event, es)) l.pending_event
  poll_next (suc budget) l =
      let (event, es) = poll_if_addr l.bind l.if_events in
      let again = poll_next budget (record l { if_events = es }) in
      noted l
        (interfaces l (accepted (record l { if_events = es }) again l.sessions l.accept_closed)
          (event, es))
        l.pending_event

-- ===== src/Transport/Platform.antt =====
-- sf-wt-transport/src/platform/native.rs and listener/native.rs: opening a listener, with the web
-- server beside it that hands out the fingerprint of the certificate.
use sf_rs.Prelude.{
  ℕ, zero, suc, List, [], ◌∷◌, ◌++◌, Bool, true, false, Option, none, some, length, Outcome, ok,
  err, panic, ok_or, map_err, ◌>>=◌,
}
use sf_rs.Prelude.Action.{Action}
use sf_rs.Transport.Address.{
  IpAddr, v4, v6, SocketAddr, Multiaddr, ip4, ip6, tcp, udp, quic_v1, web_transport, p2p, other,
  TransportError, invalid_server, invalid_multiaddr, invalid_quic_endpoint, io,
}
use sf_rs.Transport.Polling.{IfEvent, Listener, TransportEvent, listen_addr}

-- The loop of `extract_ip_port`: the last address and the last port count.
unfoldable pub ip_port_of : Option IpAddr → Option ℕ → Multiaddr → Option IpAddr × Option ℕ
ip_port_of ip port [] = (ip, port)
ip_port_of ip port (ip4 n ∷ rest) = ip_port_of (some (v4 n)) port rest
ip_port_of ip port (ip6 n ∷ rest) = ip_port_of (some (v6 n)) port rest
ip_port_of ip port (udp n ∷ rest) = ip_port_of ip (some n) rest
ip_port_of ip port (tcp n ∷ rest) = ip_port_of ip (some n) rest
ip_port_of ip port (quic_v1 ∷ rest) = ip_port_of ip port rest
ip_port_of ip port (web_transport ∷ rest) = ip_port_of ip port rest
ip_port_of ip port (p2p id ∷ rest) = ip_port_of ip port rest
ip_port_of ip port (other text ∷ rest) = ip_port_of ip port rest

module _ {F : Type 0} where
  abbrev found : Multiaddr → Option IpAddr × Option ℕ → Outcome (TransportError F) SocketAddr
  found addr (some ip', some port') = ok (record { ip = ip'; port = port' })
  found addr (none, _) = err (invalid_multiaddr addr)
  found addr (some ip', none) = err (invalid_multiaddr addr)

  -- `extract_ip_port`, its pair made the `SocketAddr` that the caller makes of it.
  unfoldable pub extract_ip_port : Multiaddr → Outcome (TransportError F) SocketAddr
  unfolding ip_port_of
  extract_ip_port addr = found addr (ip_port_of none none addr)

-- `IpAddr::is_unspecified`.
abbrev pub is_unspecified : IpAddr → Bool
is_unspecified (v4 zero) = true
is_unspecified (v4 (suc n)) = false
is_unspecified (v6 zero) = true
is_unspecified (v6 (suc n)) = false

-- `Web`, once its task runs: where it is bound, what it answers, and whether a graceful shutdown was
-- asked of it. The state is the list of the servers that were started.
pub record Web : Type 0 where
  pub bind : SocketAddr
  pub fingerprint : List ℕ
  pub shutting_down : Bool

-- `Web::new`; `first().expect(..)` panics without a certificate.
unfoldable pub web_new {ℓ} : {E : Type ℓ} → SocketAddr → List (List ℕ) → Outcome E Web
web_new bind [] = panic
web_new bind (fingerprint ∷ _) =
    ok (record { bind = bind; fingerprint = fingerprint; shutting_down = false })

-- What `/fingerprint` answers.
unfoldable pub get_fingerprint : Web → List ℕ
get_fingerprint web = web.fingerprint

-- What opening a listener uses of moq-native and if-watch. A watcher is the events it will have.
pub record QuicApi (Io F Server : Type 0) : Type 0 where
  pub if_watcher : Outcome F (List (IfEvent Io))
  pub endpoint : SocketAddr → Outcome F (Option Server)
  pub local_addr : Server → Outcome F SocketAddr
  pub fingerprints : List (List ℕ)

-- `Listener::new`; nothing has arrived on the accept channel.
unfoldable pub new_listener :
    {Io : Type 0}
    → SocketAddr
    → Option ℕ
    → Multiaddr
    → List (IfEvent Io)
    → Option (TransportEvent Io)
    → Listener Io
new_listener bind' handle' addr' watched pending = record {
  bind = bind';
  handle = handle';
  addr = addr';
  if_events = watched;
  sessions = 0;
  accept_closed = false;
  pending_event = pending;
}

module _ {Io F Server : Type 0} (quic : QuicApi Io F Server) where
  -- The watcher and the pending event.
  abbrev pub watch :
      Multiaddr → Bool → Outcome (TransportError F) (List (IfEvent Io) × Option (TransportEvent Io))
  watch addr true = map_err io quic.if_watcher >>= λ events. ok (events, none)
  watch addr false = ok ([], some (listen_addr addr))

  -- The endpoint's server, by its local address.
  abbrev pub serve_on : SocketAddr → Outcome (TransportError F) SocketAddr
  serve_on bind = do
    server ← map_err invalid_quic_endpoint (quic.endpoint bind)
    server' ← ok_or server invalid_server
    map_err invalid_quic_endpoint (quic.local_addr server')

  abbrev pub Opened : Type 0
  Opened = SocketAddr × List (IfEvent Io) × Option (TransportEvent Io)

  -- `listen_on` up to the web server.
  unfoldable pub open_endpoint : Multiaddr → Outcome (TransportError F) Opened
  unfolding extract_ip_port
  open_endpoint addr = do
    bind ← extract_ip_port addr
    events ← watch addr (is_unspecified bind.ip)
    local ← serve_on bind
    ok (local, events.0, events.1)

  abbrev pub with_web :
      Multiaddr
      → Opened
      → Outcome (TransportError F) Web
      → Action (List Web) (TransportError F) (Listener Io)
  unfolding new_listener
  with_web addr (local, events, pending) (ok web) webs =
      (webs ++ web ∷ [], ok (new_listener local (some (length webs)) addr events pending))
  with_web addr opened (err e) webs = (webs, err e)
  with_web addr opened panic webs = (webs, panic)

  abbrev beside : Multiaddr → Bool → Opened → Action (List Web) (TransportError F) (Listener Io)
  unfolding web_new new_listener
  beside addr true opened webs = with_web addr opened (web_new opened.0 quic.fingerprints) webs
  beside addr false (local, events, pending) webs =
      (webs, ok (new_listener local none addr events pending))

  abbrev pub started :
      Multiaddr
      → Bool
      → Outcome (TransportError F) Opened
      → Action (List Web) (TransportError F) (Listener Io)
  unfolding web_new new_listener
  started addr allow (ok opened) webs = beside addr allow opened webs
  started addr allow (err e) webs = (webs, err e)
  started addr allow panic webs = (webs, panic)

  -- `listen_on`.
  unfoldable pub listen_on : Bool → Multiaddr → Action (List Web) (TransportError F) (Listener Io)
  unfolding open_endpoint web_new new_listener
  listen_on allow addr webs = started addr allow (open_endpoint addr) webs

-- `Drop for Listener`: `take` leaves no handle.
abbrev shut_down : ℕ → List Web → List Web
shut_down i [] = []
shut_down zero (web ∷ webs) = record web { shutting_down = true } ∷ webs
shut_down (suc i) (web ∷ webs) = web ∷ shut_down i webs

abbrev pub drop_at : Option ℕ → List Web → List Web
drop_at none webs = webs
drop_at (some i) webs = shut_down i webs

unfoldable pub drop_listener : {Io : Type 0} → Listener Io → List Web → List Web
drop_listener l webs = drop_at l.handle webs

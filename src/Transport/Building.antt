-- ===== src/Transport/Building.antt =====
-- sf-node/src/builder.rs, transport.rs and connection.rs: building a node, and the forms that a node
-- gives its transports and connections.
use sf_rs.Prelude.{
  [], ◌∷◌, Bool, true, false, ◌≡◌, refl, none, some, Outcome, err, map_err, ◌||◌, ◌∙◌, ◌⊎◌, inl,
  inr, Bool-cases, if◌then◌else◌,
}
use sf_rs.Prelude.Action.{Action}
use sf_rs.Transport.Address.{
  SocketAddr, Component, Multiaddr, TransportError, ip4, ip6, tcp, udp, quic_v1, web_transport, p2p,
  other,
}
use sf_rs.Transport.Polling.{Listener}
use sf_rs.Transport.Listening.{WebTransport}
use sf_rs.Transport.Node.{
  Protocol, over_web_transport, NodeError, transport, Transports, same, names_web_transport, dial,
  dial_transport, no_protocols_in_multiaddr, wrapped, extract_protocol_from_multiaddr,
}
use sf_rs.Transport.Dialing.{
  Connection, SessionApi, Stream, open_stream, accept_stream, close_connection, close_send,
  close_read,
}

-- `Builder`; the key pair gives the node its identifier.
pub record Builder (Key Io : Type 0) : Type 0 where
  pub keypair : Key
  pub transports : Transports Io

-- `Node`, with the identifier of its key.
pub record BuiltNode (Identity Io : Type 0) : Type 0 where
  pub peer_id : Identity
  pub transports : Transports Io

unfoldable pub new_builder : {Key Io : Type 0} → Key → Builder Key Io
new_builder keypair' = record { keypair = keypair'; transports = λ p. none }

-- `supported_protocols_for_dialing`.
unfoldable pub supported_protocols_for_dialing : {Io : Type 0} → WebTransport Io → Protocol
supported_protocols_for_dialing t = over_web_transport

-- `with_web_transport`: the map's `insert`, which replaces.
unfoldable pub with_web_transport :
    {Key Io : Type 0} → WebTransport Io → Builder Key Io → Builder Key Io
unfolding supported_protocols_for_dialing
with_web_transport t b = record b {
  transports = λ p. if same (supported_protocols_for_dialing t) p then some t else b.transports p;
}

unfoldable pub build_node :
    {Key Identity Io : Type 0} → (Key → Identity) → Builder Key Io → BuiltNode Identity Io
build_node to_peer_id b = record { peer_id = to_peer_id b.keypair; transports = b.transports }

-- `Transport::supports_address`.
abbrev component_supported : Protocol → Component → Bool
component_supported protocol web_transport = same protocol over_web_transport
component_supported protocol _ = false

abbrev any : (Component → Bool) → Multiaddr → Bool
any p [] = false
any p (c ∷ cs) = p c || any p cs

unfoldable pub supports_address : {Io : Type 0} → WebTransport Io → Multiaddr → Bool
unfolding supported_protocols_for_dialing
supports_address t addr = any (component_supported (supported_protocols_for_dialing t)) addr

module _ {F Session Send Receive : Type 0} (api : SessionApi F Session Send Receive) where
  abbrev boxed :
      {S A : Type 0} → Action S (TransportError F) A → Action S (NodeError (TransportError F)) A
  boxed method s = let (s', r) = method s in (s', map_err transport r)

  -- `open_stream`, `accept_stream` and `close` of a node's `Connection`, `close_send` and `close_read` of its `Stream`.
  unfoldable pub node_open_stream :
      Action (Connection Session) (NodeError (TransportError F)) (Stream Send Receive)
  unfolding open_stream
  node_open_stream = boxed (open_stream api)

  unfoldable pub node_accept_stream :
      Action (Connection Session) (NodeError (TransportError F)) (Stream Send Receive)
  unfolding accept_stream
  node_accept_stream = boxed (accept_stream api)

  unfoldable pub node_close : Action (Connection Session) (NodeError (TransportError F)) (Unit {0})
  unfolding close_connection
  node_close = boxed (close_connection api)

  unfoldable pub node_close_send :
      Action (Stream Send Receive) (NodeError (TransportError F)) (Unit {0})
  unfolding close_send
  node_close_send = boxed (close_send api)

  unfoldable pub node_close_read :
      Action (Stream Send Receive) (NodeError (TransportError F)) (Unit {0})
  unfolding close_read
  node_close_read = boxed (close_read api)

-- A transport supports exactly the addresses of which a node makes out the protocol.
supports_address-names :
    {Io : Type 0} (t : WebTransport Io) (addr : Multiaddr)
    → supports_address t addr ≡ names_web_transport addr
unfolding supports_address names_web_transport
supports_address-names t [] = refl
supports_address-names t (web_transport ∷ rest) = refl
supports_address-names t (ip4 n ∷ rest) = supports_address-names t rest
supports_address-names t (ip6 n ∷ rest) = supports_address-names t rest
supports_address-names t (tcp n ∷ rest) = supports_address-names t rest
supports_address-names t (udp n ∷ rest) = supports_address-names t rest
supports_address-names t (quic_v1 ∷ rest) = supports_address-names t rest
supports_address-names t (p2p id ∷ rest) = supports_address-names t rest
supports_address-names t (other text ∷ rest) = supports_address-names t rest

-- A node that was built with a transport hands every address that the transport supports to it, and
-- refuses every other for want of a protocol.
pub built_dial :
    {Io Err C Key Identity : Type 0} (connect : SocketAddr → Outcome Err C)
    (listen : Multiaddr → Outcome Err (Listener Io)) (to_peer_id : Key → Identity)
    (b : Builder Key Io) (t : WebTransport Io) (addr : Multiaddr)
    → let node = build_node to_peer_id (with_web_transport t b) in
      ((supports_address t addr ≡ true)
        × (dial connect listen node.transports addr
            ≡ wrapped connect listen (dial_transport connect listen addr)))
      ⊎ ((supports_address t addr ≡ false)
          × (dial connect listen node.transports addr ≡ err (no_protocols_in_multiaddr addr)))
unfolding build_node with_web_transport dial extract_protocol_from_multiaddr
built_dial connect listen to_peer_id b t addr = elim (Bool-cases (names_web_transport addr)) [
  | inl e ↦ inl (supports_address-names t addr ∙ e, rw e refl)
  | inr e ↦ inr (supports_address-names t addr ∙ e, rw e refl)
]

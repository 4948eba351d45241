-- ===== src/Transport/Address.antt =====
-- sf-wt-transport/src/lib.rs and listener/native.rs: multiaddresses and socket addresses.
use sf_rs.Prelude.{
  ℕ, List, [], ◌∷◌, ◌++◌, Bool, true, false, ◌≡◌, ◌⊎◌, inl, inr, refl, if◌then◌else◌, Option, none,
  some, Outcome, ok, err,
}

-- `IpAddr`.
pub data IpAddr : Type 0 where
  v4 v6 : ℕ → IpAddr

pub record SocketAddr : Type 0 where
  pub ip : IpAddr
  pub port : ℕ

-- `multiaddr::Protocol`, the components that the source tells apart; `other` is any further one. A
-- `multiaddr::PeerId` is its text.
pub data Component : Type 0 where
  ip4 ip6 tcp udp : ℕ → Component
  quic_v1 web_transport : Component
  p2p : List ℕ → Component
  other : List ℕ → Component

abbrev pub Multiaddr : Type 0
Multiaddr = List Component

-- `Error`; the errors of the crates it wraps are of the type `F`.
pub data TransportError (F : Type 0) : Type 0 where
  invalid_server : TransportError F
  invalid_multiaddr : Multiaddr → TransportError F
  invalid_quic_endpoint invalid_web_transport_session io : F → TransportError F
  reqwest_error hex_error web_transport_error moq_transfork : F → TransportError F

-- The loop over the components behind the first four: the last `P2p` counts.
unfoldable pub peer_id_of : Option (List ℕ) → Multiaddr → Option (Option (List ℕ))
peer_id_of found [] = some found
peer_id_of found (p2p id ∷ rest) = peer_id_of (some id) rest
peer_id_of found (ip4 n ∷ rest) = none
peer_id_of found (ip6 n ∷ rest) = none
peer_id_of found (tcp n ∷ rest) = none
peer_id_of found (udp n ∷ rest) = none
peer_id_of found (quic_v1 ∷ rest) = none
peer_id_of found (web_transport ∷ rest) = none
peer_id_of found (other text ∷ rest) = none

-- The last `match`, on the first two components.
abbrev pub socket_of : Component → Component → Option SocketAddr
socket_of (ip4 ip) (udp port) = some (record { ip = v4 ip; port = port })
socket_of (ip6 ip) (udp port) = some (record { ip = v6 ip; port = port })
socket_of _ _ = none

abbrev both : Option SocketAddr → Option (Option (List ℕ)) → Option (SocketAddr × Option (List ℕ))
both (some addr) (some id) = some (addr, id)
both _ _ = none

abbrev is_web_transport : Component → Bool
is_web_transport web_transport = true
is_web_transport _ = false

-- `multiaddr_to_socketaddr`. The third component may be anything.
unfoldable pub multiaddr_to_socketaddr : Multiaddr → Option (SocketAddr × Option (List ℕ))
unfolding peer_id_of
multiaddr_to_socketaddr (proto1 ∷ proto2 ∷ version ∷ proto3 ∷ rest) =
    if is_web_transport proto3 then both (socket_of proto1 proto2) (peer_id_of none rest) else none
multiaddr_to_socketaddr _ = none

-- `remote_ma_to_socketaddr`.
abbrev pub or_invalid :
    {F : Type 0}
    → Multiaddr
    → Option (SocketAddr × Option (List ℕ))
    → Outcome (TransportError F) (SocketAddr × Option (List ℕ))
or_invalid ma (some r) = ok r
or_invalid ma none = err (invalid_multiaddr ma)

unfoldable pub remote_ma_to_socketaddr :
    {F : Type 0} → Multiaddr → Outcome (TransportError F) (SocketAddr × Option (List ℕ))
unfolding multiaddr_to_socketaddr
remote_ma_to_socketaddr ma = or_invalid ma (multiaddr_to_socketaddr ma)

-- `Protocol::from(IpAddr)` and `socketaddr_to_multiaddr`.
abbrev pub ip_component : IpAddr → Component
ip_component (v4 n) = ip4 n
ip_component (v6 n) = ip6 n

unfoldable pub socketaddr_to_multiaddr : SocketAddr → Multiaddr
socketaddr_to_multiaddr a = ip_component a.ip ∷ udp a.port ∷ quic_v1 ∷ web_transport ∷ []

-- `is_same`.
unfoldable pub is_same : IpAddr → IpAddr → Bool
is_same (v4 a) (v4 b) = true
is_same (v6 a) (v6 b) = true
is_same _ _ = false

-- `ip_to_listenaddr`.
unfoldable pub ip_to_listenaddr : SocketAddr → IpAddr → Option Multiaddr
unfolding is_same socketaddr_to_multiaddr
ip_to_listenaddr endpoint ip =
    if is_same endpoint.ip ip
    then some (socketaddr_to_multiaddr (record { ip = ip; port = endpoint.port }))
    else none

-- A socket address made a multiaddress, with or without an identifier behind it, is read back.
pub multiaddr_round_trip :
    (a : SocketAddr) (id : List ℕ)
    → (multiaddr_to_socketaddr (socketaddr_to_multiaddr a) ≡ some (a, none))
      × (multiaddr_to_socketaddr (socketaddr_to_multiaddr a ++ p2p id ∷ []) ≡ some (a, some id))
unfolding multiaddr_to_socketaddr socketaddr_to_multiaddr peer_id_of
multiaddr_round_trip a id = by_family a.ip
  where
    by_family :
        (ip : IpAddr)
        → let b : SocketAddr = record { ip = ip; port = a.port } in
          (multiaddr_to_socketaddr (socketaddr_to_multiaddr b) ≡ some (b, none))
          × (multiaddr_to_socketaddr (socketaddr_to_multiaddr b ++ p2p id ∷ []) ≡ some (b, some id))
    by_family (v4 n) = (refl, refl)
    by_family (v6 n) = (refl, refl)

-- A listen address is announced exactly for an interface of the same family as the endpoint, and it is
-- one that a dialer resolves to that interface and the endpoint's port.
pub ip_to_listenaddr-dialed :
    {F : Type 0} (endpoint : SocketAddr) (ip : IpAddr)
    → ((is_same endpoint.ip ip ≡ false) × (ip_to_listenaddr endpoint ip ≡ none))
      ⊎ ((is_same endpoint.ip ip ≡ true)
          × ((ma : Multiaddr) × (ip_to_listenaddr endpoint ip ≡ some ma)
              × (remote_ma_to_socketaddr {F = F} ma
                  ≡ ok (record { ip = ip; port = endpoint.port }, none))))
unfolding ip_to_listenaddr remote_ma_to_socketaddr socketaddr_to_multiaddr is_same
    multiaddr_to_socketaddr peer_id_of
ip_to_listenaddr-dialed {F} endpoint ip = by_family endpoint.ip ip
  where
    by_family :
        (own ip' : IpAddr)
        → let e : SocketAddr = record { ip = own; port = endpoint.port } in
          ((is_same own ip' ≡ false) × (ip_to_listenaddr e ip' ≡ none))
          ⊎ ((is_same own ip' ≡ true)
              × ((ma : Multiaddr) × (ip_to_listenaddr e ip' ≡ some ma)
                  × (remote_ma_to_socketaddr {F = F} ma
                      ≡ ok (record { ip = ip'; port = endpoint.port }, none))))
    by_family (v4 a) (v4 b) =
        inr (refl, (ip4 b ∷ udp endpoint.port ∷ quic_v1 ∷ web_transport ∷ [], refl, refl))
    by_family (v6 a) (v6 b) =
        inr (refl, (ip6 b ∷ udp endpoint.port ∷ quic_v1 ∷ web_transport ∷ [], refl, refl))
    by_family (v4 a) (v6 b) = inl (refl, refl)
    by_family (v6 a) (v4 b) = inl (refl, refl)

-- ===== src/Transport/Node.antt =====
-- sf-node/src/node.rs: which transport an address is dialed and listened on with. A transport is a
-- `WebTransport`; the rest of its `dial`, once the address is resolved, is given.
use sf_rs.Prelude.{
  ℕ, List, [], ◌∷◌, Bool, true, false, ◌≡◌, ◌≢◌, ◌↔◌, inl, inr, refl, sym, ◌∙◌, arith,
  if◌then◌else◌, Option, none, some, is_some, Outcome, ok, err, panic, map_err, Option-cases,
  Bool-cases,
}
use sf_rs.Transport.Address.{
  SocketAddr, Multiaddr, ip4, ip6, tcp, udp, quic_v1, web_transport, p2p, other, TransportError, v4,
  v6, ip_component, multiaddr_to_socketaddr, socketaddr_to_multiaddr, multiaddr_round_trip,
  remote_ma_to_socketaddr,
}
use sf_rs.Transport.Polling.{Listener}
use sf_rs.Transport.Listening.{WebTransport, listen_on}

-- `sf_core::Protocol`.
pub data Protocol : Type 0 where
  over_web_transport over_web_rtc : Protocol

pub data NodeError (Err : Type 0) : Type 0 where
  no_protocols_in_multiaddr : Multiaddr → NodeError Err
  transport_not_found : Protocol → NodeError Err
  transport : Err → NodeError Err

-- The derived equality of `Protocol`.
abbrev pub same : Protocol → Protocol → Bool
same over_web_transport over_web_transport = true
same over_web_rtc over_web_rtc = true
same _ _ = false

-- `Node`, by the map of its transports.
abbrev pub Transports : Type 0 → Type 0
Transports Io = Protocol → Option (WebTransport Io)

-- Whether a component is found by the loop.
unfoldable pub names_web_transport : Multiaddr → Bool
names_web_transport [] = false
names_web_transport (web_transport ∷ rest) = true
names_web_transport (ip4 n ∷ rest) = names_web_transport rest
names_web_transport (ip6 n ∷ rest) = names_web_transport rest
names_web_transport (tcp n ∷ rest) = names_web_transport rest
names_web_transport (udp n ∷ rest) = names_web_transport rest
names_web_transport (quic_v1 ∷ rest) = names_web_transport rest
names_web_transport (p2p id ∷ rest) = names_web_transport rest
names_web_transport (other text ∷ rest) = names_web_transport rest

module _ {Err : Type 0} where
  -- `extract_protocol_from_multiaddr`.
  unfoldable pub extract_protocol_from_multiaddr : Multiaddr → Outcome (NodeError Err) Protocol
  unfolding names_web_transport
  extract_protocol_from_multiaddr address =
      if names_web_transport address
      then ok over_web_transport
      else err (no_protocols_in_multiaddr address)

module _ {Io Err C : Type 0} (connect : SocketAddr → Outcome Err C)
    (listen : Multiaddr → Outcome Err (Listener Io)) where
  abbrev resolved :
      Outcome (TransportError (Unit {0})) (SocketAddr × Option (List ℕ)) → Outcome Err C
  resolved (ok (addr, id)) = connect addr
  resolved (err e) = panic
  resolved panic = panic

  -- `WebTransport::dial`, which unwraps the resolved address.
  unfoldable pub dial_transport : Multiaddr → Outcome Err C
  unfolding remote_ma_to_socketaddr
  dial_transport ma = resolved (remote_ma_to_socketaddr ma)

  abbrev pub wrapped {ℓ} : {A : Type ℓ} → Outcome Err A → Outcome (NodeError Err) A
  wrapped r = map_err transport r

  abbrev dial_with : Multiaddr → Protocol → Option (WebTransport Io) → Outcome (NodeError Err) C
  unfolding dial_transport
  dial_with address protocol none = err (transport_not_found protocol)
  dial_with address protocol (some t) = wrapped (dial_transport address)

  abbrev dial_over :
      Transports Io → Multiaddr → Outcome (NodeError Err) Protocol → Outcome (NodeError Err) C
  unfolding dial_transport
  dial_over transports address (ok protocol) = dial_with address protocol (transports protocol)
  dial_over transports address (err e) = err e
  dial_over transports address panic = panic

  -- `Node::dial`.
  unfoldable pub dial : Transports Io → Multiaddr → Outcome (NodeError Err) C
  unfolding dial_transport extract_protocol_from_multiaddr
  dial transports address = dial_over transports address (extract_protocol_from_multiaddr address)

  abbrev listened :
      Transports Io
      → Protocol
      → Outcome Err (WebTransport Io)
      → Transports Io × Outcome (NodeError Err) (Unit {0})
  listened transports protocol (ok t) =
      ((λ p. if same protocol p then some t else transports p), ok tt)
  listened transports protocol (err e) = (transports, err (transport e))
  listened transports protocol panic = (transports, panic)

  abbrev listen_with :
      Transports Io
      → Multiaddr
      → Protocol
      → Option (WebTransport Io)
      → Transports Io × Outcome (NodeError Err) (Unit {0})
  unfolding listen_on
  listen_with transports address protocol none = (transports, err (transport_not_found protocol))
  listen_with transports address protocol (some t) =
      listened transports protocol (listen_on listen t address)

  abbrev listen_over :
      Transports Io
      → Multiaddr
      → Outcome (NodeError Err) Protocol
      → Transports Io × Outcome (NodeError Err) (Unit {0})
  unfolding listen_on
  listen_over transports address (ok protocol) =
      listen_with transports address protocol (transports protocol)
  listen_over transports address (err e) = (transports, err e)
  listen_over transports address panic = (transports, panic)

  -- `Node::listen`.
  unfoldable pub listen_at :
      Transports Io → Multiaddr → Transports Io × Outcome (NodeError Err) (Unit {0})
  unfolding listen_on extract_protocol_from_multiaddr
  listen_at transports address =
      listen_over transports address (extract_protocol_from_multiaddr address)

  names-socketaddr_to_multiaddr :
      (a : SocketAddr) → names_web_transport (socketaddr_to_multiaddr a) ≡ true
  unfolding names_web_transport socketaddr_to_multiaddr
  names-socketaddr_to_multiaddr a =
      elim a.ip
        as (λ ip.
          names_web_transport (ip_component ip ∷ udp a.port ∷ quic_v1 ∷ web_transport ∷ [])
          ≡ true) [ v4 n ↦ refl | v6 n ↦ refl ]

  -- The address made of a socket address is dialed at that socket address.
  pub dial-socketaddr_to_multiaddr :
      (transports : Transports Io) (t : WebTransport Io) (a : SocketAddr)
      → transports over_web_transport ≡ some t
      → dial transports (socketaddr_to_multiaddr a) ≡ wrapped (connect a)
  unfolding dial dial_transport extract_protocol_from_multiaddr remote_ma_to_socketaddr
  dial-socketaddr_to_multiaddr transports t a e =
      rw (names-socketaddr_to_multiaddr a, e, (multiaddr_round_trip a []).0) refl

  wrapped_panic : {A : Type 0} (r : Outcome Err A) → r ≢ panic → wrapped r ≢ panic
  wrapped_panic (ok a) n e = cc
  wrapped_panic (err x) n e = cc
  wrapped_panic panic n e = n refl

  -- Over connecting that does not panic itself, `dial` panics exactly on an address that names
  -- WebTransport, for which a transport is there, and that is not a socket address followed by
  -- identifiers.
  pub dial_panic :
      (transports : Transports Io) (address : Multiaddr)
      → ((addr : SocketAddr) → connect addr ≢ panic)
      → (dial transports address ≡ panic) ↔ (
          (names_web_transport address ≡ true)
          × (is_some (transports over_web_transport) ≡ true)
          × (multiaddr_to_socketaddr address ≡ none))
  unfolding dial dial_transport extract_protocol_from_multiaddr remote_ma_to_socketaddr
  dial_panic transports address returns =
      let d = dial transports address in
      elim (Bool-cases (names_web_transport address)) [
        | inr absent ↦
            let e : d ≡ err (no_protocols_in_multiaddr address) = rw absent refl in
            (λ h. cc (e, h), λ h. cc (absent, h.0))
        | inl present ↦ elim (Option-cases (transports over_web_transport)) [
          | inl t ↦
              let e : d ≡ err (transport_not_found over_web_transport) = rw (present, t) refl in
              (λ h. cc (e, h), λ h. absurd (ground (arith, t, h.1)))
          | inr (transport_, t) ↦ elim (Option-cases (multiaddr_to_socketaddr address)) [
            | inl m ↦
                let e : d ≡ panic = rw (present, t, m) refl in
                (λ h. (present, rw t refl, m), λ h. e)
            | inr ((addr, id), m) ↦
                let e : d ≡ wrapped (connect addr) = rw (present, t, m) refl in
                (
                  λ h. absurd (wrapped_panic (connect addr) (returns addr) (sym e ∙ h)),
                  λ h. cc (m, h.2),
                )
          ]
        ]
      ]

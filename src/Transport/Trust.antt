-- ===== src/Transport/Trust.antt =====
-- sf-wt-transport: opening a listener, and dialing it with the fingerprint that it hands out.
use sf_rs.Prelude.{
  ℕ, List, [], ◌∷◌, Bool, true, false, ◌≡◌, refl, subst, ap, ◌∙◌, map, All, All-append_right,
  Option, some, Outcome, ok, codes,
}
use sf_rs.Transport.Address.{SocketAddr, Multiaddr, TransportError, socketaddr_to_multiaddr}
use sf_rs.Transport.Polling.{Listener}
use sf_rs.Transport.Listening.{WebTransport}
use sf_rs.Transport.Platform.{QuicApi, Web, get_fingerprint, open_endpoint, listen_on}
use sf_rs.Transport.Dialing.{
  DialApi, fingerprint_url, fingerprint_of, dial_future, connect_with, client_of,
  url_from_socket_addr, url_text, new_connection_of,
}
use sf_rs.Transport.Node.{
  Transports, over_web_transport, dial, dial-socketaddr_to_multiaddr, wrapped,
}
use sf_rs.Transport.Opening.{Beside, in_front, Listens, listen_on_outcomes, opened-Beside}

module _ {F Response Client Url Session : Type 0} (api : DialApi F Response Client Url Session)
    (display_v6 : ℕ → List ℕ) where
  -- A web server is reached at the address that a dialer asks, and its answer arrives whole.
  unfoldable pub Answers : Web → Type 0
  Answers w =
      (response : Response) × (api.get (fingerprint_url display_v6 w.bind) ≡ ok response)
      × (api.text response ≡ ok (get_fingerprint w))

  fingerprint_of-Answers :
      (encode : List ℕ → List ℕ) (w : Web) (hash : List ℕ)
      → Answers w
      → w.fingerprint ≡ encode hash
      → ((bytes : List ℕ) → api.hex_decode (encode bytes) ≡ ok bytes)
      → fingerprint_of api display_v6 true w.bind ≡ ok (some hash)
  unfolding fingerprint_of get_fingerprint Answers
  fingerprint_of-Answers encode w hash (response, got, text) e decodes =
      rw (got, text, e, decodes hash) refl

  dial_future-asked :
      (allow : Bool) (a : SocketAddr) (fingerprint : Option (List ℕ))
      → fingerprint_of api display_v6 allow a ≡ ok fingerprint
      → dial_future api display_v6 allow a ≡ connect_with api display_v6 a fingerprint
  unfolding dial_future
  dial_future-asked allow a fingerprint e = rw e refl

  Beside-fingerprint_of :
      {Io : Type 0} (encode : List ℕ → List ℕ) (hash : List ℕ) (rest : List (List ℕ))
      (webs webs' : List Web) (l : Listener Io)
      → Beside (map encode (hash ∷ rest)) webs l true webs'
      → All Answers webs'
      → ((bytes : List ℕ) → api.hex_decode (encode bytes) ≡ ok bytes)
      → fingerprint_of api display_v6 true l.bind ≡ ok (some hash)
  Beside-fingerprint_of encode hash rest webs webs' l (in_front first others e handle) answers
        decodes =
      let w : Web = record { bind = l.bind; fingerprint = first; shutting_down = false } in
      fingerprint_of-Answers encode w hash (All-append_right Answers webs (w ∷ []) answers).0 (cc e)
        decodes

  -- Where the client for a hash can be built and its connection is accepted there is a connection.
  connect_with-accepted :
      (a : SocketAddr) (hash : List ℕ) (client : Client) (url : Url) (session : Session)
      → api.with_server_certificate_hashes (hash ∷ []) ≡ ok client
      → api.parse_url (url_text display_v6 a (codes "https")) ≡ some url
      → api.connect client url ≡ ok session
      → connect_with api display_v6 a (some hash) ≡ ok (new_connection_of session)
  unfolding connect_with client_of url_from_socket_addr
  connect_with-accepted a hash client url session built parsed accepted =
      rw (built, parsed, accepted) refl

module _ {Io F Server Response Client Url Session : Type 0} (quic : QuicApi Io F Server)
    (api : DialApi F Response Client Url Session) (display_v6 : ℕ → List ℕ)
    (encode : List ℕ → List ℕ) where
  -- A node that dials the address of a listener which was opened with its web server, over a network
  -- on which the started web servers answer, is connected, by the session that the client got which
  -- was built to accept the hash of the listener's first certificate and no other. A certificate's
  -- fingerprint is the encoding of its hash, and decoding undoes the encoding; that client can be
  -- built, the listener's address is a URL, and the client's connection to it is accepted.
  pub dialed_listener :
      (listen : Multiaddr → Outcome (TransportError F) (Listener Io)) (transports : Transports Io)
      (t : WebTransport Io) (addr : Multiaddr) (hash : List ℕ) (rest : List (List ℕ))
      (webs webs' : List Web) (l : Listener Io) (client : Client) (url : Url) (session : Session)
      → transports over_web_transport ≡ some t
      → quic.fingerprints ≡ map encode (hash ∷ rest)
      → listen_on quic true addr webs ≡ (webs', ok l)
      → All (Answers api display_v6) webs'
      → ((bytes : List ℕ) → api.hex_decode (encode bytes) ≡ ok bytes)
      → api.with_server_certificate_hashes (hash ∷ []) ≡ ok client
      → api.parse_url (url_text display_v6 l.bind (codes "https")) ≡ some url
      → api.connect client url ≡ ok session
      → dial (dial_future api display_v6 true) listen transports (socketaddr_to_multiaddr l.bind)
        ≡ wrapped (dial_future api display_v6 true) listen (ok (new_connection_of session))
  dialed_listener listen transports t addr hash rest webs webs' l client url session has_transport
        certificates opened answers decodes built parsed accepted =
      let beside =
        opened-Beside quic addr (map encode (hash ∷ rest)) webs webs' l (open_endpoint quic addr) (
          subst (λ fs. Listens quic true addr fs webs (open_endpoint quic addr) (webs', ok l))
            certificates
            (subst (Listens quic true addr quic.fingerprints webs (open_endpoint quic addr)) opened
              (listen_on_outcomes quic true addr webs))) in
      dial-socketaddr_to_multiaddr (dial_future api display_v6 true) listen transports t l.bind
        has_transport
      ∙ ap (wrapped (dial_future api display_v6 true) listen) (
          dial_future-asked api display_v6 true l.bind (some hash) (
            Beside-fingerprint_of api display_v6 encode hash rest webs webs' l beside answers
              decodes)
          ∙ connect_with-accepted api display_v6 l.bind hash client url session built parsed
              accepted)

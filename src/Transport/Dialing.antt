-- ===== src/Transport/Dialing.antt =====
-- sf-wt-transport/src/lib.rs and connection.rs: what `dial` does once the address is resolved, and the
-- connection it makes.
use sf_rs.Prelude.{
  ℕ, zero, suc, ◌+◌, ◌*◌, ◌/◌, ◌%◌, ◌^◌, List, [], ◌∷◌, ◌++◌, Bool, true, false, if◌then◌else◌, ltb,
  Option, none, some, codes, Outcome, ok, panic, map_err, ◌>>=◌,
}
use sf_rs.Prelude.Action.{Action}
use sf_rs.Transport.Address.{
  IpAddr, v4, v6, SocketAddr, Multiaddr, TransportError, reqwest_error, hex_error,
  web_transport_error, invalid_web_transport_session,
}
use sf_rs.Transport.Polling.{remote_address}

-- `Display` of an integer of at most five digits, as a `u8` and a `u16` are.
abbrev digits_of : ℕ → ℕ → List ℕ → List ℕ
digits_of zero n later = later
digits_of (suc fuel) n later =
    let rest = digits_of fuel (n / 10) ((48 + n % 10) ∷ later) in
    if ltb n 10 then (48 + n) ∷ later else rest

unfoldable pub decimal : ℕ → List ℕ
decimal n = digits_of 5 n []

abbrev octet : ℕ → ℕ → List ℕ
unfolding decimal
octet i n = decimal (n / 2 ^ (8 * i) % 256)

-- `Display` of an address; the form of a v6 address is given.
unfoldable pub display_ip : (ℕ → List ℕ) → IpAddr → List ℕ
unfolding decimal
display_ip display_v6 (v4 n) =
    octet 3 n ++ codes "." ++ octet 2 n ++ codes "." ++ octet 1 n ++ codes "." ++ octet 0 n
display_ip display_v6 (v6 n) = display_v6 n

-- What `dial` uses of reqwest, hex, url and web-transport. The builder's congestion control is fixed.
pub record DialApi (F Response Client Url Session : Type 0) : Type 0 where
  pub get : List ℕ → Outcome F Response
  pub text : Response → Outcome F (List ℕ)
  pub hex_decode : List ℕ → Outcome F (List ℕ)
  pub with_server_certificate_hashes : List (List ℕ) → Outcome F Client
  pub with_system_roots : Outcome F Client
  pub parse_url : List ℕ → Option Url
  pub connect : Client → Url → Outcome F Session

-- `Connection`. A `PeerId` of multiaddr is its text; the session stands behind an `Arc`.
pub record Connection (Session : Type 0) : Type 0 where
  pub session : Session
  pub remote_address : Multiaddr
  pub remote_peer_id : Option (List ℕ)

unfoldable pub new_connection_of : {Session : Type 0} → Session → Connection Session
new_connection_of session' = record {
  session = session';
  remote_address = remote_address;
  remote_peer_id = none;
}

module _ (display_v6 : ℕ → List ℕ) where
  -- The address that the fingerprint is asked at.
  unfoldable pub fingerprint_url : SocketAddr → List ℕ
  unfolding display_ip decimal
  fingerprint_url addr =
      codes "http://"
      ++ display_ip display_v6 addr.ip
      ++ codes ":"
      ++ decimal addr.port
      ++ codes "/fingerprint"

  abbrev pub host : IpAddr → List ℕ
  unfolding display_ip
  host (v6 n) = codes "[" ++ display_v6 n ++ codes "]"
  host (v4 n) = display_ip display_v6 (v4 n)

  -- The text that `url_from_socket_addr` parses.
  unfoldable pub url_text : SocketAddr → List ℕ → List ℕ
  unfolding display_ip decimal
  url_text addr scheme = scheme ++ codes "://" ++ host addr.ip ++ codes ":" ++ decimal addr.port

module _ {F Response Client Url Session : Type 0} (api : DialApi F Response Client Url Session)
    (display_v6 : ℕ → List ℕ) where
  -- The certificate's hash, where it is to be asked for over TCP.
  unfoldable pub fingerprint_of : Bool → SocketAddr → Outcome (TransportError F) (Option (List ℕ))
  unfolding fingerprint_url
  fingerprint_of false addr = ok none
  fingerprint_of true addr = do
    response ← map_err reqwest_error (api.get (fingerprint_url display_v6 addr))
    text ← map_err reqwest_error (api.text response)
    fingerprint ← map_err hex_error (api.hex_decode text)
    ok (some fingerprint)

  unfoldable pub client_of : Option (List ℕ) → Outcome (TransportError F) Client
  client_of (some fingerprint) =
      map_err web_transport_error (api.with_server_certificate_hashes (fingerprint ∷ []))
  client_of none = map_err web_transport_error api.with_system_roots

  abbrev expect : {E : Type 0} → Option Url → Outcome E Url
  expect (some url) = ok url
  expect none = panic

  -- `url_from_socket_addr`.
  unfoldable pub url_from_socket_addr : SocketAddr → List ℕ → Outcome (TransportError F) Url
  unfolding url_text
  url_from_socket_addr addr scheme = expect (api.parse_url (url_text display_v6 addr scheme))

  -- The future that `dial` returns, behind the fingerprint.
  unfoldable pub connect_with :
      SocketAddr → Option (List ℕ) → Outcome (TransportError F) (Connection Session)
  unfolding client_of url_from_socket_addr new_connection_of
  connect_with addr fingerprint = do
    client ← client_of fingerprint
    url ← url_from_socket_addr addr (codes "https")
    session ← map_err web_transport_error (api.connect client url)
    ok (new_connection_of session)

  -- The future that `dial` returns.
  unfoldable pub dial_future : Bool → SocketAddr → Outcome (TransportError F) (Connection Session)
  unfolding fingerprint_of connect_with
  dial_future allow_tcp_fingerprint addr =
      fingerprint_of allow_tcp_fingerprint addr >>= connect_with addr

-- What a connection and a stream use of a session; closing takes the code and the reason.
pub record SessionApi (F Session Send Receive : Type 0) : Type 0 where
  pub open_bi : Action Session F (Send × Receive)
  pub accept_bi : Action Session F (Send × Receive)
  pub close : ℕ → List ℕ → Session → Session
  pub finish : Action Send F (Unit {0})

-- `Stream`, with what its reads have buffered.
pub record Stream (Send Receive : Type 0) : Type 0 where
  pub send_stream : Send
  pub recv_stream : Receive
  pub read_buf : Option (List ℕ)

unfoldable pub new_stream : {Send Receive : Type 0} → Send × Receive → Stream Send Receive
new_stream (send, receive) = record { send_stream = send; recv_stream = receive; read_buf = none }

module _ {F Session Send Receive : Type 0} (api : SessionApi F Session Send Receive) where
  -- A method of the session and the stream made of what it returns, under the lock of the session.
  abbrev with_session :
      Action Session F (Send × Receive)
      → Action (Connection Session) (TransportError F) (Stream Send Receive)
  unfolding new_stream
  with_session method c =
      let (session', r) = method c.session in
      (
        record c { session = session' },
        map_err invalid_web_transport_session r >>= λ both. ok (new_stream both),
      )

  -- `open_stream`, `accept_stream` and `close`.
  unfoldable pub open_stream : Action (Connection Session) (TransportError F) (Stream Send Receive)
  unfolding new_stream
  open_stream c = with_session api.open_bi c

  unfoldable pub accept_stream :
      Action (Connection Session) (TransportError F) (Stream Send Receive)
  unfolding new_stream
  accept_stream c = with_session api.accept_bi c

  unfoldable pub close_connection : Action (Connection Session) (TransportError F) (Unit {0})
  close_connection c =
      (record c { session = api.close 0 (codes "Closing connection") c.session }, ok tt)

  -- `close_send` and `close_read` of a stream.
  unfoldable pub close_send : Action (Stream Send Receive) (TransportError F) (Unit {0})
  close_send s =
      let (send', r) = api.finish s.send_stream in
      (record s { send_stream = send' }, map_err invalid_web_transport_session r)

  unfoldable pub close_read : Action (Stream Send Receive) (TransportError F) (Unit {0})
  close_read s = (s, ok tt)

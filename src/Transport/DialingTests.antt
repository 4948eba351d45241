-- ===== src/Transport/DialingTests.antt =====
-- sf-wt-transport: opening, announcing and dialing at a concrete address.
use sf_rs.Prelude.{
  ℕ, List, [], ◌∷◌, ◌++◌, true, false, ◌≡◌, ◌↔◌, refl, none, some, codes, map, All, Outcome, ok,
}
use sf_rs.Transport.Address.{v4, v6, TransportError, SocketAddr, Multiaddr, socketaddr_to_multiaddr}
use sf_rs.Transport.Polling.{listen_addr, Listener}
use sf_rs.Transport.Listening.{WebTransport, listen_on, polls}
use sf_rs.Transport.Platform
use sf_rs.Transport.Platform.{QuicApi, Web, drop_listener, extract_ip_port, get_fingerprint}
use sf_rs.Transport.Opening.{Listens, listen_on_outcomes, opened_dropped}
use sf_rs.Transport.Dialing.{DialApi, fingerprint_url, url_text, dial_future, new_connection_of}
use sf_rs.Transport.Urls.{fingerprint_url-url_text}
use sf_rs.Transport.Trust.{Answers, dialed_listener}
use sf_rs.Transport.Announcing.{announced_twice}
use sf_rs.Transport.Node.{wrapped, dial}
use sf_rs.Transport.Tests.{here, listener, idle, transports}

abbrev display_v6 : ℕ → List ℕ
display_v6 n = codes "::1"

abbrev here_v6 : SocketAddr
here_v6 = record { ip = v6 1; port = 443 }

v6_url : fingerprint_url display_v6 here_v6 ≡ codes "http://::1:443/fingerprint"
unfolding fingerprint_url
v6_url = refl

v4_url : url_text display_v6 here (codes "https") ≡ codes "https://127.0.0.1:4433"
unfolding url_text
v4_url = refl

fingerprint_url-url_text_example :
    (fingerprint_url display_v6 here_v6
      ≡ url_text display_v6 here_v6 (codes "http") ++ codes "/fingerprint")
    ↔ ((n : ℕ) × (here_v6.ip ≡ v4 n))
fingerprint_url-url_text_example = fingerprint_url-url_text display_v6 here_v6

-- An endpoint is bound where it is asked to be; a fingerprint is the hash itself.
abbrev quic : QuicApi ℕ ℕ SocketAddr
quic = record {
  if_watcher = ok [];
  endpoint = λ bind. ok (some bind);
  local_addr = λ server. ok server;
  fingerprints = map (λ h. h) ((5 ∷ 6 ∷ []) ∷ []);
}

abbrev own_web : Web
own_web = record { bind = here; fingerprint = 5 ∷ 6 ∷ []; shutting_down = false }

abbrev opened_here : Listener ℕ
opened_here = record {
  bind = here;
  handle = some 0;
  addr = socketaddr_to_multiaddr here;
  if_events = [];
  sessions = 0;
  accept_closed = false;
  pending_event = some (listen_addr (socketaddr_to_multiaddr here));
}

listens_here :
    Platform.listen_on quic true (socketaddr_to_multiaddr here) [] ≡ (own_web ∷ [], ok opened_here)
unfolding Platform.listen_on Platform.open_endpoint socketaddr_to_multiaddr
listens_here = refl

listen_on_outcomes_example :
    Listens quic true
      (socketaddr_to_multiaddr here)
      quic.fingerprints
      []
      (Platform.open_endpoint quic (socketaddr_to_multiaddr here))
      (Platform.listen_on quic true (socketaddr_to_multiaddr here) [])
listen_on_outcomes_example = listen_on_outcomes quic true (socketaddr_to_multiaddr here) []

opened_dropped_example :
    (web : Web) × (own_web ∷ [] ≡ [] ++ web ∷ [])
    × (web.bind ≡ here)
    × (drop_listener opened_here (own_web ∷ []) ≡ [] ++ record web { shutting_down = true } ∷ [])
opened_dropped_example =
    opened_dropped quic (socketaddr_to_multiaddr here) [] (own_web ∷ []) opened_here listens_here

-- A network on which every request for a fingerprint is answered with that of `own_web`.
abbrev dial_api : DialApi ℕ (List ℕ) (List (List ℕ)) (List ℕ) (List (List ℕ))
dial_api = record {
  get = λ url. ok (5 ∷ 6 ∷ []);
  text = λ response. ok response;
  hex_decode = λ text. ok text;
  with_server_certificate_hashes = λ hashes. ok hashes;
  with_system_roots = ok [];
  parse_url = λ url. some url;
  connect = λ client url. ok client;
}

abbrev listen_err : Multiaddr → Outcome (TransportError ℕ) (Listener ℕ)
listen_err addr = ok listener

own_web-Answers : All (Answers dial_api display_v6) (own_web ∷ [])
unfolding Answers get_fingerprint
own_web-Answers = ((5 ∷ 6 ∷ [], refl, refl), tt)

dialed_listener_example :
    dial (dial_future dial_api display_v6 true) listen_err transports (socketaddr_to_multiaddr here)
    ≡ wrapped
        (dial_future dial_api display_v6 true)
        listen_err
        (ok (new_connection_of ((5 ∷ 6 ∷ []) ∷ [])))
dialed_listener_example =
    dialed_listener quic dial_api display_v6 (λ h. h) listen_err transports idle
      (socketaddr_to_multiaddr here) (5 ∷ 6 ∷ []) [] [] (own_web ∷ []) opened_here
      ((5 ∷ 6 ∷ []) ∷ []) (url_text display_v6 here (codes "https")) ((5 ∷ 6 ∷ []) ∷ []) refl refl
      listens_here own_web-Answers (λ bytes. refl) refl refl refl

extracts : extract_ip_port {F = ℕ} (socketaddr_to_multiaddr here) ≡ ok here
unfolding extract_ip_port socketaddr_to_multiaddr
extracts = refl

announced_twice_example :
    (t : WebTransport ℕ) × (listen_on
        (λ a. (Platform.listen_on quic true a []).1)
        (record { pending_events = []; listener = none })
        (socketaddr_to_multiaddr here)
      ≡ ok t)
    × (polls 1 2 t
        ≡ some (
            listen_addr (socketaddr_to_multiaddr here)
            ∷ listen_addr (socketaddr_to_multiaddr here)
            ∷ []))
announced_twice_example =
    announced_twice quic true (socketaddr_to_multiaddr here) [] (own_web ∷ []) opened_here here 1
      extracts refl listens_here

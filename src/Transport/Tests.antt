-- ===== src/Transport/Tests.antt =====
-- sf-wt-transport and sf-node: the theorems at concrete addresses, streams and listeners.
use sf_rs.Prelude.{
  ℕ, ◌<◌, ◌≤◌, arith, List, [], ◌∷◌, ◌++◌, true, false, ◌≡◌, ◌≢◌, ◌⊎◌, ◌↔◌, refl, Option, none,
  some, length, codes, Outcome, ok, panic,
}
use sf_rs.Transport.Address.{
  v4, SocketAddr, Multiaddr, p2p, ip4, web_transport, multiaddr_to_socketaddr,
  socketaddr_to_multiaddr, is_same, ip_to_listenaddr, remote_ma_to_socketaddr, multiaddr_round_trip,
  ip_to_listenaddr-dialed,
}
use sf_rs.Transport.Stream.{
  Arrival, chunk, not_yet, end_of_stream, failed, waiting, read_error, done, poll_read, buffered,
  min, poll_read_outcomes,
}
use sf_rs.Transport.Polling.{
  TransportEvent, listen_addr, new_connection, Listener, poll_next, poll_if_addr,
}
use sf_rs.Transport.Listening.{WebTransport, listen_on, polls, listen_on-polls}
use sf_rs.Transport.Events.{
  pending_poll, poll_transports, poll_next_event, Serves, poll_next_event_pending,
}
use sf_rs.Transport.Writes.{written, write_all, write_all-repeated}
use sf_rs.Transport.Node.{Transports, dial, names_web_transport, dial_panic}

abbrev pub here : SocketAddr
here = record { ip = v4 2130706433; port = 4433 }

multiaddr_round_trip_example :
    (multiaddr_to_socketaddr (socketaddr_to_multiaddr here) ≡ some (here, none))
    × (multiaddr_to_socketaddr (socketaddr_to_multiaddr here ++ p2p (codes "a") ∷ [])
        ≡ some (here, some (codes "a")))
multiaddr_round_trip_example = multiaddr_round_trip here (codes "a")

ip_to_listenaddr-dialed_example :
    ((is_same here.ip (v4 7) ≡ false) × (ip_to_listenaddr here (v4 7) ≡ none))
    ⊎ ((is_same here.ip (v4 7) ≡ true)
        × ((ma : Multiaddr) × (ip_to_listenaddr here (v4 7) ≡ some ma)
            × (remote_ma_to_socketaddr {F = ℕ} ma ≡ ok (record { ip = v4 7; port = 4433 }, none))))
ip_to_listenaddr-dialed_example = ip_to_listenaddr-dialed here (v4 7)

abbrev leftover : Option (List ℕ)
leftover = some (1 ∷ 2 ∷ 3 ∷ [])

abbrev quiet : Arrival ℕ
quiet = not_yet

poll_read_outcomes_example :
    ((bytes : List ℕ) × (leftover ≡ some bytes)
      × (length bytes < 2)
      × (poll_read 2 leftover quiet ≡ panic))
    ⊎ ((bytes : List ℕ) × ((leftover ≡ some bytes) ⊎ ((leftover ≡ none) × (quiet ≡ chunk bytes)))
        × (buf' : Option (List ℕ)) × (out : List ℕ) × (poll_read 2 leftover quiet
            ≡ ok (buf', done out))
        × (out ++ buffered buf' ≡ bytes)
        × (length out ≡ min 2 (length bytes)))
    ⊎ ((leftover ≡ none)
        × (((quiet ≡ not_yet) × (poll_read 2 leftover quiet ≡ ok (none, waiting)))
            ⊎ ((quiet ≡ end_of_stream) × (poll_read 2 leftover quiet ≡ ok (none, done [])))
            ⊎ ((e : ℕ) × (quiet ≡ failed e)
                × (poll_read 2 leftover quiet ≡ ok (none, read_error e)))))
poll_read_outcomes_example = poll_read_outcomes 2 leftover quiet

abbrev pub listener : Listener ℕ
listener = record {
  bind = here;
  handle = none;
  addr = [];
  if_events = [];
  sessions = 0;
  accept_closed = false;
  pending_event = none;
}

-- A closed channel is asked again and again, until the budget is used up.
closed_pending : (poll_next 9 (record listener { accept_closed = true })).0 ≡ none
unfolding poll_next poll_if_addr
closed_pending = refl

abbrev listen : Multiaddr → Outcome ℕ (Listener ℕ)
listen addr = ok listener

abbrev pub idle : WebTransport ℕ
idle = record { pending_events = []; listener = none }

listen_on-polls_example :
    (t' : WebTransport ℕ) × (listen_on listen idle (web_transport ∷ []) ≡ ok t')
    × (polls 1 1 t' ≡ some (listen_addr (web_transport ∷ []) ∷ []))
listen_on-polls_example = listen_on-polls listen 1 idle (web_transport ∷ []) listener refl

abbrev pub connect : SocketAddr → Outcome ℕ ℕ
connect addr = ok addr.port

abbrev pub transports : Transports ℕ
transports p = some idle

connect_returns : (addr : SocketAddr) → connect addr ≢ panic
connect_returns addr e = cc

dial_panic_example : (dial connect listen transports (ip4 1 ∷ web_transport ∷ []) ≡ panic) ↔ (
    (names_web_transport (ip4 1 ∷ web_transport ∷ []) ≡ true)
    × (true ≡ true)
    × (multiaddr_to_socketaddr (ip4 1 ∷ web_transport ∷ []) ≡ none))
dial_panic_example =
    dial_panic connect listen transports (ip4 1 ∷ web_transport ∷ []) connect_returns

-- A transport of the tests is the events that it holds.
abbrev pop : List (TransportEvent ℕ) → List (TransportEvent ℕ) × Option (TransportEvent ℕ)
pop [] = ([], none)
pop (e ∷ es) = (es, some e)

pop-Serves : (t : List (TransportEvent ℕ)) → Serves length (length t) (pop t)
pop-Serves [] = omega arith
pop-Serves (e ∷ es) = omega arith

abbrev two_transports : List (List (TransportEvent ℕ))
two_transports = (listen_addr [] ∷ []) ∷ (listen_addr [] ∷ new_connection [] ∷ []) ∷ []

poll_next_event_pending_example :
    (last ts' : List (List (TransportEvent ℕ))) × (dropped : List (TransportEvent ℕ))
    × (poll_next_event pop 4 two_transports [] ≡ some (pending_poll, ts', dropped))
    × (poll_transports pop last ≡ (ts', none))
    × (length dropped ≤ 3)
poll_next_event_pending_example =
    poll_next_event_pending pop length pop-Serves 4 two_transports [] (omega arith)

write_all-repeated_example :
    write_all {Io = ℕ} (2 ∷ 0 ∷ []) (7 ∷ 8 ∷ 9 ∷ []) [] ≡ (written 3, 7 ∷ 8 ∷ 7 ∷ 8 ∷ 9 ∷ [])
write_all-repeated_example = write_all-repeated (2 ∷ 0 ∷ []) (7 ∷ 8 ∷ 9 ∷ []) []

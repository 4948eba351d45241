-- ===== src/Server/WsTests.antt =====
-- sf-server: a connection with concrete turns.
use sf_rs.Prelude.{
  ℕ, List, [], ◌∷◌, true, false, ◌≡◌, ◌⊎◌, refl, Option, none, some, is_some, Totals, codes,
}
use sf_rs.PeerId.Base.{PeerId, peer_eq-Equivalence}
use sf_rs.PeerId.Text.{display}
use sf_rs.Protocol.{PeerRequest, PeerEvent, keep_alive, forward}
use sf_rs.Server.Handler.{text, close, process_incoming, label}
use sf_rs.Server.State.{interface, remove_peer}
use sf_rs.Server.Registry.{CountsPeers, Reachable, started, added}
use sf_rs.Server.Incoming.{process_incoming_outcomes}
use sf_rs.Server.Ws.{
  outbound, inbound, inbound_error, Connection, ws_turn, process_ws, handle_ws_connection, after,
  process_ws_open, process_ws_closed, process_ws_unregistered, handle_ws_connection_taken,
}
use sf_rs.Server.Session.{handle_ws_connection-CountsPeers}
use sf_rs.Server.Tests.{Map, ops, laws, alice, bob, handler_of, start, with_alice}

abbrev parse : List ℕ → Option PeerRequest
parse [] = some keep_alive
parse (c ∷ cs) = none

abbrev to_string : PeerRequest → Option (List ℕ)
to_string req = some (codes "{}")

abbrev zeros : Totals
zeros label = 0

process_incoming_outcomes_example :
    let (go_on, received, st) =
      process_incoming (interface ops) parse (handler_of alice 0) (text []) zeros with_alice in
    (go_on ≡ true)
    × (received (display alice) ≡ 1)
    × (((some keep_alive ≡ none) × (st ≡ with_alice))
        ⊎ ((some keep_alive ≡ some keep_alive)
            × (st ≡ (interface ops).handle_keepalive alice with_alice))
        ⊎ ((from : PeerId) × (to : Option PeerId) × (event : PeerEvent) × (some keep_alive
              ≡ some (forward from to event))
            × (st ≡ (interface ops).handle_forward from alice to event with_alice)))
process_incoming_outcomes_example =
    process_incoming_outcomes (interface ops) parse (handler_of alice 0) (text []) zeros with_alice

abbrev connection : Connection Map
connection = record { written = []; received = zeros; state = with_alice }

process_ws_open_example :
    (process_ws ops parse to_string (handler_of alice 0) (outbound keep_alive true ∷ []) connection
      ≡ (
        true,
        after ops parse to_string (handler_of alice 0) (outbound keep_alive true ∷ []) connection,
      ))
    × ((after ops parse to_string
          (handler_of alice 0)
          (outbound keep_alive true ∷ [])
          connection).written
        ≡ codes "{}" ∷ [])
process_ws_open_example =
    process_ws_open ops parse to_string (handler_of alice 0) (outbound keep_alive true ∷ [])
      connection (refl, tt)

process_ws_closed_example :
    let c' =
      (ws_turn ops parse to_string (handler_of alice 0) (inbound (close none)) (
        after ops parse to_string
          (handler_of alice 0)
          (outbound keep_alive true ∷ [])
          connection)).1 in
    (process_ws ops parse to_string
        (handler_of alice 0)
        (outbound keep_alive true ∷ inbound (close none) ∷ inbound_error ∷ [])
        connection
      ≡ (false, record c' { state = remove_peer ops c'.state alice }))
    × (c'.written ≡ codes "{}" ∷ [])
process_ws_closed_example =
    process_ws_closed ops parse to_string (handler_of alice 0) (outbound keep_alive true ∷ [])
      (inbound (close none)) (inbound_error ∷ []) connection (refl, tt) refl

error_closes :
    (process_ws ops parse to_string (handler_of alice 0) (inbound_error ∷ []) connection).0 ≡ false
unfolding process_ws ws_turn
error_closes = refl

process_ws_unregistered_example :
    ops.get alice
      (process_ws ops parse to_string
        (handler_of alice 0)
        (inbound_error ∷ [])
        connection).1.state.peers
    ≡ none
process_ws_unregistered_example =
    process_ws_unregistered ops laws parse to_string (handler_of alice 0) (inbound_error ∷ [])
      connection error_closes

abbrev second : Connection Map
second = record connection {
  state = record start { peers = ops.insert alice (handler_of alice 0) start.peers };
}

alice_taken : is_some (ops.get alice second.state.peers) ≡ true
alice_taken = rw (
  laws.get-insert alice alice (handler_of alice 0) start.peers,
  peer_eq-Equivalence.eq_refl alice,
)

handle_ws_connection_taken_example :
    handle_ws_connection ops parse to_string
      (handler_of alice 1)
      (inbound (text []) ∷ [])
      (some 7)
      second
    ≡ (false, second)
handle_ws_connection_taken_example =
    handle_ws_connection_taken ops laws parse to_string (handler_of alice 1)
      (inbound (text []) ∷ []) (some 7) second alice_taken

handle_ws_connection-CountsPeers_example :
    let r =
      handle_ws_connection ops parse to_string
        (handler_of bob 1)
        (inbound (text []) ∷ inbound (close none) ∷ [])
        (some 7)
        connection in
    Reachable ops r.1.state
    × CountsPeers ops r.1.state
    × ((is_some (ops.get bob connection.state.peers) ≡ true)
        ⊎ (◌≡◌ {A = Option ℕ} (some 7) none)
        ⊎ (r.0 ≡ true)
        ⊎ (ops.get bob r.1.state.peers ≡ none))
handle_ws_connection-CountsPeers_example =
    handle_ws_connection-CountsPeers ops laws parse to_string (handler_of bob 1)
      (inbound (text []) ∷ inbound (close none) ∷ []) (some 7) connection
      (added (handler_of alice 0) (some 7) started)

-- ===== src/Server/Session.antt =====
-- sf-server/src/ws.rs and sf-server/src/state.rs together: a whole connection as a part of a run of
-- the server.
use sf_rs.Prelude.{
  ◌⊎◌, is_some, ℕ, List, [], ◌∷◌, true, false, ◌≡◌, refl, Option, none, some, Outcome, ok, err,
  panic, Totals, if◌then◌else◌, Bool, inl, inr,
}
use sf_rs.Prelude.Maps.{MapOps, MapLaws}
use sf_rs.PeerId.Base.{PeerId, peer_eq}
use sf_rs.Protocol.{PeerRequest}
use sf_rs.Server.Handler.{PeerHandler, ServerError, Message, process_incoming, id}
use sf_rs.Server.State.{AppState, interface, add_peer, handle_keepalive}
use sf_rs.Server.Registry.{CountsPeers, Reachable, added, removed, heard, Reachable-CountsPeers}
use sf_rs.Server.Incoming.{process_incoming_outcomes}
use sf_rs.Server.Ws.{
  handle_ws_connection_unregistered, Turn, outbound, inbound, inbound_error, Connection, write,
  ws_turn, ws_loop, ended, joined, process_ws, handle_ws_connection,
}

module _ {M : Type 0} (ops : MapOps PeerId PeerHandler M) (parse : List ℕ → Option PeerRequest)
    (to_string : PeerRequest → Option (List ℕ)) (h : PeerHandler) where
  process_incoming-Reachable :
      (msg : Message) (received : Totals) (s : AppState M)
      → Reachable ops s
      → let (_, _, s') = process_incoming (interface ops) parse h msg received s in Reachable ops s'
  unfolding handle_keepalive
  process_incoming-Reachable msg received s r =
      let (_, _, cases) = process_incoming_outcomes (interface ops) parse h msg received s in
      elim cases [
        | inl (_, e) ↦ rw e r
        | inr (inl (_, e)) ↦ rw e r
        | inr (inr (from, to, event, _, e)) ↦ rw e (heard from (id h) to event r)
      ]

  write-state :
      (c : Connection M) (sent : Bool) (json : Option (List ℕ))
      → (write ops parse to_string h c sent json).1.state ≡ c.state
  write-state c sent none = refl
  write-state c true (some json) = refl
  write-state c false (some json) = refl

  ws_turn-Reachable :
      (t : Turn) (c : Connection M)
      → Reachable ops c.state
      → Reachable ops (ws_turn ops parse to_string h t c).1.state
  unfolding ws_turn
  ws_turn-Reachable (outbound req sent) c r = rw (write-state c sent (to_string req)) r
  ws_turn-Reachable (inbound msg) c r = process_incoming-Reachable msg c.received c.state r
  ws_turn-Reachable inbound_error c r = r

  both_ways :
      (go_on : Bool) (rest stop : Bool × Connection M)
      → Reachable ops rest.1.state
      → Reachable ops stop.1.state
      → Reachable ops (if go_on then rest else stop).1.state
  both_ways true rest stop r r' = r
  both_ways false rest stop r r' = r'

  ws_loop-Reachable :
      (ts : List Turn) (c : Connection M)
      → Reachable ops c.state
      → Reachable ops (ws_loop ops parse to_string h ts c).1.state
  unfolding ws_loop
  ws_loop-Reachable [] c r = r
  ws_loop-Reachable (t ∷ ts) c r =
      let next = ws_turn-Reachable t c r in
      let rest = ws_loop-Reachable ts (ws_turn ops parse to_string h t c).1 next in
      both_ways (ws_turn ops parse to_string h t c).0 _ _ rest next

  ended-Reachable :
      (r : Bool × Connection M)
      → Reachable ops r.1.state
      → Reachable ops (ended ops parse to_string h r).1.state
  ended-Reachable (true, c) r = r
  ended-Reachable (false, c) r = removed (id h) r

  process_ws-Reachable :
      (ts : List Turn) (c : Connection M)
      → Reachable ops c.state
      → Reachable ops (process_ws ops parse to_string h ts c).1.state
  unfolding process_ws
  process_ws-Reachable ts c r =
      ended-Reachable (ws_loop ops parse to_string h ts c) (ws_loop-Reachable ts c r)

  joined-Reachable :
      (ts : List Turn) (c : Connection M) (joining : AppState M × Outcome ServerError PeerId)
      → Reachable ops joining.0
      → Reachable ops (joined ops parse to_string h ts c joining).1.state
  joined-Reachable ts c (s, ok _) r = process_ws-Reachable ts (record c { state = s }) r
  joined-Reachable ts c (s, err _) r = r
  joined-Reachable ts c (s, panic) r = r

  handle_ws_connection-Reachable :
      (ts : List Turn) (clock : Option ℕ) (c : Connection M)
      → Reachable ops c.state
      → Reachable ops (handle_ws_connection ops parse to_string h ts clock c).1.state
  unfolding handle_ws_connection
  handle_ws_connection-Reachable ts clock c r =
      joined-Reachable ts c (add_peer ops c.state h clock) (added h clock r)

module _ {M : Type 0} (ops : MapOps PeerId PeerHandler M) (laws : MapLaws peer_eq ops)
    (parse : List ℕ → Option PeerRequest) (to_string : PeerRequest → Option (List ℕ)) where
  -- A whole connection, whatever comes over the socket, leads from a state that the server can be in
  -- to another one, in which the gauge is still the number of registered peers. There the peer is
  -- not registered, unless its identifier was registered when the connection began, the clock is
  -- before the Unix epoch, or the connection has not ended.
  pub handle_ws_connection-CountsPeers :
      (h : PeerHandler) (ts : List Turn) (clock : Option ℕ) (c : Connection M)
      → Reachable ops c.state
      → let s = (handle_ws_connection ops parse to_string h ts clock c).1.state in
        Reachable ops s
        × CountsPeers ops s
        × ((is_some (ops.get (id h) c.state.peers) ≡ true)
            ⊎ (clock ≡ none)
            ⊎ ((handle_ws_connection ops parse to_string h ts clock c).0 ≡ true)
            ⊎ (ops.get (id h) s.peers ≡ none))
  handle_ws_connection-CountsPeers h ts clock c r =
      let after = handle_ws_connection-Reachable ops parse to_string h ts clock c r in
      (
        after,
        Reachable-CountsPeers ops laws after,
        handle_ws_connection_unregistered ops laws parse to_string h ts clock c,
      )

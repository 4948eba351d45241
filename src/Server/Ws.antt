-- ===== src/Server/Ws.antt =====
-- sf-server/src/ws.rs: the life of one WebSocket connection. A turn of the `select!` loop is the
-- branch that was ready, with what it received; the turns stand in the order in which they are taken.
use sf_rs.Prelude.{
  Bool-cases, ◌⊎◌, ℕ, List, [], ◌∷◌, ◌++◌, Bool, true, false, ◌&&◌, ◌≡◌, refl, sym, ap, ◌∙◌, arith,
  if◌then◌else◌, Option, none, some, is_some, All, Outcome, ok, err, panic, Totals, inl, inr,
}
use mathlib.Core.List.{append-nil, append_assoc}
use sf_rs.Prelude.Maps.{MapOps, MapLaws}
use sf_rs.PeerId.Base.{PeerId, peer_eq}
use sf_rs.Protocol.{PeerRequest}
use sf_rs.Server.Handler.{
  PeerHandler, ServerError, Message, text, binary, ping, pong, close, process_incoming, id,
}
use sf_rs.Server.State.{AppState, interface, add_peer, remove_peer}
use sf_rs.Server.Registry.{registered, add_peer_outcomes, remove_peer_outcomes}

pub data Turn : Type 0 where
  outbound : PeerRequest → (sent : Bool) → Turn
  inbound : Message → Turn
  inbound_error : Turn

-- What was written to the socket, `sf.peer.messages_received_total`, and the server's state.
pub record Connection (M : Type 0) : Type 0 where
  pub written : List (List ℕ)
  pub received : Totals
  pub state : AppState M

-- `serde_json` is given: `parse` is `from_str::<PeerRequest>`, and `to_string` may fail.
module _ {M : Type 0} (ops : MapOps PeerId PeerHandler M) (parse : List ℕ → Option PeerRequest)
    (to_string : PeerRequest → Option (List ℕ)) (h : PeerHandler) where
  abbrev pub write : Connection M → Bool → Option (List ℕ) → Bool × Connection M
  write c sent none = (false, c)
  write c sent (some json) =
      if sent then (true, record c { written = c.written ++ json ∷ [] }) else (false, c)

  -- A turn: whether the loop goes on, and the connection.
  unfoldable pub ws_turn : Turn → Connection M → Bool × Connection M
  unfolding process_incoming
  ws_turn (outbound req sent) c = write c sent (to_string req)
  ws_turn (inbound msg) c =
      let (go_on, received, state) =
        process_incoming (interface ops) parse h msg c.received c.state in
      (go_on, record c { received = received; state = state })
  ws_turn inbound_error c = (false, c)

  -- The loop: whether it still waits when the turns are over.
  unfoldable pub ws_loop : List Turn → Connection M → Bool × Connection M
  ws_loop [] c = (true, c)
  ws_loop (t ∷ ts) c =
      let (go_on, c') = ws_turn t c in
      let rest = ws_loop ts c' in if go_on then rest else (false, c')

  -- What follows the loop.
  abbrev pub ended : Bool × Connection M → Bool × Connection M
  ended (true, c) = (true, c)
  ended (false, c) = (false, record c { state = remove_peer ops c.state (id h) })

  -- `process_ws`.
  unfoldable pub process_ws : List Turn → Connection M → Bool × Connection M
  unfolding ws_loop
  process_ws ts c = ended (ws_loop ts c)

  abbrev pub joined :
      List Turn → Connection M → AppState M × Outcome ServerError PeerId → Bool × Connection M
  joined ts c (s, ok _) = process_ws ts (record c { state = s })
  joined ts c (s, err _) = (false, record c { state = s })
  joined ts c (s, panic) = (false, record c { state = s })

  -- `handle_ws_connection`.
  unfoldable pub handle_ws_connection : List Turn → Option ℕ → Connection M → Bool × Connection M
  handle_ws_connection ts clock c = joined ts c (add_peer ops c.state h clock)

  -- Whether a turn lets the connection live.
  abbrev pub goes_on : Turn → Bool
  goes_on (outbound req sent) = is_some (to_string req) && sent
  goes_on (inbound (text raw)) = true
  goes_on (inbound (binary b)) = true
  goes_on (inbound (ping d)) = true
  goes_on (inbound (pong d)) = true
  goes_on (inbound (close fr)) = false
  goes_on inbound_error = false

  -- The texts that the turns write.
  abbrev pub shown : Option (List ℕ) → List (List ℕ)
  shown none = []
  shown (some json) = json ∷ []

  abbrev pub texts : List Turn → List (List ℕ)
  texts [] = []
  texts (outbound req sent ∷ ts) = shown (to_string req) ++ texts ts
  texts (inbound m ∷ ts) = texts ts
  texts (inbound_error ∷ ts) = texts ts

  -- The connection after turns that all let it live.
  abbrev pub after : List Turn → Connection M → Connection M
  after [] c = c
  after (t ∷ ts) c = after ts (ws_turn t c).1

  ws_turn-goes_on : (t : Turn) (c : Connection M) → (ws_turn t c).0 ≡ goes_on t
  unfolding ws_turn process_incoming
  ws_turn-goes_on (outbound req sent) c = ground arith
  ws_turn-goes_on (inbound (text raw)) c = refl
  ws_turn-goes_on (inbound (binary b)) c = refl
  ws_turn-goes_on (inbound (ping d)) c = refl
  ws_turn-goes_on (inbound (pong d)) c = refl
  ws_turn-goes_on (inbound (close fr)) c = refl
  ws_turn-goes_on inbound_error c = refl

  write-written :
      (c : Connection M) (sent : Bool) (json : Option (List ℕ))
      → (is_some json && sent) ≡ true
      → (write c sent json).1.written ≡ c.written ++ shown json
  write-written c sent json e = ground arith

  texts-cons : (t : Turn) (ts : List Turn) → texts (t ∷ ts) ≡ texts (t ∷ []) ++ texts ts
  texts-cons (outbound req sent) ts = rw (append-nil (shown (to_string req)))
  texts-cons (inbound m) ts = refl
  texts-cons inbound_error ts = refl

  ws_turn-written :
      (t : Turn) (c : Connection M)
      → goes_on t ≡ true
      → (ws_turn t c).1.written ≡ c.written ++ texts (t ∷ [])
  unfolding ws_turn process_incoming
  ws_turn-written (outbound req sent) c e =
      rw (append-nil (shown (to_string req))) (write-written c sent (to_string req) e)
  ws_turn-written (inbound m) c e = sym (append-nil c.written)
  ws_turn-written inbound_error c e = sym (append-nil c.written)

  write_stop :
      (c : Connection M) (sent : Bool) (json : Option (List ℕ))
      → (is_some json && sent) ≡ false
      → (write c sent json).1.written ≡ c.written
  write_stop c sent json e = ground arith

  ws_turn_stop :
      (t : Turn) (c : Connection M) → goes_on t ≡ false → (ws_turn t c).1.written ≡ c.written
  unfolding ws_turn process_incoming
  ws_turn_stop (outbound req sent) c e = write_stop c sent (to_string req) e
  ws_turn_stop (inbound m) c e = refl
  ws_turn_stop inbound_error c e = refl

  ws_loop_next :
      (t : Turn) (ts : List Turn) (c : Connection M)
      → ws_loop (t ∷ ts) c
        ≡ (if goes_on t then ws_loop ts (ws_turn t c).1 else (false, (ws_turn t c).1))
  unfolding ws_loop
  ws_loop_next t ts c = rw (ws_turn-goes_on t c) refl

  ws_loop-append :
      (before rest : List Turn) (c : Connection M)
      → All (λ t. goes_on t ≡ true) before
      → ws_loop (before ++ rest) c ≡ ws_loop rest (after before c)
  ws_loop-append [] rest c h = refl
  ws_loop-append (t ∷ ts) rest c h =
      rw (ws_loop_next t (ts ++ rest) c, h.0) (ws_loop-append ts rest (ws_turn t c).1 h.1)

  pub after-written :
      (ts : List Turn) (c : Connection M)
      → All (λ t. goes_on t ≡ true) ts
      → (after ts c).written ≡ c.written ++ texts ts
  after-written [] c h = sym (append-nil c.written)
  after-written (t ∷ ts) c h = rw (texts-cons t ts) (
      after-written ts (ws_turn t c).1 h.1
      ∙ ap (λ w. w ++ texts ts) (ws_turn-written t c h.0)
      ∙ append_assoc c.written (texts (t ∷ [])) (texts ts))

  pub ws_loop-All :
      (ts : List Turn) (c : Connection M)
      → All (λ t. goes_on t ≡ true) ts
      → ws_loop ts c ≡ (true, after ts c)
  unfolding ws_loop
  ws_loop-All [] c h = refl
  ws_loop-All (t ∷ ts) c h = rw (ws_turn-goes_on t c, h.0) (ws_loop-All ts (ws_turn t c).1 h.1)

  -- While every turn lets the connection live, `process_ws` goes on waiting, has written the texts
  -- of the outbound requests in their order, and removes nobody itself.
  pub process_ws_open :
      (ts : List Turn) (c : Connection M)
      → All (λ t. goes_on t ≡ true) ts
      → (process_ws ts c ≡ (true, after ts c)) × ((after ts c).written ≡ c.written ++ texts ts)
  unfolding process_ws
  process_ws_open ts c h = (ap ended (ws_loop-All ts c h), after-written ts c h)

  -- The first turn that does not (a write or a serialisation that fails, a receive error, a close
  -- frame) ends the connection, whatever would come after it: all the texts of the turns before it
  -- have been written in their order, and the peer is removed.
  pub process_ws_closed :
      (before : List Turn) (last : Turn) (rest : List Turn) (c : Connection M)
      → All (λ t. goes_on t ≡ true) before
      → goes_on last ≡ false
      → let c' = (ws_turn last (after before c)).1 in
        (process_ws (before ++ last ∷ rest) c
          ≡ (false, record c' { state = remove_peer ops c'.state (id h) }))
        × (c'.written ≡ c.written ++ texts before)
  unfolding process_ws
  process_ws_closed before last rest c go stop = (
    rw (ws_loop-append before (last ∷ rest) c go, ws_loop_next last rest (after before c), stop)
        refl,
    ws_turn_stop last (after before c) stop ∙ after-written before c go,
  )

module _ {M : Type 0} (ops : MapOps PeerId PeerHandler M) (laws : MapLaws peer_eq ops)
    (parse : List ℕ → Option PeerRequest) (to_string : PeerRequest → Option (List ℕ))
    (h : PeerHandler) where
  -- A connection that claims an identifier already registered is dropped: whatever its turns, it
  -- writes nothing and the server's state stays as it was, so the first connection is undisturbed.
  pub handle_ws_connection_taken :
      (ts : List Turn) (clock : Option ℕ) (c : Connection M)
      → is_some (ops.get (id h) c.state.peers) ≡ true
      → handle_ws_connection ops parse to_string h ts clock c ≡ (false, c)
  unfolding handle_ws_connection
  handle_ws_connection_taken ts clock c e = elim (add_peer_outcomes ops laws c.state h clock) [
    | inl (_, f) ↦ rw f
    | inr (inl (fresh, _, _)) ↦ absurd (ground (arith, fresh, e))
    | inr (inr (fresh, _, _)) ↦ absurd (ground (arith, fresh, e))
  ]

  -- When a connection is closed its peer is no longer registered.
  pub process_ws_unregistered :
      (ts : List Turn) (c : Connection M)
      → (process_ws ops parse to_string h ts c).0 ≡ false
      → ops.get (id h) (process_ws ops parse to_string h ts c).1.state.peers ≡ none
  unfolding process_ws
  process_ws_unregistered ts c e = go (ws_loop ops parse to_string h ts c) e
    where
      go :
          (r : Bool × Connection M)
          → (ended ops parse to_string h r).0 ≡ false
          → ops.get (id h) (ended ops parse to_string h r).1.state.peers ≡ none
      go (false, c') e = (remove_peer_outcomes ops laws c'.state (id h) (id h)).0
      go (true, c') e = absurd (ground arith)

  -- A connection leaves its peer unregistered, but for these exceptions.
  pub handle_ws_connection_unregistered :
      (ts : List Turn) (clock : Option ℕ) (c : Connection M)
      → let r = handle_ws_connection ops parse to_string h ts clock c in
        (is_some (ops.get (id h) c.state.peers) ≡ true)
        ⊎ (clock ≡ none)
        ⊎ (r.0 ≡ true)
        ⊎ (ops.get (id h) r.1.state.peers ≡ none)
  unfolding handle_ws_connection
  handle_ws_connection_unregistered ts clock c = elim (add_peer_outcomes ops laws c.state h clock) [
    | inl (taken, _) ↦ inl taken
    | inr (inr (_, late, _)) ↦ inr (inl late)
    | inr (inl (_, _, (from, e))) ↦
        let c' = record c { state = registered ops c.state h from } in
        elim (Bool-cases (process_ws ops parse to_string h ts c').0) [
          | inl waits ↦ inr (inr (inl (rw e waits)))
          | inr over ↦ inr (inr (inr (rw e (process_ws_unregistered ts c' over))))
        ]
  ]

-- ===== src/Server/Registry.antt =====
-- sf-server/src/state.rs: registering and removing peers, and what the gauge `peer_count` says.
use sf_rs.Prelude.{
  ℕ, ◌+◌, ◌++◌, true, false, ◌≡◌, refl, ap, ◌∙◌, arith, if◌then◌else◌, Option, none, some, is_some,
  ok, err, panic, ◌%◌, ◌^◌, Option-cases, inl, inr, ◌⊎◌,
}
use sf_rs.Prelude.Int.{pos, inc, dec}
use sf_rs.Prelude.Maps.{MapOps, MapLaws}
use sf_rs.PeerId.Base.{PeerId, peer_eq, peer_id_size, peer_eq-Equivalence}
use sf_rs.PeerId.Random.{random, get_random_u128, random_total}
use sf_rs.Protocol.{PeerEvent, new_peer}
use sf_rs.Server.Handler.{PeerHandler, peer_already_exists, id}
use sf_rs.Server.State.{
  AppState, new, broadcast_forward_except, broadcast_system_event, add_peer, remove_peer, taken_out,
  register, handle_forward,
}
use sf_rs.Server.Delivery.{
  deliveries, broadcast-deliveries, handle_forward_target, handle_forward_broadcast,
}

module _ {M : Type 0} (ops : MapOps PeerId PeerHandler M) where
  -- The gauge is the number of registered peers.
  abbrev pub CountsPeers : AppState M → Type 0
  CountsPeers s = s.peer_count ≡ pos (ops.len s.peers)

  -- The state after a registration: the peer is in the map, the gauge is one up, and a `NewPeer`
  -- from `from` goes to each peer of the new map, the new one included.
  abbrev pub registered : AppState M → PeerHandler → PeerId → AppState M
  registered s h from =
      let peers = ops.insert (id h) h s.peers in
      record s {
        peers = peers;
        peer_count = inc s.peer_count;
        message_broadcast = s.message_broadcast + 1;
        spawned = s.spawned ++ deliveries from (new_peer (id h)) none (ops.entries peers);
      }

  -- The state after the insertion alone.
  abbrev pub inserted : AppState M → PeerHandler → AppState M
  inserted s h = record s { peers = ops.insert (id h) h s.peers; peer_count = inc s.peer_count }

  -- The server's runs: peers are added, removed, and heard.
  pub data Reachable : AppState M → Type 0 where
    started : Reachable (new ops)
    added :
        {s : AppState M} (h : PeerHandler) (clock : Option ℕ)
        → Reachable s
        → Reachable (add_peer ops s h clock).0
    removed : {s : AppState M} (pid : PeerId) → Reachable s → Reachable (remove_peer ops s pid)
    heard :
        {s : AppState M} (from connection : PeerId) (to : Option PeerId) (event : PeerEvent)
        → Reachable s
        → Reachable (handle_forward ops from connection to event s)

module _ {M : Type 0} (ops : MapOps PeerId PeerHandler M) (laws : MapLaws peer_eq ops) where
  -- `broadcast_system_event` does not fail while the clock is not before the Unix epoch.
  broadcast_system_event_total :
      (s : AppState M) (seed : ℕ) (event : PeerEvent)
      → (from : PeerId) × (broadcast_system_event ops s (some seed) event
          ≡ (broadcast_forward_except ops s from event none, ok tt))
  unfolding broadcast_system_event get_random_u128
  broadcast_system_event_total s seed event =
      let (from, e, _, _) =
        random_total peer_id_size (seed % 2 ^ 128) (omega arith) (omega arith) in
      (from, rw e refl)

  -- What `add_peer` does after its test succeeds while the clock is not before the Unix epoch.
  pub register_lem :
      (s : AppState M) (h : PeerHandler) (seed : ℕ)
      → (from : PeerId) × (register ops s h (some seed) ≡ (registered ops s h from, ok (id h)))
  unfolding register
  register_lem s h seed =
      let s1 : AppState M = record s {
        peers = ops.insert (id h) h s.peers;
        peer_count = inc s.peer_count;
      } in
      let (from, f) = broadcast_system_event_total s1 seed (new_peer (id h)) in
      (from, rw (f, broadcast-deliveries ops laws s1 from (new_peer (id h)) none) refl)

  -- `add_peer` while the clock is not before the Unix epoch.
  pub add_peer_sure :
      (s : AppState M) (h : PeerHandler) (seed : ℕ)
      → ((is_some (ops.get (id h) s.peers) ≡ true)
          × (add_peer ops s h (some seed) ≡ (s, err (peer_already_exists (id h)))))
        ⊎ ((ops.get (id h) s.peers ≡ none)
            × ((from : PeerId) × (add_peer ops s h (some seed)
                  ≡ (registered ops s h from, ok (id h)))))
  unfolding add_peer
  add_peer_sure s h seed = elim (Option-cases (ops.get (id h) s.peers)) [
    | inl e ↦ let (from, f) = register_lem s h seed in inr (e, (from, rw (e, f) refl))
    | inr (other, e) ↦ inl (rw e refl, rw e refl)
  ]

  -- `add_peer` refuses an identifier that is registered, and changes nothing then. Otherwise the
  -- peer is registered and the gauge goes up by one. If the clock is not before the Unix epoch the
  -- call succeeds, and one broadcast from a random sender tells each registered peer, the new one
  -- included. If it is, `add_peer` panics when the peer is registered already, and nobody is told.
  pub add_peer_outcomes :
      (s : AppState M) (h : PeerHandler) (clock : Option ℕ)
      → ((is_some (ops.get (id h) s.peers) ≡ true)
          × (add_peer ops s h clock ≡ (s, err (peer_already_exists (id h)))))
        ⊎ ((ops.get (id h) s.peers ≡ none)
            × (is_some clock ≡ true)
            × ((from : PeerId) × (add_peer ops s h clock ≡ (registered ops s h from, ok (id h)))))
        ⊎ ((ops.get (id h) s.peers ≡ none)
            × (clock ≡ none)
            × (add_peer ops s h clock ≡ (inserted ops s h, panic)))
  unfolding add_peer register broadcast_system_event get_random_u128 random
  add_peer_outcomes s h (some seed) = elim (add_peer_sure s h seed) [
    | inl refused ↦ inl refused
    | inr (free, sure) ↦ inr (inl (free, refl, sure))
  ]
  add_peer_outcomes s h none = elim (Option-cases (ops.get (id h) s.peers)) [
    | inl e ↦ inr (inr (e, refl, rw e refl))
    | inr (other, e) ↦ inl (rw e refl, rw e refl)
  ]

  taken_out_lem :
      (s : AppState M) (found : Option PeerHandler) (peers : M)
      → taken_out ops s (found, peers) ≡ record s {
        peers = peers;
        peer_count = if is_some found then dec s.peer_count else s.peer_count;
      }
  taken_out_lem s none peers = refl
  taken_out_lem s (some h) peers = refl

  pub remove_peer_lem :
      (s : AppState M) (pid : PeerId)
      → remove_peer ops s pid ≡ record s {
        peers = (ops.remove pid s.peers).1;
        peer_count = if is_some (ops.get pid s.peers) then dec s.peer_count else s.peer_count;
      }
  unfolding remove_peer
  remove_peer_lem s pid =
      let peers = (ops.remove pid s.peers).1 in
      taken_out_lem s (ops.remove pid s.peers).0 peers
      ∙ ap
          (λ (o : Option PeerHandler). record s {
            peers = peers;
            peer_count = if is_some o then dec s.peer_count else s.peer_count;
          })
          (laws.removed pid s.peers)

  -- `remove_peer` leaves the peer unregistered and every other peer as it was, sends nothing, and
  -- takes one off the gauge exactly when the peer was registered; so a second removal of the same
  -- peer leaves the gauge alone.
  pub remove_peer_outcomes :
      (s : AppState M) (pid other : PeerId)
      → (ops.get pid (remove_peer ops s pid).peers ≡ none)
        × (peer_eq pid other ≡ false
            → ops.get other (remove_peer ops s pid).peers ≡ ops.get other s.peers)
        × ((remove_peer ops s pid).spawned ≡ s.spawned)
        × ((remove_peer ops s pid).peer_count
            ≡ (if is_some (ops.get pid s.peers) then dec s.peer_count else s.peer_count))
        × ((remove_peer ops (remove_peer ops s pid) pid).peer_count
            ≡ (remove_peer ops s pid).peer_count)
  remove_peer_outcomes s pid other =
      let gone : ops.get pid (remove_peer ops s pid).peers ≡ none =
        rw (
          remove_peer_lem s pid,
          laws.get-remove pid pid s.peers,
          peer_eq-Equivalence.eq_refl pid,
        ) in
      (
        gone,
        λ differ. rw (remove_peer_lem s pid, laws.get-remove other pid s.peers, differ),
        rw (remove_peer_lem s pid),
        rw (remove_peer_lem s pid),
        rw (remove_peer_lem (remove_peer ops s pid) pid, gone),
      )

  add_peer-CountsPeers :
      (s : AppState M) (h : PeerHandler) (clock : Option ℕ)
      → CountsPeers ops s
      → CountsPeers ops (add_peer ops s h clock).0
  unfolding inc
  add_peer-CountsPeers s h clock counted = elim (add_peer_outcomes s h clock) [
    | inl (_, e) ↦ rw e counted
    | inr (inl (fresh, _, (from, e))) ↦
        rw (e, laws.len-insert (id h) h s.peers, fresh, counted) (ground arith)
    | inr (inr (fresh, _, e)) ↦
        rw (e, laws.len-insert (id h) h s.peers, fresh, counted) (ground arith)
  ]

  remove_peer-CountsPeers :
      (s : AppState M) (pid : PeerId) → CountsPeers ops s → CountsPeers ops (remove_peer ops s pid)
  unfolding dec
  remove_peer-CountsPeers s pid counted =
      rw (remove_peer_lem s pid, counted)
        (elim (Option-cases (ops.get pid s.peers)) [
          | inl e ↦ rw e (ap pos (rw e at (laws.len-remove pid s.peers)))
          | inr (h, e) ↦ rw (rw e at (laws.len-remove pid s.peers), e)
        ])

  handle_forward-CountsPeers :
      (s : AppState M) (from connection : PeerId) (to : Option PeerId) (event : PeerEvent)
      → CountsPeers ops s
      → CountsPeers ops (handle_forward ops from connection to event s)
  handle_forward-CountsPeers s from connection none event counted =
      rw (handle_forward_broadcast ops laws s from connection event) counted
  handle_forward-CountsPeers s from connection (some to) event counted =
      let (_, _, _, peers, count) = handle_forward_target ops laws s from connection to event in
      rw (peers, count) counted

  -- In every run in which registrations are not interleaved the gauge `peer_count` is the number
  -- of registered peers; so it never goes below zero.
  pub Reachable-CountsPeers : {s : AppState M} → Reachable ops s → CountsPeers ops s
  unfolding new
  Reachable-CountsPeers started = rw laws.len-empty
  Reachable-CountsPeers (added {s} h clock r) =
      add_peer-CountsPeers s h clock (Reachable-CountsPeers r)
  Reachable-CountsPeers (removed {s} pid r) =
      remove_peer-CountsPeers s pid (Reachable-CountsPeers r)
  Reachable-CountsPeers (heard {s} from connection to event r) =
      handle_forward-CountsPeers s from connection to event (Reachable-CountsPeers r)

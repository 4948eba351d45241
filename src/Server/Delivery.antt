-- ===== src/Server/Delivery.antt =====
-- sf-server/src/state.rs: who is sent what by `handle_forward` and the broadcasts.
use sf_rs.Prelude.{
  ◌+◌, List, [], ◌∷◌, ◌++◌, ◌≡◌, refl, sym, ap, ◌∙◌, if◌then◌else◌, true, false, map, Option, none,
  some, All, bump_self, Option-cases, Bool-cases, inl, inr, ◌⊎◌,
}
use mathlib.Core.List.{append-nil, append_assoc}
use sf_rs.Prelude.Maps.{MapOps, MapLaws, lookup_by, distinct-lookup}
use sf_rs.PeerId.Base.{PeerId, peer_eq, peer_eq-Equivalence}
use sf_rs.PeerId.Text.{display}
use sf_rs.Protocol.{PeerEvent, forward}
use sf_rs.Server.Handler.{PeerHandler}
use sf_rs.Server.State.{
  Task, AppState, is_excluded, keys, send_to_peer, send_forward, forward_single, forward_to_all,
  broadcast_forward_except, handle_forward, spawn_for, forward_single,
}

-- The task that carries an event to a registered peer.
abbrev pub delivery : PeerId → PeerEvent → PeerId × PeerHandler → Task
delivery from event (pid, handler) = record {
  handler = handler;
  payload = forward from (some pid) event;
}

-- The entries that a broadcast is for: all of them, or all but those of one identifier.
abbrev without : PeerId → List (PeerId × PeerHandler) → List (PeerId × PeerHandler)
without pid [] = []
without pid (e ∷ es) = let rest = without pid es in if peer_eq pid e.0 then rest else e ∷ rest

abbrev pub recipients : Option PeerId → List (PeerId × PeerHandler) → List (PeerId × PeerHandler)
recipients none es = es
recipients (some pid) es = without pid es

-- One delivery for each recipient, in the order of the entries.
abbrev pub deliveries : PeerId → PeerEvent → Option PeerId → List (PeerId × PeerHandler) → List Task
deliveries from event exclude es = map (delivery from event) (recipients exclude es)

deliveries_none :
    (from : PeerId) (event : PeerEvent) (exclude : Option PeerId)
    → deliveries from event exclude [] ≡ []
deliveries_none from event none = refl
deliveries_none from event (some pid) = refl

pub deliveries_skip :
    (from : PeerId) (event : PeerEvent) (exclude : Option PeerId) (e : PeerId × PeerHandler)
    (es : List (PeerId × PeerHandler))
    → is_excluded exclude e.0 ≡ true
    → deliveries from event exclude (e ∷ es) ≡ deliveries from event exclude es
deliveries_skip from event none e es h = cc h
deliveries_skip from event (some pid) e es h = rw h refl

pub deliveries_keep :
    (from : PeerId) (event : PeerEvent) (exclude : Option PeerId) (e : PeerId × PeerHandler)
    (es : List (PeerId × PeerHandler))
    → is_excluded exclude e.0 ≡ false
    → deliveries from event exclude (e ∷ es)
      ≡ delivery from event e ∷ deliveries from event exclude es
deliveries_keep from event none e es h = refl
deliveries_keep from event (some pid) e es h = rw h refl

module _ {M : Type 0} (ops : MapOps PeerId PeerHandler M) where
  abbrev Registered : AppState M → List (PeerId × PeerHandler) → Type 0
  Registered s es = All (λ e. ops.get e.0 s.peers ≡ some e.1) es

  forward_to_all_next :
      (s : AppState M) (from : PeerId) (event : PeerEvent) (exclude : Option PeerId) (pid : PeerId)
      (ids : List PeerId)
      → forward_to_all ops s from event exclude (pid ∷ ids)
        ≡ forward_to_all ops
            (if is_excluded exclude pid then s else send_forward ops s from pid event)
            from
            event
            exclude
            ids
  unfolding forward_to_all
  forward_to_all_next s from event exclude pid ids = refl

  forward_to_all_end :
      (s : AppState M) (from : PeerId) (event : PeerEvent) (exclude : Option PeerId)
      → forward_to_all ops s from event exclude [] ≡ s
  unfolding forward_to_all
  forward_to_all_end s from event exclude = refl

  -- To a registered peer one delivery is started.
  pub send_forward_found :
      (s : AppState M) (from to : PeerId) (event : PeerEvent) (h : PeerHandler)
      → ops.get to s.peers ≡ some h
      → send_forward ops s from to event
        ≡ record s { spawned = s.spawned ++ delivery from event (to, h) ∷ [] }
  unfolding send_forward send_to_peer
  send_forward_found s from to event h e =
      ap (λ o. spawn_for ops s o (forward from (some to) event)) e

  -- To a peer that is not registered nothing is.
  send_forward_absent :
      (s : AppState M) (from to : PeerId) (event : PeerEvent)
      → ops.get to s.peers ≡ none
      → send_forward ops s from to event ≡ s
  unfolding send_forward send_to_peer
  send_forward_absent s from to event e =
      ap (λ o. spawn_for ops s o (forward from (some to) event)) e

  forward_to_all-deliveries :
      (s : AppState M) (from : PeerId) (event : PeerEvent) (exclude : Option PeerId)
      (es : List (PeerId × PeerHandler))
      → Registered s es
      → forward_to_all ops s from event exclude (keys es)
        ≡ record s { spawned = s.spawned ++ deliveries from event exclude es }
  forward_to_all-deliveries s from event exclude [] h =
      forward_to_all_end s from event exclude
      ∙ ap (λ (ts : List Task). record s { spawned = ts })
          (sym (append-nil s.spawned)
            ∙ ap (λ ts. s.spawned ++ ts) (sym (deliveries_none from event exclude)))
  forward_to_all-deliveries s from event exclude ((pid, handler) ∷ es) h =
      elim (Bool-cases (is_excluded exclude pid)) [
        | inl skipped ↦
            rw
              (
                forward_to_all_next s from event exclude pid (keys es),
                skipped,
                deliveries_skip from event exclude (pid, handler) es skipped,
              )
              (forward_to_all-deliveries s from event exclude es h.1)
        | inr kept ↦
            let s' : AppState M = record s {
              spawned = s.spawned ++ delivery from event (pid, handler) ∷ [];
            } in
            rw
              (
                forward_to_all_next s from event exclude pid (keys es),
                kept,
                send_forward_found s from pid event handler h.0,
                deliveries_keep from event exclude (pid, handler) es kept,
              )
              (forward_to_all-deliveries s' from event exclude es h.1
                ∙ ap (λ (ts : List Task). record s { spawned = ts })
                    (append_assoc s.spawned (delivery from event (pid, handler) ∷ [])
                      (deliveries from event exclude es)))
      ]

module _ {M : Type 0} (ops : MapOps PeerId PeerHandler M) (laws : MapLaws peer_eq ops) where
  entries-Registered : (s : AppState M) → Registered ops s (ops.entries s.peers)
  entries-Registered s =
      found (ops.entries s.peers)
        (distinct-lookup peer_eq peer_eq-Equivalence (ops.entries s.peers) (laws.distinct s.peers))
    where
      found :
          (es : List (PeerId × PeerHandler))
          → All (λ e. lookup_by peer_eq e.0 (ops.entries s.peers) ≡ some e.1) es
          → Registered ops s es
      found [] h = tt
      found (e ∷ es) h = (sym (laws.get-entries e.0 s.peers) ∙ h.0, found es h.1)

  -- A broadcast starts exactly one delivery to each registered peer that is not excluded, each to
  -- the handler registered under that id and addressed to it, and to nobody else; it counts as one
  -- broadcast, and changes nothing else.
  pub broadcast-deliveries :
      (s : AppState M) (from : PeerId) (event : PeerEvent) (exclude : Option PeerId)
      → broadcast_forward_except ops s from event exclude ≡ record s {
        message_broadcast = s.message_broadcast + 1;
        spawned = s.spawned ++ deliveries from event exclude (ops.entries s.peers);
      }
  unfolding broadcast_forward_except
  broadcast-deliveries s from event exclude = rw (
      forward_to_all-deliveries ops s from event exclude (ops.entries s.peers)
        (entries-Registered s))

  -- A forward to a target reaches that peer alone: one delivery if it is registered, none if not,
  -- with the sender that the request claims. It counts as forwarded either way.
  pub handle_forward_target :
      (s : AppState M) (from connection target : PeerId) (event : PeerEvent)
      → let s' = handle_forward ops from connection (some target) event s in
        (((h : PeerHandler) × (ops.get target s.peers ≡ some h)
            × (s'.spawned ≡ s.spawned ++ delivery from event (target, h) ∷ []))
          ⊎ ((ops.get target s.peers ≡ none) × (s'.spawned ≡ s.spawned)))
        × (s'.message_forwarded (display target) ≡ s.message_forwarded (display target) + 1)
        × (s'.message_broadcast ≡ s.message_broadcast)
        × (s'.peers ≡ s.peers)
        × (s'.peer_count ≡ s.peer_count)
  unfolding handle_forward forward_single
  handle_forward_target s from connection target event =
      elim (Option-cases (ops.get target s.peers)) [
        | inl e ↦
            let same : send_forward ops s from target event ≡ s =
              send_forward_absent ops s from target event e in
            rw same
              (inr (e, refl), bump_self (display target) s.message_forwarded, refl, refl, refl)
        | inr (h, e) ↦
            rw (send_forward_found ops s from target event h e)
              (inl (h, e, refl), bump_self (display target) s.message_forwarded, refl, refl, refl)
      ]

  -- A forward with no target is a broadcast from the connection, whoever the request claims to come
  -- from, and the connection's own peer is not left out.
  pub handle_forward_broadcast :
      (s : AppState M) (from connection : PeerId) (event : PeerEvent)
      → handle_forward ops from connection none event s ≡ record s {
        message_broadcast = s.message_broadcast + 1;
        spawned = s.spawned ++ deliveries connection event none (ops.entries s.peers);
      }
  unfolding handle_forward
  handle_forward_broadcast s from connection event = broadcast-deliveries s connection event none

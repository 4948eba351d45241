-- ===== src/Server/Refinement.antt =====
-- sf-server/src/state.rs does what the specification in Spec allows.
use sf_rs.Prelude.{
  ℕ, List, [], ◌∷◌, ◌++◌, true, ◌≡◌, refl, sym, ap, ap₂, ◌∙◌, arith, if◌then◌else◌, Option, none,
  some, inl, inr, Bool-cases,
}
use mathlib.Core.Path.{fun_ext}
use mathlib.Core.List.{append-nil, append_assoc}
use sf_rs.Prelude.Maps.{MapOps, MapLaws, DistinctKeys, lookup_by, lookup_by-congr}
use sf_rs.PeerId.Base.{PeerId, peer_eq, peer_eq-Equivalence}
use sf_rs.Protocol.{PeerEvent, PeerRequest, keep_alive, forward, new_peer}
use sf_rs.Server.Handler.{PeerHandler, id}
use sf_rs.Server.State.{AppState, Task, is_excluded, add_peer, remove_peer, handle_forward}
use sf_rs.Server.Delivery.{
  delivery, deliveries, deliveries_skip, deliveries_keep, handle_forward_target,
  handle_forward_broadcast,
}
use sf_rs.Server.Registry.{registered, add_peer_sure, remove_peer_lem}
use sf_rs.Server.Spec.{
  Mail, Network, told, join, leave, tell_all, tell, Request, register_peer, deregister, hear, Step,
  refused, joined, left, sent, sent_all,
}

-- What a task brings to `pid`.
abbrev addressed : PeerId → PeerHandler → PeerRequest → List Mail
addressed pid h keep_alive = []
addressed pid h (forward from none event) = []
addressed pid h (forward from (some to) event) =
    if peer_eq to pid then record { handler = h; from = from; event = event } ∷ [] else []

abbrev pub inbox_of : PeerId → List Task → List Mail
inbox_of pid [] = []
inbox_of pid (t ∷ ts) = addressed pid t.handler t.payload ++ inbox_of pid ts

inbox_of-append :
    (pid : PeerId) (ts us : List Task)
    → inbox_of pid (ts ++ us) ≡ inbox_of pid ts ++ inbox_of pid us
inbox_of-append pid [] us = refl
inbox_of-append pid (t ∷ ts) us =
    ap (λ l. addressed pid t.handler t.payload ++ l) (inbox_of-append pid ts us)
    ∙ sym (append_assoc (addressed pid t.handler t.payload) (inbox_of pid ts) (inbox_of pid us))

is_excluded-congr :
    (exclude : Option PeerId) (k pid : PeerId)
    → peer_eq k pid ≡ true
    → is_excluded exclude k ≡ is_excluded exclude pid
is_excluded-congr none k pid e = refl
is_excluded-congr (some ex) k pid e = ground (
  arith,
  peer_eq-Equivalence.eq_trans ex k pid,
  peer_eq-Equivalence.eq_trans ex pid k,
  peer_eq-Equivalence.eq_sym k pid,
)

-- In whatever order the entries come, each peer is brought what the specification tells it.
inbox_of-deliveries :
    (from : PeerId) (event : PeerEvent) (exclude : Option PeerId) (pid : PeerId)
    (es : List (PeerId × PeerHandler))
    → DistinctKeys peer_eq es
    → inbox_of pid (deliveries from event exclude es)
      ≡ told from event exclude pid (lookup_by peer_eq pid es)
unfolding lookup_by
inbox_of-deliveries from event none pid [] d = refl
inbox_of-deliveries from event (some ex) pid [] d = refl
inbox_of-deliveries from event exclude pid ((k, h) ∷ es) d =
    let ih = inbox_of-deliveries from event exclude pid es d.1 in
    elim (Bool-cases (peer_eq k pid)) [
      | inl here ↦
          let absent : lookup_by peer_eq pid es ≡ none =
            sym (lookup_by-congr peer_eq peer_eq-Equivalence k pid es here) ∙ d.0 in
          elim (Bool-cases (is_excluded exclude k)) [
            | inl out ↦
                rw (deliveries_skip from event exclude (k, h) es out)
                  (ground (arith, here, out, is_excluded-congr exclude k pid here, rw absent at ih))
            | inr kept ↦
                rw (deliveries_keep from event exclude (k, h) es kept) (
                  ground (arith, here, kept, is_excluded-congr exclude k pid here, rw absent at ih))
          ]
      | inr elsewhere ↦ elim (Bool-cases (is_excluded exclude k)) [
        | inl out ↦
            rw (deliveries_skip from event exclude (k, h) es out) (ground (arith, elsewhere, ih))
        | inr kept ↦
            rw (deliveries_keep from event exclude (k, h) es kept) (ground (arith, elsewhere, ih))
      ]
    ]

module _ {M : Type 0} (ops : MapOps PeerId PeerHandler M) where
  -- What the specification sees of the server: neither the map's order nor its tasks, nor counters.
  abbrev pub view : AppState M → Network
  view s = record { registered = λ pid. ops.get pid s.peers; inbox = λ pid. inbox_of pid s.spawned }

  -- The operation that serves a request; `seed` is the time since the Unix epoch.
  unfoldable pub serve : Request → ℕ → AppState M → AppState M
  serve (register_peer h) seed s = (add_peer ops s h (some seed)).0
  serve (deregister pid) seed s = remove_peer ops s pid
  serve (hear from connection to event) seed s = handle_forward ops from connection to event s

module _ {M : Type 0} (ops : MapOps PeerId PeerHandler M) (laws : MapLaws peer_eq ops) where
  view_eq :
      (peers : M) (spawned : List Task) (n : Network)
      → ((pid : PeerId) → ops.get pid peers ≡ n.registered pid)
      → ((pid : PeerId) → inbox_of pid spawned ≡ n.inbox pid)
      → record { registered = λ pid. ops.get pid peers; inbox = λ pid. inbox_of pid spawned } ≡ n
  view_eq peers spawned n same_peers same_inbox =
      ap₂
        (λ (r : PeerId → Option PeerHandler) (i : PeerId → List Mail). record {
          registered = r;
          inbox = i;
        })
        (fun_ext same_peers) (fun_ext same_inbox)

  delivered :
      (from : PeerId) (event : PeerEvent) (exclude : Option PeerId) (ts : List Task) (m : M)
      (pid : PeerId)
      → inbox_of pid (ts ++ deliveries from event exclude (ops.entries m))
        ≡ inbox_of pid ts ++ told from event exclude pid (ops.get pid m)
  delivered from event exclude ts m pid =
      inbox_of-append pid ts (deliveries from event exclude (ops.entries m))
      ∙ ap (λ l. inbox_of pid ts ++ l)
          (inbox_of-deliveries from event exclude pid (ops.entries m) (laws.distinct m)
            ∙ ap (told from event exclude pid) (laws.get-entries pid m))

  get-congr : (j k : PeerId) (m : M) → peer_eq j k ≡ true → ops.get j m ≡ ops.get k m
  get-congr j k m e =
      sym (laws.get-entries j m)
      ∙ lookup_by-congr peer_eq peer_eq-Equivalence j k (ops.entries m) e
      ∙ laws.get-entries k m

  register_refines :
      (h : PeerHandler) (seed : ℕ) (s : AppState M)
      → Step (register_peer h) (view ops s) (view ops (add_peer ops s h (some seed)).0)
  register_refines h seed s = elim (add_peer_sure ops laws s h seed) [
    | inl (taken, e) ↦ rw e (refused h taken)
    | inr (free, (from, e)) ↦ rw e (
        joined h from free (
          view_eq (registered ops s h from).peers (registered ops s h from).spawned
            (tell_all from (new_peer (id h)) none (join h (view ops s)))
            (λ pid. laws.get-insert pid (id h) h s.peers)
            (λ pid.
              delivered from (new_peer (id h)) none s.spawned (ops.insert (id h) h s.peers) pid
              ∙ ap (λ found. inbox_of pid s.spawned ++ told from (new_peer (id h)) none pid found)
                  (laws.get-insert pid (id h) h s.peers))))
  ]

  deregister_refines :
      (pid : PeerId) (s : AppState M)
      → Step (deregister pid) (view ops s) (view ops (remove_peer ops s pid))
  deregister_refines pid s = rw (remove_peer_lem ops laws s pid) (
      left pid (
        view_eq (ops.remove pid s.peers).1 s.spawned (leave pid (view ops s))
          (λ other. laws.get-remove other pid s.peers) (λ other. refl)))

  -- A delivery to a target reaches the peers of that identifier.
  delivery-told :
      (from to pid : PeerId) (event : PeerEvent) (h : PeerHandler) (m : M)
      → ops.get to m ≡ some h
      → inbox_of pid (delivery from event (to, h) ∷ [])
        ≡ (if peer_eq to pid then told from event none pid (ops.get pid m) else [])
  delivery-told from to pid event h m e = elim (Bool-cases (peer_eq to pid)) [
    | inl here ↦ ground (arith, here, sym (get-congr to pid m here) ∙ e)
    | inr elsewhere ↦ rw elsewhere refl
  ]

  absent-told :
      (from to pid : PeerId) (event : PeerEvent) (m : M)
      → ops.get to m ≡ none
      → (if peer_eq to pid then told from event none pid (ops.get pid m) else []) ≡ []
  absent-told from to pid event m e = elim (Bool-cases (peer_eq to pid)) [
    | inl here ↦ rw (here, sym (get-congr to pid m here) ∙ e) refl
    | inr elsewhere ↦ rw elsewhere refl
  ]

  target_refines :
      (from connection to : PeerId) (event : PeerEvent) (s : AppState M)
      → Step
          (hear from connection (some to) event)
          (view ops s)
          (view ops (handle_forward ops from connection (some to) event s))
  target_refines from connection to event s =
      let s' = handle_forward ops from connection (some to) event s in
      let (spawned, _, _, peers, _) = handle_forward_target ops laws s from connection to event in
      sent from connection to event (
        view_eq s'.peers s'.spawned (tell from to event (view ops s))
          (λ pid. ap (ops.get pid) peers)
          (λ pid. elim spawned [
            | inl (h, found, e) ↦
                ap (inbox_of pid) e
                ∙ inbox_of-append pid s.spawned (delivery from event (to, h) ∷ [])
                ∙ ap (λ l. inbox_of pid s.spawned ++ l)
                    (delivery-told from to pid event h s.peers found)
            | inr (absent, e) ↦
                ap (inbox_of pid) e
                ∙ sym (append-nil (inbox_of pid s.spawned))
                ∙ ap (λ l. inbox_of pid s.spawned ++ l)
                    (sym (absent-told from to pid event s.peers absent))
          ]))

  all_refines :
      (from connection : PeerId) (event : PeerEvent) (s : AppState M)
      → Step
          (hear from connection none event)
          (view ops s)
          (view ops (handle_forward ops from connection none event s))
  all_refines from connection event s =
      rw (handle_forward_broadcast ops laws s from connection event) (
        sent_all from connection event (
          view_eq s.peers (s.spawned ++ deliveries connection event none (ops.entries s.peers))
            (tell_all connection event none (view ops s)) (λ pid. refl)
            (delivered connection event none s.spawned s.peers)))

  -- The server implements the specification: whatever request it serves, over whatever hash map and
  -- in whatever order the map is walked, what is seen of it afterwards is a step that the
  -- specification allows, as long as the clock is not before the Unix epoch. So for each peer one task is started for each event that is for it, in the
  -- order in which the events are heard, and no other.
  pub serve-Step :
      (request : Request) (seed : ℕ) (s : AppState M)
      → Step request (view ops s) (view ops (serve ops request seed s))
  unfolding serve
  serve-Step (register_peer h) seed s = register_refines h seed s
  serve-Step (deregister pid) seed s = deregister_refines pid s
  serve-Step (hear from connection none event) seed s = all_refines from connection event s
  serve-Step (hear from connection (some to) event) seed s =
      target_refines from connection to event s

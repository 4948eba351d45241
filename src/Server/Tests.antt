-- ===== src/Server/Tests.antt =====
-- sf-server: the theorems at a registry that is an association list.
use sf_rs.Prelude.{
  panic, Option, ℕ, zero, ◌+◌, [], ◌∷◌, ◌++◌, true, false, ◌≡◌, ◌⊎◌, refl, arith, none, some,
  is_some, ok, err, codes, replicate, if◌then◌else◌, length-replicate, All-replicate, IsByte,
}
use sf_rs.Prelude.Int.{pos, dec}
use sf_rs.Prelude.Maps.{MapOps, MapLaws, AssocMap, assoc_map, assoc_map-MapLaws, lookup_by}
use sf_rs.PeerId.Base.{PeerId, peer_eq, peer_eq-Equivalence, peer_id_size, IsValid}
use sf_rs.PeerId.Text.{display}
use sf_rs.Protocol.{PeerEvent, message}
use sf_rs.Server.Handler.{PeerHandler, peer_already_exists}
use sf_rs.Server.State.{
  AppState, new, add_peer, remove_peer, handle_forward, broadcast_forward_except,
}
use sf_rs.Server.Delivery.{
  delivery, deliveries, broadcast-deliveries, handle_forward_target, handle_forward_broadcast,
}
use sf_rs.Server.Registry.{
  CountsPeers, registered, inserted, started, added, add_peer_outcomes, remove_peer_outcomes,
  Reachable-CountsPeers,
}
use sf_rs.Server.Race.{AddSteps, add_peer_race}
use sf_rs.Server.Spec.{Step, hear}
use sf_rs.Server.Refinement.{view, serve, serve-Step}

abbrev pub Map : Type 0
Map = AssocMap PeerId PeerHandler peer_eq

abbrev pub ops : MapOps PeerId PeerHandler Map
ops = assoc_map PeerId PeerHandler peer_eq peer_eq-Equivalence

abbrev pub laws : MapLaws peer_eq ops
laws = assoc_map-MapLaws PeerId PeerHandler peer_eq peer_eq-Equivalence

abbrev pub alice : PeerId
alice = record { size = 1; bytes = 1 ∷ replicate 31 0 }

abbrev pub bob : PeerId
bob = record { size = 1; bytes = 2 ∷ replicate 31 0 }

pub alice-IsValid : IsValid peer_id_size alice
alice-IsValid = record {
  array = omega (arith, length-replicate 31 zero);
  within = omega arith;
  size_byte = omega arith;
  all_bytes = (omega arith, All-replicate IsByte 31 0 (omega arith));
}

abbrev pub handler_of : PeerId → ℕ → PeerHandler
handler_of pid sender = record {
  meta = record { origin = codes "127.0.0.1:1"; peer_id = pid };
  sender = sender;
}

abbrev pub start : AppState Map
start = new ops

abbrev pub with_alice : AppState Map
with_alice = (add_peer ops start (handler_of alice 0) (some 7)).0

abbrev hello : PeerEvent
hello = message alice (codes "hello")

broadcast-deliveries_example :
    broadcast_forward_except ops with_alice bob hello none ≡ record with_alice {
      message_broadcast = with_alice.message_broadcast + 1;
      spawned = with_alice.spawned ++ deliveries bob hello none (ops.entries with_alice.peers);
    }
broadcast-deliveries_example = broadcast-deliveries ops laws with_alice bob hello none

handle_forward_broadcast_example :
    handle_forward ops alice bob none hello with_alice ≡ record with_alice {
      message_broadcast = with_alice.message_broadcast + 1;
      spawned = with_alice.spawned ++ deliveries bob hello none (ops.entries with_alice.peers);
    }
handle_forward_broadcast_example = handle_forward_broadcast ops laws with_alice alice bob hello

handle_forward_target_example :
    let s' = handle_forward ops alice bob (some alice) hello with_alice in
    (((h : PeerHandler) × (ops.get alice with_alice.peers ≡ some h)
        × (s'.spawned ≡ with_alice.spawned ++ delivery alice hello (alice, h) ∷ []))
      ⊎ ((ops.get alice with_alice.peers ≡ none) × (s'.spawned ≡ with_alice.spawned)))
    × (s'.message_forwarded (display alice) ≡ with_alice.message_forwarded (display alice) + 1)
    × (s'.message_broadcast ≡ with_alice.message_broadcast)
    × (s'.peers ≡ with_alice.peers)
    × (s'.peer_count ≡ with_alice.peer_count)
handle_forward_target_example = handle_forward_target ops laws with_alice alice bob alice hello

add_peer_outcomes_example :
    ((is_some (ops.get bob with_alice.peers) ≡ true)
      × (add_peer ops with_alice (handler_of bob 1) (some 7)
          ≡ (with_alice, err (peer_already_exists bob))))
    ⊎ ((ops.get bob with_alice.peers ≡ none)
        × (is_some {A = ℕ} (some 7) ≡ true)
        × ((from : PeerId) × (add_peer ops with_alice (handler_of bob 1) (some 7)
              ≡ (registered ops with_alice (handler_of bob 1) from, ok bob))))
    ⊎ ((ops.get bob with_alice.peers ≡ none)
        × (◌≡◌ {A = Option ℕ} (some 7) none)
        × (add_peer ops with_alice (handler_of bob 1) (some 7)
            ≡ (inserted ops with_alice (handler_of bob 1), panic)))
add_peer_outcomes_example = add_peer_outcomes ops laws with_alice (handler_of bob 1) (some 7)

remove_peer_outcomes_example :
    let after = remove_peer ops with_alice alice in
    (ops.get alice after.peers ≡ none)
    × (peer_eq alice bob ≡ false → ops.get bob after.peers ≡ ops.get bob with_alice.peers)
    × (after.spawned ≡ with_alice.spawned)
    × (after.peer_count ≡ (
        if is_some (ops.get alice with_alice.peers)
        then dec with_alice.peer_count
        else with_alice.peer_count))
    × ((remove_peer ops after alice).peer_count ≡ after.peer_count)
remove_peer_outcomes_example = remove_peer_outcomes ops laws with_alice alice bob

Reachable-CountsPeers_example : CountsPeers ops with_alice
Reachable-CountsPeers_example =
    Reachable-CountsPeers ops laws (added (handler_of alice 0) (some 7) started)

start_counts : CountsPeers ops start
unfolding new
start_counts = refl

alice_free : ops.get alice start.peers ≡ none
unfolding new lookup_by
alice_free = refl

add_peer_race_example :
    (s' : AppState Map) × AddSteps ops
      (record { state = start; passed = [] })
      (record { state = s'; passed = [] })
    × (ops.len s'.peers ≡ ops.len start.peers + 1)
    × (s'.peer_count ≡ pos (ops.len s'.peers + 1))
add_peer_race_example =
    add_peer_race ops laws start (handler_of alice 0) (handler_of alice 1) 7 alice_free alice_free
      (peer_eq-Equivalence.eq_refl alice) start_counts

serve-Step_example :
    Step
      (hear alice alice (some alice) hello)
      (view ops with_alice)
      (view ops (serve ops (hear alice alice (some alice) hello) 7 with_alice))
serve-Step_example = serve-Step ops laws (hear alice alice (some alice) hello) 7 with_alice

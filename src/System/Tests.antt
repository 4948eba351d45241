-- ===== src/System/Tests.antt =====
-- The parts together, at concrete clients.
use sf_rs.Prelude.{
  ◌++◌, Bool, map, update, update_self, update_ne, subst, ◌≢◌, All, ap, ℕ, List, [], ◌∷◌, true, ◌≡◌,
  refl, Option, none, some, ok, codes, replicate, arith, bytes_eq, if◌then◌else◌, ◌==◌,
}
use sf_rs.Prelude.Int.{pos}
use sf_rs.Prelude.Maps.{MapOps, AssocMap, assoc_map, lookup_by, put}
use sf_rs.PeerId.Base.{PeerId, peer_eq, peer_eq-Equivalence, peer_id_size}
use sf_rs.PeerId.Random.{random}
use sf_rs.Protocol.{PeerRequest, PeerEvent, forward, message}
use sf_rs.Server.Handler.{
  PeerHandler, ChannelOps, ChannelLaws, Network, Poll, pending, ready, send, text,
}
use sf_rs.Server.State.{Task}
use sf_rs.Server.Ws.{Connection, ws_turn, ws_loop, inbound}
use sf_rs.Server.Extract.{from_request_parts}
use sf_rs.Wasm.Client.{Client, PeerOps, handle_peer_event, ws_url}
use sf_rs.System.Relay.{outbound_turns, text_of, event_arrives}
use sf_rs.Wasm.Socket.{reader_loop}
use sf_rs.System.Identity.{FindsQuery, connect_identified}

abbrev alice : PeerId
alice = record { size = 1; bytes = 1 ∷ replicate 31 0 }

abbrev bob : PeerId
bob = record { size = 1; bytes = 2 ∷ replicate 31 0 }

abbrev Map : Type 0
Map = AssocMap PeerId PeerHandler peer_eq

abbrev ops : MapOps PeerId PeerHandler Map
ops = assoc_map PeerId PeerHandler peer_eq peer_eq-Equivalence

abbrev handler_of : PeerId → ℕ → PeerHandler
handler_of pid sender = record {
  meta = record { origin = codes "127.0.0.1:1"; peer_id = pid };
  sender = sender;
}

abbrev with_bob : Connection Map
with_bob = record {
  written = [];
  received = λ label. 0;
  state = record {
    peers = ops.insert bob (handler_of bob 1) ops.empty;
    peer_count = pos 1;
    message_broadcast = 0;
    message_forwarded = λ label. 0;
    spawned = [];
  };
}

abbrev hello : PeerEvent
hello = message alice (codes "hello")

abbrev parse : List ℕ → Option PeerRequest
parse raw = some (forward alice (some bob) hello)

abbrev to_string : PeerRequest → Option (List ℕ)
to_string request = some (codes "{}")

-- Channels without a bound that are never closed.
abbrev channels : ChannelOps (ℕ → List PeerRequest)
channels = record {
  send = λ i req n. ready (update n i (n i ++ req ∷ []), true);
  queue = λ i n. n i;
}

queues_of : {N : Type 0} → N → Poll (N × Bool) → N
queues_of n pending = n
queues_of n (ready (n', accepted)) = n'

channels-ChannelLaws : ChannelLaws channels
unfolding queues_of
channels-ChannelLaws = record {
  accepted = λ i req n n' e.
      subst (λ (m : ℕ → List PeerRequest). m i ≡ n i ++ req ∷ []) (ap (queues_of n) e)
        (update_self n i (n i ++ req ∷ []));
  others = λ i j req n n' e other.
      subst (λ (m : ℕ → List PeerRequest). m j ≡ n j) (ap (queues_of n) e)
        (update_ne n i j (n i ++ req ∷ []) other);
}

abbrev net : Network (ℕ → List PeerRequest)
net = record { channels = λ i. []; sent = λ label. 0 }

-- Peers that are their identifiers, and do nothing.
abbrev idle_peers : PeerOps PeerId ℕ ℕ
idle_peers = record {
  id = λ p. p;
  make = λ pid w. (w, ok pid);
  make_offer = λ p w. (w, ok tt);
  handle_offer = λ p description w. (w, ok tt);
  handle_candidate = λ p candidate w. (w, ok tt);
  direct_send_str = λ p content w. (w, ok tt);
}

abbrev Table : Type 0
Table = AssocMap PeerId PeerId peer_eq

abbrev table : MapOps PeerId PeerId Table
table = assoc_map PeerId PeerId peer_eq peer_eq-Equivalence

abbrev client : Client Table ℕ
client = record {
  peer_id = bob;
  world = 0;
  peer_manager = record { peers = table.empty; known_peer_ids = []; peer_count = 0 };
  connected = true;
  notified = [];
}

bob_found : ops.get bob with_bob.state.peers ≡ some (handler_of bob 1)
unfolding lookup_by put peer_eq bytes_eq
bob_found = refl

event_arrives_example :
    let (go_on, c') =
      ws_turn ops parse to_string (handler_of alice 0) (inbound (text (codes "{}"))) with_bob in
    (go_on ≡ true)
    × ((task : Task) × (c'.state.spawned ≡ task ∷ [])
        × ((net' : Network (ℕ → List PeerRequest)) × (send channels net task.handler task.payload
              ≡ ready (net', ok tt))
            × let turns = outbound_turns ops parse to_string (net'.channels task.handler.sender) in
              (frames : List (List ℕ)) × ((ws_loop ops parse to_string task.handler turns
                  with_bob).1.written
                ≡ frames ++ codes "{}" ∷ [])
              × let earlier = (reader_loop table idle_peers parse (map text_of frames) client).0 in
                reader_loop table idle_peers parse (map text_of (frames ++ codes "{}" ∷ [])) client
                ≡ ((handle_peer_event table idle_peers earlier alice hello).0, true)))
event_arrives_example =
    event_arrives ops parse to_string table idle_peers channels channels-ChannelLaws
      (handler_of alice 0) (handler_of bob 1) alice bob hello (codes "{}") with_bob with_bob net
      (update net.channels 1 (forward alice (some bob) hello ∷ [])) client refl refl bob_found refl
      tt

-- A text up to its fragment, and what follows the first question mark of it.
abbrev before_hash : List ℕ → List ℕ
before_hash [] = []
before_hash (c ∷ cs) = let rest = before_hash cs in if c == b'#' then [] else c ∷ rest

abbrev after_mark : List ℕ → Option (List ℕ)
after_mark [] = none
after_mark (c ∷ cs) =
    let rest = after_mark cs in
    if c == b'#' then none else if c == b'?' then some (before_hash cs) else rest

before_hash_plain : (query : List ℕ) → All (λ c. c ≢ b'#') query → before_hash query ≡ query
before_hash_plain [] plain = refl
before_hash_plain (c ∷ query) plain = ground (arith, plain.0, before_hash_plain query plain.1)

after_mark-FindsQuery : FindsQuery after_mark
after_mark-FindsQuery [] query plain clean = ap some (before_hash_plain query clean)
after_mark-FindsQuery (c ∷ path) query plain clean =
    ground (arith, plain.0.0, plain.0.1, after_mark-FindsQuery path query plain.1 clean)

connect_identified_example :
    (drawn found : PeerId) × (random peer_id_size (ok 7) ≡ ok drawn)
    × (from_request_parts
          (λ value. none)
          none
          (after_mark
            (ws_url table idle_peers (record client { peer_id = drawn }) (codes "sf.example")))
        ≡ ok found)
    × (peer_eq drawn found ≡ true)
connect_identified_example =
    connect_identified table idle_peers (λ value. none) after_mark 7 client (codes "sf.example")
      after_mark-FindsQuery (omega arith)

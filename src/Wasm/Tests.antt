-- ===== src/Wasm/Tests.antt =====
-- sf-wasm: the theorems at concrete tables.
use sf_rs.Prelude.{
  true, List, length, [], Option, codes, Outcome, ok, err, panic, ◌++◌, ◌⊎◌, All, if◌then◌else◌,
  sym, refl, ℕ, ◌+◌, ◌<◌, ◌∷◌, ◌≡◌, ◌≢◌, arith, ◌==◌, ==_refl, none, some, replicate,
}
use sf_rs.Prelude.Maps.{
  lookup_by, MapOps, MapLaws, Equivalence, AssocMap, assoc_map, assoc_map-MapLaws,
}
use sf_rs.PeerId.Base.{PeerId, peer_eq, peer_eq-Equivalence}
use sf_rs.Wasm.PeerManager.{
  contains, new, get_peer, add_peer, add_known_peer_id, IsValid, created, peer_added, id_added,
  Reachable-IsValid,
}
use sf_rs.Webrtc.Sdp.{offer}
use sf_rs.Protocol.{PeerRequest, keep_alive, forward, web_rtc_offer}
use sf_rs.Webrtc.Sdp.{answer, SessionDescription}
use sf_rs.Webrtc.Servers.{UrlCodec, stun_servers}
use sf_rs.Wasm.Client.{Client, PeerOps, get_or_create_peer, handle_web_rtc_offer}
use sf_rs.Wasm.Peer.{Peer, Link, PeerError, sender_open, handle_offer, send_peer_request}
use sf_rs.Wasm.Peers.{peers, new_peer, new_peer-id, on_link}
use sf_rs.Webrtc.Connection.{new_default}
use sf_rs.Webrtc.Servers.{to_configuration}
use sf_rs.Wasm.ClientLaws.{get_or_create_peer_once}
use sf_rs.Wasm.Socket.{text, bytes, read_error, reader_loop}
use sf_rs.Wasm.Heard.{heard_in, reader_loop-IsValid}
use sf_rs.Wasm.Notify.{
  Reaction, returns, throws, values, notify_event, invoke_all, notify_event_all,
}
use sf_rs.Wasm.Browser.{Conn, browser, channels}
use sf_rs.Wasm.Callbacks.{JsCallbackManager, new_manager, add, InOrder, add_fresh}

abbrev pub alice : PeerId
alice = record { size = 1; bytes = 1 ∷ replicate 31 0 }

abbrev pub bob : PeerId
bob = record { size = 1; bytes = 2 ∷ replicate 31 0 }

-- A peer stands for itself by its identifier.
abbrev identifiers : MapOps PeerId PeerId (AssocMap PeerId PeerId peer_eq)
identifiers = assoc_map PeerId PeerId peer_eq peer_eq-Equivalence

abbrev own_id : PeerId → PeerId
own_id pid = pid

Reachable-IsValid_example : IsValid identifiers own_id (
    add_known_peer_id identifiers own_id
      (add_peer identifiers own_id (new identifiers own_id) alice)
      alice)
Reachable-IsValid_example =
    Reachable-IsValid identifiers (assoc_map-MapLaws PeerId PeerId peer_eq peer_eq-Equivalence)
      own_id (id_added alice (peer_added alice created))

==_Equivalence : Equivalence ◌==◌
==_Equivalence = record {
  eq_refl = ==_refl;
  eq_sym = λ i j h. ground arith;
  eq_trans = λ i j k h l. ground arith;
}

abbrev functions : MapOps ℕ ℕ (AssocMap ℕ ℕ ◌==◌)
functions = assoc_map ℕ ℕ ◌==◌ ==_Equivalence

empty-InOrder : InOrder functions (new_manager functions)
unfolding new_manager
empty-InOrder id used =
    absurd (ground (arith, (assoc_map-MapLaws ℕ ℕ ◌==◌ ==_Equivalence).get-empty id, used))

first_number : (new_manager functions).next_id + 1 < 4294967296
unfolding new_manager
first_number = omega arith

add_fresh_example :
    let m = new_manager functions in
    let (m', id) = add functions m 7 in
    (functions.get id m.callbacks ≡ none)
    × (functions.get id m'.callbacks ≡ some 7)
    × ((other : ℕ)
        → other ≢ id
        → functions.get other m'.callbacks ≡ functions.get other m.callbacks)
    × InOrder functions m'
add_fresh_example =
    add_fresh functions (assoc_map-MapLaws ℕ ℕ ◌==◌ ==_Equivalence) (new_manager functions) 7
      empty-InOrder first_number

abbrev Table : Type 0
Table = AssocMap PeerId Peer peer_eq

abbrev peer_table : MapOps PeerId Peer Table
peer_table = assoc_map PeerId Peer peer_eq peer_eq-Equivalence

abbrev peer_table_laws : MapLaws peer_eq peer_table
peer_table_laws = assoc_map-MapLaws PeerId Peer peer_eq peer_eq-Equivalence

abbrev Links : Type 0
Links = AssocMap PeerId (Link Conn ℕ) peer_eq

abbrev pub links : MapOps PeerId (Link Conn ℕ) Links
links = assoc_map PeerId (Link Conn ℕ) peer_eq peer_eq-Equivalence

abbrev pub codec : UrlCodec ℕ
codec = record { to_value = λ urls. ok 0; from_value = λ v. ok stun_servers }

abbrev pub to_json : PeerRequest → Option (List ℕ)
to_json keep_alive = some (codes "keep")
to_json (forward from to event) = some (codes "forward")

-- The client's peers, over the browser of the tests.
abbrev client_peers : PeerOps Peer (PeerError ℕ) Links
client_peers = peers links browser channels codec to_json bob sender_open

abbrev client : Client Table Links
client = record {
  peer_id = bob;
  world = links.empty;
  peer_manager = new peer_table client_peers.id;
  connected = true;
  notified = [];
}

abbrev offer_of_alice : PeerRequest
offer_of_alice = forward alice none (web_rtc_offer alice (record { sdp = []; sdp_type = offer }))

abbrev parse : List ℕ → Option PeerRequest
parse [] = some offer_of_alice
parse (c ∷ cs) = if c == 1 then some (forward alice none (sf_rs.Protocol.new_peer bob)) else none

reader_loop-IsValid_example :
    let incoming = text [] ∷ bytes [] ∷ text (1 ∷ []) ∷ text (2 ∷ []) ∷ read_error ∷ [] in
    let m = (reader_loop peer_table client_peers parse incoming client).0.peer_manager in
    IsValid peer_table client_peers.id m
    × All (λ pid. contains pid m.known_peer_ids ≡ true) (heard_in parse incoming)
reader_loop-IsValid_example =
    reader_loop-IsValid peer_table peer_table_laws client_peers parse
      (text [] ∷ bytes [] ∷ text (1 ∷ []) ∷ text (2 ∷ []) ∷ read_error ∷ []) client
      (Reachable-IsValid peer_table peer_table_laws client_peers.id created)

-- The offer of a peer that is not known makes it, and it is answered.
offer_answered :
    (handle_web_rtc_offer peer_table client_peers client alice
      (record { sdp = []; sdp_type = offer })).1
    ≡ ok tt
unfolding handle_web_rtc_offer get_or_create_peer get_peer new add_peer add_known_peer_id new_peer
    new_default to_configuration on_link handle_offer send_peer_request lookup_by
    sf_rs.Prelude.Maps.put peer_eq sf_rs.Prelude.bytes_eq
    sf_rs.Webrtc.Connection.get_remote_description sf_rs.Webrtc.Connection.set_remote_description
    sf_rs.Webrtc.Sdp.to_rtc_description sf_rs.Webrtc.Sdp.to_rtc sf_rs.Webrtc.Sdp.type_eq
    sf_rs.Webrtc.Connection.create_answer sf_rs.Webrtc.Sdp.from_js_fields
    sf_rs.Webrtc.Sdp.from_string sf_rs.Webrtc.Connection.set_local_description
offer_answered = refl

unfoldable pub serializes : (r : PeerRequest) → (json : List ℕ) × (to_json r ≡ some json)
serializes keep_alive = (codes "keep", refl)
serializes (forward from to event) = (codes "forward", refl)

-- The callback 0 throws, any other returns.
abbrev reaction : ℕ → Reaction
reaction f = if f == 0 then throws else returns

abbrev two_callbacks : JsCallbackManager (AssocMap ℕ ℕ ◌==◌)
two_callbacks = record {
  callbacks = functions.insert 1 5 (functions.insert 0 0 functions.empty);
  next_id = 2;
}

thrown_logged : (notify_event functions reaction true two_callbacks).1 ≡ 0 ∷ []
unfolding notify_event invoke_all sf_rs.Prelude.Maps.put
thrown_logged = refl

all_called :
    (notify_event functions reaction true two_callbacks).0
    ≡ values (functions.entries two_callbacks.callbacks)
all_called = notify_event_all functions reaction two_callbacks

abbrev alice_peer : Peer
alice_peer = record { id = alice; host_peer_id = bob }

abbrev with_alice : Client Table Links
with_alice = (get_or_create_peer peer_table client_peers client alice).0

makes_alice : get_or_create_peer peer_table client_peers client alice ≡ (with_alice, ok alice_peer)
unfolding get_or_create_peer get_peer new new_peer new_default to_configuration lookup_by
makes_alice = refl

get_or_create_peer_once_example :
    get_or_create_peer peer_table client_peers with_alice alice ≡ (with_alice, ok alice_peer)
get_or_create_peer_once_example =
    get_or_create_peer_once peer_table peer_table_laws client_peers client with_alice alice
      alice_peer
      (λ w q e. new_peer-id links browser channels codec to_json bob sender_open alice w q e)
      makes_alice

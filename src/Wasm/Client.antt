-- ===== src/Wasm/Client.antt =====
-- sf-wasm/src/client.rs: what a client does with the requests that the server sends it. The peers
-- themselves are given: how one is made, and how it handles an offer or a candidate. The `RefCell`
-- borrows of the source end before the next await, so they do not fail.
use sf_rs.Prelude.{
  ℕ, List, [], ◌∷◌, ◌++◌, Bool, true, if◌then◌else◌, Option, none, some, Outcome, ok, err, panic,
  map_err, map, codes,
}
use sf_rs.PeerId.Text.{display}
use sf_rs.Prelude.Maps.{MapOps}
use sf_rs.PeerId.Base.{PeerId}
use sf_rs.Prelude.Action.{Action}
use sf_rs.Wasm.Events.{ClientEvent, new_peer_event, message_event}
use sf_rs.Webrtc.Sdp.{SessionDescription}
use sf_rs.Webrtc.Ice.{IceCandidate}
use sf_rs.Protocol.{
  PeerEvent, PeerRequest, new_peer, message, web_rtc_offer, web_rtc_candidate, keep_alive, forward,
}
use sf_rs.Wasm.PeerManager.{PeerManager, add_peer, add_known_peer_id, get_peer}

pub data ClientError (Js : Type 0) : Type 0 where
  no_websocket : ClientError Js
  already_connected : ClientError Js
  websocket_refused : Js → ClientError Js
  bad_peer_id : ClientError Js
  peer_not_found : PeerId → ClientError Js
  of_peer : Js → ClientError Js

-- `Client`, with the events that its callbacks were notified of. `world` is what the peers share with
-- the browser and the socket.
pub record Client (M W : Type 0) : Type 0 where
  pub peer_id : PeerId
  pub world : W
  pub peer_manager : PeerManager M
  pub connected : Bool
  pub notified : List ClientEvent

-- `Peer::new` and the methods of a peer.
pub record PeerOps (P Js W : Type 0) : Type 0 where
  pub id : P → PeerId
  pub make : PeerId → Action W Js P
  pub make_offer : P → Action W Js (Unit {0})
  pub handle_offer : P → SessionDescription → Action W Js (Unit {0})
  pub handle_candidate : P → IceCandidate → Action W Js (Unit {0})
  pub direct_send_str : P → List ℕ → Action W Js (Unit {0})

module _ {P Js M W : Type 0} (ops : MapOps PeerId P M) (peer : PeerOps P Js W) where
  -- `notify_event`.
  abbrev notify_event : Client M W → ClientEvent → Client M W
  notify_event c event = record c { notified = c.notified ++ event ∷ [] }

  -- `new_peer_discovered`.
  unfoldable pub new_peer_discovered : Client M W → PeerId → Client M W
  new_peer_discovered c pid =
      notify_event (record c { peer_manager = add_known_peer_id ops peer.id c.peer_manager pid })
        (new_peer_event pid)

  abbrev pub created :
      Client M W → PeerId → W × Outcome Js P → Client M W × Outcome (ClientError Js) P
  created c pid (w, ok p) = (
    notify_event (record c { world = w; peer_manager = add_peer ops peer.id c.peer_manager p })
        (new_peer_event pid),
    ok p,
  )
  created c pid (w, err e) = (record c { world = w }, err (of_peer e))
  created c pid (w, panic) = (record c { world = w }, panic)

  abbrev pub found_or_created :
      Client M W → PeerId → Option P → Client M W × Outcome (ClientError Js) P
  found_or_created c pid (some p) = (c, ok p)
  found_or_created c pid none =
      if c.connected then created c pid (peer.make pid c.world) else (c, err no_websocket)

  -- `get_or_create_peer`, as one step; the source awaits `Peer::new` inside it.
  unfoldable pub get_or_create_peer : Client M W → PeerId → Client M W × Outcome (ClientError Js) P
  get_or_create_peer c pid = found_or_created c pid (get_peer ops peer.id c.peer_manager pid)

  -- What a method of a peer did.
  abbrev after_peer :
      Client M W → W × Outcome Js (Unit {0}) → Client M W × Outcome (ClientError Js) (Unit {0})
  after_peer c (w, r) = (record c { world = w }, map_err of_peer r)

  -- A method of the peer that was found or made.
  abbrev pub with_peer :
      (P → Action W Js (Unit {0}))
      → Client M W × Outcome (ClientError Js) P
      → Client M W × Outcome (ClientError Js) (Unit {0})
  with_peer method (c, ok p) = after_peer c (method p c.world)
  with_peer method (c, err e) = (c, err e)
  with_peer method (c, panic) = (c, panic)

  -- `handle_web_rtc_offer`.
  unfoldable pub handle_web_rtc_offer :
      Client M W → PeerId → SessionDescription → Client M W × Outcome (ClientError Js) (Unit {0})
  unfolding get_or_create_peer
  handle_web_rtc_offer c pid description =
      with_peer (λ p. peer.handle_offer p description) (get_or_create_peer c pid)

  abbrev pub of_known :
      Client M W
      → PeerId
      → (P → Action W Js (Unit {0}))
      → Option P
      → Client M W × Outcome (ClientError Js) (Unit {0})
  of_known c pid method none = (c, err (peer_not_found pid))
  of_known c pid method (some p) = after_peer c (method p c.world)

  -- `handle_web_rtc_candidate`.
  unfoldable pub handle_web_rtc_candidate :
      Client M W → PeerId → IceCandidate → Client M W × Outcome (ClientError Js) (Unit {0})
  handle_web_rtc_candidate c pid candidate =
      of_known c pid (λ p. peer.handle_candidate p candidate)
        (get_peer ops peer.id c.peer_manager pid)

  -- `handle_peer_event`.
  unfoldable pub handle_peer_event :
      Client M W → PeerId → PeerEvent → Client M W × Outcome (ClientError Js) (Unit {0})
  unfolding new_peer_discovered handle_web_rtc_offer handle_web_rtc_candidate
  handle_peer_event c from (new_peer pid) = (new_peer_discovered c pid, ok tt)
  handle_peer_event c from (message pid text) = (notify_event c (message_event from text), ok tt)
  handle_peer_event c from (web_rtc_offer pid description) = handle_web_rtc_offer c from description
  handle_peer_event c from (web_rtc_candidate pid candidate) =
      handle_web_rtc_candidate c from candidate

  -- `process_peer_request`.
  unfoldable pub process_peer_request :
      Client M W → PeerRequest → Client M W × Outcome (ClientError Js) (Unit {0})
  unfolding handle_peer_event
  process_peer_request c keep_alive = (c, ok tt)
  process_peer_request c (forward from to event) = handle_peer_event c from event

  -- `handle_incoming_text`; `parse` is `serde_json::from_str`. An error is only logged.
  unfoldable pub handle_incoming_text :
      (List ℕ → Option PeerRequest) → Client M W → List ℕ → Client M W
  unfolding process_peer_request
  handle_incoming_text parse c text = elim (parse text) [
    | some request ↦ (process_peer_request c request).0
    | none ↦ c
  ]

  abbrev offered : Client M W → Option PeerId → Client M W × Outcome (ClientError Js) (Unit {0})
  offered c (some pid) = with_peer peer.make_offer (get_or_create_peer c pid)
  offered c none = (c, err bad_peer_id)

  -- `connect_to_peer`, given what the conversion of the JavaScript value gives.
  unfoldable pub connect_to_peer :
      Client M W → Option PeerId → Client M W × Outcome (ClientError Js) (Unit {0})
  unfolding get_or_create_peer
  connect_to_peer c pid = offered c pid

  -- `send_message_to_peer`.
  unfoldable pub send_message_to_peer :
      Client M W → PeerId → List ℕ → Client M W × Outcome (ClientError Js) (Unit {0})
  send_message_to_peer c pid content =
      of_known c pid (λ p. peer.direct_send_str p content) (get_peer ops peer.id c.peer_manager pid)

  -- `list_peers`.
  unfoldable pub list_peers : Client M W → List (List ℕ)
  list_peers c = map display c.peer_manager.known_peer_ids

  -- The address that the socket is opened at.
  unfoldable pub ws_url : Client M W → List ℕ → List ℕ
  ws_url c url = codes "wss://" ++ url ++ codes "/ws?peer_id=" ++ display c.peer_id

  abbrev opened :
      Client M W → Outcome Js (Unit {0}) → Client M W × Outcome (ClientError Js) (Unit {0})
  opened c (ok _) = (record c { connected = true }, ok tt)
  opened c (err e) = (c, err (websocket_refused e))
  opened c panic = (c, panic)

  -- `connect`; `open_websocket` is `WebSocket::open`.
  unfoldable pub connect :
      (List ℕ → Outcome Js (Unit {0}))
      → Client M W
      → List ℕ
      → Client M W × Outcome (ClientError Js) (Unit {0})
  unfolding ws_url
  connect open_websocket c url =
      if c.connected then (c, err already_connected) else opened c (open_websocket (ws_url c url))

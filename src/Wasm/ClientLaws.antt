-- ===== src/Wasm/ClientLaws.antt =====
-- sf-wasm/src/client.rs: the client's table of peers through whatever the server sends.
use sf_rs.Prelude.{
  ℕ, List, Bool, true, false, ◌≡◌, refl, ap, if◌then◌else◌, Option, none, some, Outcome, ok, err,
  panic, subst,
}
use sf_rs.Prelude.Action.{Action}
use sf_rs.Prelude.Maps.{MapOps, MapLaws}
use sf_rs.PeerId.Base.{PeerId, peer_eq}
use sf_rs.Protocol.{
  PeerRequest, new_peer, message, web_rtc_offer, web_rtc_candidate, keep_alive, forward,
}
use sf_rs.Wasm.PeerManager.{
  IsValid, get_peer, add_peer-IsValid, add_known_peer_id-IsValid, add_peer-get_peer,
}
use sf_rs.Wasm.Client.{
  Client, ClientError, no_websocket, PeerOps, created, found_or_created, with_peer, of_known,
  get_or_create_peer, new_peer_discovered, handle_web_rtc_offer, handle_web_rtc_candidate,
  handle_peer_event, process_peer_request, handle_incoming_text,
}

module _ {P Js M W : Type 0} (ops : MapOps PeerId P M) (laws : MapLaws peer_eq ops)
    (peer : PeerOps P Js W) where
  abbrev Valid : Client M W → Type 0
  Valid c = IsValid ops peer.id c.peer_manager

  get_or_create_peer-Valid :
      (c : Client M W) (pid : PeerId) → Valid c → Valid (get_or_create_peer ops peer c pid).0
  unfolding get_or_create_peer
  get_or_create_peer-Valid c pid v = looked_up (get_peer ops peer.id c.peer_manager pid)
    where
      made : (r : W × Outcome Js P) → Valid (created ops peer c pid r).0
      made (w, ok p) = add_peer-IsValid ops laws peer.id c.peer_manager p v
      made (w, err e) = v
      made (w, panic) = v

      tried :
          (b : Bool)
          → Valid
              (if b
                then created ops peer c pid (peer.make pid c.world)
                else (c, err no_websocket)).0
      tried true = made (peer.make pid c.world)
      tried false = v

      looked_up : (found : Option P) → Valid (found_or_created ops peer c pid found).0
      looked_up (some p) = v
      looked_up none = tried c.connected

  with_peer-Valid :
      (method : P → Action W Js (Unit {0})) (r : Client M W × Outcome (ClientError Js) P)
      → Valid r.0
      → Valid (with_peer ops peer method r).0
  with_peer-Valid method (c, ok p) v = v
  with_peer-Valid method (c, err e) v = v
  with_peer-Valid method (c, panic) v = v

  of_known-Valid :
      (c : Client M W) (pid : PeerId) (method : P → Action W Js (Unit {0})) (found : Option P)
      → Valid c
      → Valid (of_known ops peer c pid method found).0
  of_known-Valid c pid method none v = v
  of_known-Valid c pid method (some p) v = v

  -- Whatever request the server sends, and whether or not handling it fails, the client goes on
  -- listing each identifier that it has heard of once, and those of all its peers.
  pub process_peer_request-IsValid :
      (c : Client M W) (request : PeerRequest)
      → IsValid ops peer.id c.peer_manager
      → IsValid ops peer.id (process_peer_request ops peer c request).0.peer_manager
  unfolding process_peer_request handle_peer_event new_peer_discovered handle_web_rtc_offer
      handle_web_rtc_candidate
  process_peer_request-IsValid c keep_alive v = v
  process_peer_request-IsValid c (forward from to (new_peer pid)) v =
      add_known_peer_id-IsValid ops laws peer.id c.peer_manager pid v
  process_peer_request-IsValid c (forward from to (message pid text)) v = v
  process_peer_request-IsValid c (forward from to (web_rtc_offer pid description)) v =
      with_peer-Valid (λ p. peer.handle_offer p description) (get_or_create_peer ops peer c from)
        (get_or_create_peer-Valid c from v)
  process_peer_request-IsValid c (forward from to (web_rtc_candidate pid candidate)) v =
      of_known-Valid c from (λ p. peer.handle_candidate p candidate)
        (get_peer ops peer.id c.peer_manager from) v

  pub handle_incoming_text-IsValid :
      (parse : List ℕ → Option PeerRequest) (c : Client M W) (text : List ℕ)
      → IsValid ops peer.id c.peer_manager
      → IsValid ops peer.id (handle_incoming_text ops peer parse c text).peer_manager
  unfolding handle_incoming_text
  handle_incoming_text-IsValid parse c text v = parsed (parse text)
    where
      parsed :
          (r : Option PeerRequest)
          → Valid (elim r [ some request ↦ (process_peer_request ops peer c request).0 | none ↦ c ])
      parsed (some request) = process_peer_request-IsValid c request v
      parsed none = v

  get_or_create_peer_found :
      (c : Client M W) (pid : PeerId) (p : P)
      → get_peer ops peer.id c.peer_manager pid ≡ some p
      → get_or_create_peer ops peer c pid ≡ (c, ok p)
  unfolding get_or_create_peer
  get_or_create_peer_found c pid p g = ap (found_or_created ops peer c pid) g

  -- A peer is made once: after `get_or_create_peer` has given a peer, the next call for the same
  -- identifier gives the same one, makes none, and changes and notifies nothing.
  pub get_or_create_peer_once :
      (c c' : Client M W) (pid : PeerId) (p : P)
      → ((w : W) (q : P) → (peer.make pid w).1 ≡ ok q → peer.id q ≡ pid)
      → get_or_create_peer ops peer c pid ≡ (c', ok p)
      → get_or_create_peer ops peer c' pid ≡ (c', ok p)
  unfolding get_or_create_peer
  get_or_create_peer_once c c' pid p named e =
      looked_up (get_peer ops peer.id c.peer_manager pid) refl e
    where
      Again : Client M W × Outcome (ClientError Js) P → Type 0
      Again r = get_or_create_peer ops peer r.0 pid ≡ r

      tried :
          (b : Bool) (r : W × Outcome Js P)
          → (peer.make pid c.world).1 ≡ r.1
          → (if b then created ops peer c pid r else (c, err no_websocket)) ≡ (c', ok p)
          → Again (c', ok p)
      tried true (w, ok q) m e =
          let c1 = (created ops peer c pid (w, ok q)).0 in
          subst Again e (
            get_or_create_peer_found c1 pid q (
              subst (λ i. get_peer ops peer.id c1.peer_manager i ≡ some q) (named c.world q m)
                (add_peer-get_peer ops laws peer.id c.peer_manager q)))
      tried true (w, err x) m e = cc (ap (λ r. r.1) e)
      tried true (w, panic) m e = cc (ap (λ r. r.1) e)
      tried false r m e = cc (ap (λ r. r.1) e)

      looked_up :
          (found : Option P)
          → get_peer ops peer.id c.peer_manager pid ≡ found
          → found_or_created ops peer c pid found ≡ (c', ok p)
          → Again (c', ok p)
      looked_up (some q) g e = subst Again e (get_or_create_peer_found c pid q g)
      looked_up none g e = tried c.connected (peer.make pid c.world) refl e

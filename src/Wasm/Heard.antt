-- ===== src/Wasm/Heard.antt =====
-- sf-wasm/src/client.rs and websocket.rs: the identifiers that a client has heard of.
use sf_rs.Prelude.{
  ℕ, List, [], ◌∷◌, Bool, true, false, ◌≡◌, if◌then◌else◌, Option, none, some, Outcome, ok, err,
  panic, All, All-append, ◌++◌,
}
use sf_rs.Prelude.Action.{Action}
use sf_rs.Prelude.Maps.{MapOps, MapLaws}
use sf_rs.PeerId.Base.{PeerId, peer_eq}
use sf_rs.Protocol.{
  PeerRequest, new_peer, message, web_rtc_offer, web_rtc_candidate, keep_alive, forward,
}
use sf_rs.Wasm.PeerManager.{
  IsValid, contains, get_peer, add_peer_kept, add_known_peer_id_kept, add_known_peer_id_has,
}
use sf_rs.Wasm.Client.{
  Client, ClientError, no_websocket, PeerOps, created, found_or_created, with_peer, of_known,
  get_or_create_peer, new_peer_discovered, handle_web_rtc_offer, handle_web_rtc_candidate,
  handle_peer_event, process_peer_request, handle_incoming_text,
}
use sf_rs.Wasm.ClientLaws.{handle_incoming_text-IsValid}
use sf_rs.Wasm.Socket.{Incoming, text, bytes, read_error, reader_loop}

-- The identifier that a request announces: that of a `NewPeer`.
abbrev announced : Option PeerRequest → List PeerId
announced none = []
announced (some keep_alive) = []
announced (some (forward from to (new_peer heard))) = heard ∷ []
announced (some (forward from to (message sender content))) = []
announced (some (forward from to (web_rtc_offer sender description))) = []
announced (some (forward from to (web_rtc_candidate sender candidate))) = []

-- Those that the texts before the first read error announce.
abbrev pub heard_in : (List ℕ → Option PeerRequest) → List Incoming → List PeerId
heard_in parse [] = []
heard_in parse (text raw ∷ rest) = announced (parse raw) ++ heard_in parse rest
heard_in parse (bytes raw ∷ rest) = heard_in parse rest
heard_in parse (read_error ∷ rest) = []

module _ {P Js M W : Type 0} (ops : MapOps PeerId P M) (laws : MapLaws peer_eq ops)
    (peer : PeerOps P Js W) where
  abbrev Knows : PeerId → Client M W → Type 0
  Knows pid c = contains pid c.peer_manager.known_peer_ids ≡ true

  get_or_create_peer-Knows :
      (pid : PeerId) (c : Client M W) (from : PeerId)
      → Knows pid c
      → Knows pid (get_or_create_peer ops peer c from).0
  unfolding get_or_create_peer
  get_or_create_peer-Knows pid c from v = looked_up (get_peer ops peer.id c.peer_manager from)
    where
      made : (r : W × Outcome Js P) → Knows pid (created ops peer c from r).0
      made (w, ok p) = add_peer_kept ops laws peer.id c.peer_manager p pid v
      made (w, err e) = v
      made (w, panic) = v

      tried :
          (b : Bool)
          → Knows pid
              (if b
                then created ops peer c from (peer.make from c.world)
                else (c, err no_websocket)).0
      tried true = made (peer.make from c.world)
      tried false = v

      looked_up : (found : Option P) → Knows pid (found_or_created ops peer c from found).0
      looked_up (some p) = v
      looked_up none = tried c.connected

  with_peer-Knows :
      (pid : PeerId) (method : P → Action W Js (Unit {0}))
      (r : Client M W × Outcome (ClientError Js) P)
      → Knows pid r.0
      → Knows pid (with_peer ops peer method r).0
  with_peer-Knows pid method (c, ok p) v = v
  with_peer-Knows pid method (c, err e) v = v
  with_peer-Knows pid method (c, panic) v = v

  of_known-Knows :
      (pid : PeerId) (c : Client M W) (from : PeerId) (method : P → Action W Js (Unit {0}))
      (found : Option P)
      → Knows pid c
      → Knows pid (of_known ops peer c from method found).0
  of_known-Knows pid c from method none v = v
  of_known-Knows pid c from method (some p) v = v

  process_peer_request-Knows :
      (pid : PeerId) (c : Client M W) (request : PeerRequest)
      → Knows pid c
      → Knows pid (process_peer_request ops peer c request).0
  unfolding process_peer_request handle_peer_event new_peer_discovered handle_web_rtc_offer
      handle_web_rtc_candidate
  process_peer_request-Knows pid c keep_alive v = v
  process_peer_request-Knows pid c (forward from to (new_peer heard)) v =
      add_known_peer_id_kept ops laws peer.id c.peer_manager heard pid v
  process_peer_request-Knows pid c (forward from to (message sender content)) v = v
  process_peer_request-Knows pid c (forward from to (web_rtc_offer sender description)) v =
      with_peer-Knows pid (λ p. peer.handle_offer p description)
        (get_or_create_peer ops peer c from) (get_or_create_peer-Knows pid c from v)
  process_peer_request-Knows pid c (forward from to (web_rtc_candidate sender candidate)) v =
      of_known-Knows pid c from (λ p. peer.handle_candidate p candidate)
        (get_peer ops peer.id c.peer_manager from) v

module _ {P Js M W : Type 0} (ops : MapOps PeerId P M) (laws : MapLaws peer_eq ops)
    (peer : PeerOps P Js W) (parse : List ℕ → Option PeerRequest) where
  handle_incoming_text-Knows :
      (pid : PeerId) (c : Client M W) (raw : List ℕ)
      → Knows ops laws peer pid c
      → Knows ops laws peer pid (handle_incoming_text ops peer parse c raw)
  unfolding handle_incoming_text
  handle_incoming_text-Knows pid c raw v = parsed (parse raw)
    where
      parsed :
          (r : Option PeerRequest)
          → Knows ops laws peer pid
              (elim r [ some request ↦ (process_peer_request ops peer c request).0 | none ↦ c ])
      parsed (some request) = process_peer_request-Knows ops laws peer pid c request v
      parsed none = v

  handle_incoming_text-announced :
      (c : Client M W) (raw : List ℕ)
      → All
          (λ pid. Knows ops laws peer pid (handle_incoming_text ops peer parse c raw))
          (announced (parse raw))
  unfolding handle_incoming_text process_peer_request handle_peer_event new_peer_discovered
  handle_incoming_text-announced c raw = parsed (parse raw)
    where
      parsed :
          (r : Option PeerRequest)
          → All
              (λ pid.
                Knows ops laws peer pid (elim r [
                  | some request ↦ (process_peer_request ops peer c request).0
                  | none ↦ c
                ]))
              (announced r)
      parsed none = tt
      parsed (some keep_alive) = tt
      parsed (some (forward from to (new_peer heard))) =
          (add_known_peer_id_has ops laws peer.id c.peer_manager heard, tt)
      parsed (some (forward from to (message sender content))) = tt
      parsed (some (forward from to (web_rtc_offer sender description))) = tt
      parsed (some (forward from to (web_rtc_candidate sender candidate))) = tt

  reader_loop-Knows :
      (pid : PeerId) (incoming : List Incoming) (c : Client M W)
      → Knows ops laws peer pid c
      → Knows ops laws peer pid (reader_loop ops peer parse incoming c).0
  unfolding reader_loop
  reader_loop-Knows pid [] c v = v
  reader_loop-Knows pid (text raw ∷ rest) c v =
      reader_loop-Knows pid rest (handle_incoming_text ops peer parse c raw)
        (handle_incoming_text-Knows pid c raw v)
  reader_loop-Knows pid (bytes raw ∷ rest) c v = reader_loop-Knows pid rest c v
  reader_loop-Knows pid (read_error ∷ rest) c v = v

  still_known :
      (incoming : List Incoming) (c : Client M W) (pids : List PeerId)
      → All (λ pid. Knows ops laws peer pid c) pids
      → All (λ pid. Knows ops laws peer pid (reader_loop ops peer parse incoming c).0) pids
  still_known incoming c [] h = tt
  still_known incoming c (pid ∷ pids) h =
      (reader_loop-Knows pid incoming c h.0, still_known incoming c pids h.1)

  reader_loop-heard_in :
      (incoming : List Incoming) (c : Client M W)
      → All
          (λ pid. Knows ops laws peer pid (reader_loop ops peer parse incoming c).0)
          (heard_in parse incoming)
  unfolding reader_loop
  reader_loop-heard_in [] c = tt
  reader_loop-heard_in (text raw ∷ rest) c =
      let c' = handle_incoming_text ops peer parse c raw in
      All-append (λ pid. Knows ops laws peer pid (reader_loop ops peer parse rest c').0)
        (announced (parse raw)) (heard_in parse rest)
        (still_known rest c' (announced (parse raw)) (handle_incoming_text-announced c raw))
        (reader_loop-heard_in rest c')
  reader_loop-heard_in (bytes raw ∷ rest) c = reader_loop-heard_in rest c
  reader_loop-heard_in (read_error ∷ rest) c = tt

  reader_loop-Valid :
      (incoming : List Incoming) (c : Client M W)
      → IsValid ops peer.id c.peer_manager
      → IsValid ops peer.id (reader_loop ops peer parse incoming c).0.peer_manager
  unfolding reader_loop
  reader_loop-Valid [] c v = v
  reader_loop-Valid (text raw ∷ rest) c v =
      reader_loop-Valid rest (handle_incoming_text ops peer parse c raw)
        (handle_incoming_text-IsValid ops laws peer parse c raw v)
  reader_loop-Valid (bytes raw ∷ rest) c v = reader_loop-Valid rest c v
  reader_loop-Valid (read_error ∷ rest) c v = v

  -- Whatever comes over the socket, texts that do not parse, requests that fail and read errors
  -- included, a client that lists no identifier twice and lists those of all its peers goes on doing
  -- so, and in the end it lists each identifier that a `NewPeer` before the first read error
  -- announced.
  pub reader_loop-IsValid :
      (incoming : List Incoming) (c : Client M W)
      → IsValid ops peer.id c.peer_manager
      → let m = (reader_loop ops peer parse incoming c).0.peer_manager in
        IsValid ops peer.id m
        × All (λ pid. contains pid m.known_peer_ids ≡ true) (heard_in parse incoming)
  reader_loop-IsValid incoming c v =
      (reader_loop-Valid incoming c v, reader_loop-heard_in incoming c)

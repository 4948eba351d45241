-- ===== src/System/Relay.antt =====
-- sf-wasm/src/client.rs, sf-server/src/ws.rs, state.rs and peer_handler.rs: an event on its way from
-- one client through the server to another.
use sf_rs.Prelude.{
  ℕ, List, [], ◌∷◌, ◌++◌, true, ◌≡◌, refl, Option, some, is_some, ok, All, All-append, map, ap, ◌∙◌,
  bump, sym,
}
use mathlib.Core.List.{append_assoc}
use sf_rs.Prelude.Maps.{MapOps}
use sf_rs.PeerId.Base.{PeerId}
use sf_rs.Protocol.{PeerRequest, PeerEvent, forward}
use sf_rs.Server.Handler.{
  PeerHandler, label, ChannelOps, ChannelLaws, Network, ready, send, send_accepted, text,
  process_incoming, handle_request,
}
use sf_rs.Server.State.{Task, handle_forward, forward_single}
use sf_rs.Server.Delivery.{send_forward_found}
use sf_rs.Server.Ws.{
  Connection, Turn, ws_turn, ws_loop, inbound, outbound, goes_on, shown, texts, ws_loop-All,
  after-written,
}
use sf_rs.Wasm.Socket.{Incoming, reader_loop}
use sf_rs.Wasm.Socket
use sf_rs.Wasm.Client.{
  Client, PeerOps, handle_peer_event, process_peer_request, handle_incoming_text,
}

-- A frame as the client's socket gives it.
abbrev pub text_of : List ℕ → Incoming
text_of raw = Socket.text raw

module _ {M : Type 0} (ops : MapOps PeerId PeerHandler M) (parse : List ℕ → Option PeerRequest)
    (to_string : PeerRequest → Option (List ℕ)) where
  -- The sender's connection takes the text, and starts a task for the recipient alone.
  inbound-forward :
      (sender recipient : PeerHandler) (from to : PeerId) (event : PeerEvent) (raw : List ℕ)
      (c : Connection M)
      → parse raw ≡ some (forward from (some to) event)
      → ops.get to c.state.peers ≡ some recipient
      → let request = forward from (some to) event in
        let (go_on, c') = ws_turn ops parse to_string sender (inbound (text raw)) c in
        (go_on ≡ true)
        × (c'.state.spawned
            ≡ c.state.spawned ++ record { handler = recipient; payload = request } ∷ [])
  unfolding ws_turn process_incoming handle_request handle_forward forward_single
  inbound-forward sender recipient from to event raw c reads found = (
    refl,
    rw reads (ap (λ s. s.spawned) (send_forward_found ops c.state from to event recipient found)),
  )

  abbrev pub outbound_turns : List PeerRequest → List Turn
  outbound_turns requests = map (λ r. outbound r true) requests

  outbound_turns-goes_on :
      (recipient : PeerHandler) (requests : List PeerRequest)
      → All (λ r. is_some (to_string r) ≡ true) requests
      → All (λ t. goes_on ops parse to_string recipient t ≡ true) (outbound_turns requests)
  outbound_turns-goes_on recipient [] h = tt
  outbound_turns-goes_on recipient (r ∷ requests) h =
      (rw (h.0) refl, outbound_turns-goes_on recipient requests h.1)

  texts-outbound_turns :
      (recipient : PeerHandler) (waiting : List PeerRequest) (request : PeerRequest) (raw : List ℕ)
      → to_string request ≡ some raw
      → texts ops parse to_string recipient (outbound_turns (waiting ++ request ∷ []))
        ≡ texts ops parse to_string recipient (outbound_turns waiting) ++ raw ∷ []
  texts-outbound_turns recipient [] request raw e = rw e refl
  texts-outbound_turns recipient (r ∷ waiting) request raw e =
      ap (λ l. shown ops parse to_string recipient (to_string r) ++ l)
        (texts-outbound_turns recipient waiting request raw e)
      ∙ sym (
          append_assoc (shown ops parse to_string recipient (to_string r))
            (texts ops parse to_string recipient (outbound_turns waiting)) (raw ∷ []))

  -- The recipient's connection writes what waits for it, the request last.
  outbound-forward :
      (recipient : PeerHandler) (waiting : List PeerRequest) (request : PeerRequest) (raw : List ℕ)
      (d : Connection M)
      → to_string request ≡ some raw
      → All (λ r. is_some (to_string r) ≡ true) waiting
      → (ws_loop ops parse to_string recipient
          (outbound_turns (waiting ++ request ∷ []))
          d).1.written
        ≡ d.written ++ (texts ops parse to_string recipient (outbound_turns waiting) ++ raw ∷ [])
  outbound-forward recipient waiting request raw d writes serialise =
      let all_go = outbound_turns-goes_on recipient (waiting ++ request ∷ []) (
        All-append (λ r. is_some (to_string r) ≡ true) waiting (request ∷ []) serialise
          (rw writes refl, tt)) in
      let turns = outbound_turns (waiting ++ request ∷ []) in
      rw (ws_loop-All ops parse to_string recipient turns d all_go) (
        after-written ops parse to_string recipient turns d all_go
        ∙ ap (λ l. d.written ++ l) (texts-outbound_turns recipient waiting request raw writes))

  module _ {P Js N W : Type 0} (table : MapOps PeerId P N) (peer : PeerOps P Js W) where
    -- The recipient's client handles the event as coming from the sender that the request names.
    incoming-forward :
        (client : Client N W) (from : PeerId) (to : Option PeerId) (event : PeerEvent)
        (raw : List ℕ)
        → parse raw ≡ some (forward from to event)
        → handle_incoming_text table peer parse client raw
          ≡ (handle_peer_event table peer client from event).0
    unfolding handle_incoming_text process_peer_request
    incoming-forward client from to event raw reads = rw (reads, handle_incoming_text) refl

    -- Behind other frames as well.
    reader_loop-forward :
        (frames : List (List ℕ)) (client : Client N W) (from : PeerId) (to : Option PeerId)
        (event : PeerEvent) (raw : List ℕ)
        → parse raw ≡ some (forward from to event)
        → let earlier = (reader_loop table peer parse (map text_of frames) client).0 in
          reader_loop table peer parse (map text_of (frames ++ raw ∷ [])) client
          ≡ ((handle_peer_event table peer earlier from event).0, true)
    unfolding reader_loop
    reader_loop-forward [] client from to event raw reads =
        ap (λ c. (c, true)) (incoming-forward client from to event raw reads)
    reader_loop-forward (frame ∷ frames) client from to event raw reads =
        reader_loop-forward frames (handle_incoming_text table peer parse client frame) from to
          event raw reads

  module _ {P Js N W Q : Type 0} (table : MapOps PeerId P N) (peer : PeerOps P Js W)
      (channels : ChannelOps Q) (laws : ChannelLaws channels) where
    -- An event for one peer arrives. Where the JSON of the request is read as it is written, the
    -- recipient is registered, its channel accepts the request, and what waits in that channel can
    -- be written: the sender's connection takes the text and starts one task; that task's send
    -- succeeds; the loop of the connection that the task is for, when its turns take all that then
    -- waits in its channel and its socket takes each frame, writes some frames and after them the
    -- text; and a client that reads just those frames handles last the event, as from the peer that
    -- the request names, and goes on reading.
    pub event_arrives :
        (sender recipient : PeerHandler) (from to : PeerId) (event : PeerEvent) (raw : List ℕ)
        (c d : Connection M) (net : Network Q) (q : Q) (client : Client N W)
        → to_string (forward from (some to) event) ≡ some raw
        → parse raw ≡ some (forward from (some to) event)
        → ops.get to c.state.peers ≡ some recipient
        → channels.send recipient.sender (forward from (some to) event) net.channels
          ≡ ready (q, true)
        → All (λ r. is_some (to_string r) ≡ true) (channels.queue recipient.sender net.channels)
        → let (go_on, c') = ws_turn ops parse to_string sender (inbound (text raw)) c in
          (go_on ≡ true)
          × ((task : Task) × (c'.state.spawned ≡ c.state.spawned ++ task ∷ [])
              × ((net' : Network Q) × (send channels net task.handler task.payload
                    ≡ ready (net', ok tt))
                  × let turns = outbound_turns (channels.queue task.handler.sender net'.channels) in
                    (frames : List (List ℕ)) × ((ws_loop ops parse to_string task.handler turns
                        d).1.written
                      ≡ d.written ++ (frames ++ raw ∷ []))
                    × let earlier = (reader_loop table peer parse (map text_of frames) client).0 in
                      reader_loop table peer parse (map text_of (frames ++ raw ∷ [])) client
                      ≡ ((handle_peer_event table peer earlier from event).0, true)))
    event_arrives sender recipient from to event raw c d net q client writes reads found accepts
          serialise =
        let request = forward from (some to) event in
        let (go_on, started) = inbound-forward sender recipient from to event raw c reads found in
        let waiting = channels.queue recipient.sender net.channels in
        let frames = texts ops parse to_string recipient (outbound_turns waiting) in
        (
          go_on,
          (
            record { handler = recipient; payload = request },
            started,
            (
              record { channels = q; sent = bump (label recipient) net.sent },
              send_accepted channels net recipient request q accepts,
              (
                frames,
                rw (laws.accepted recipient.sender request net.channels q accepts)
                    (outbound-forward recipient waiting request raw d writes serialise),
                reader_loop-forward table peer frames client from (some to) event raw reads,
              ),
            ),
          ),
        )

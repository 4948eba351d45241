-- ===== src/Wasm/Trickle.antt =====
-- sf-wasm/src/peer.rs over sf-webrtc/src/peer_connection/futures.rs: the candidates that the browser
-- gathers on their way to the socket.
use sf_rs.Prelude.{ℕ, List, [], ◌∷◌, ◌++◌, ◌≡◌, refl, ap, ◌∙◌, Option, some, Outcome, map, length}
use mathlib.Core.List.{append-nil, append_assoc}
use sf_rs.Webrtc.Errors.{WebRtcError}
use sf_rs.Webrtc.Ice.{
  IceCandidate, RtcIceCandidate, from_web_sys, end_of_candidates, is_end_of_candidates,
}
use sf_rs.Webrtc.Events.{on_events, on_events-converted, drain, drain_all}
use sf_rs.Webrtc.Gathering.{ice_candidate_logic, gathering, gathered, converted-gathering}
use sf_rs.Webrtc.Connection.{ConnectionApi}
use sf_rs.Protocol.{PeerRequest, forward, web_rtc_candidate}
use sf_rs.Wasm.Peer.{Peer, Link, sender_open, ice_loop}
use sf_rs.Wasm.Handshake.{send_peer_request-Live}

module _ {C D Js : Type 0} (api : ConnectionApi C D Js) (to_string : PeerRequest → Option (List ℕ))
    (serializes : (r : PeerRequest) → (text : List ℕ) × (to_string r ≡ some text)) where
  -- The message with a candidate.
  abbrev pub candidate_text : Peer → RtcIceCandidate → List ℕ
  candidate_text peer c =
      (serializes
        (forward peer.host_peer_id (some peer.id) (web_rtc_candidate peer.id (from_web_sys c)))).0

  ice_loop-gathered :
      (peer : Peer) (cs : List RtcIceCandidate) (link : Link C D)
      → link.sender ≡ sender_open
      → ice_loop api to_string peer (gathered cs) link
        ≡ record link { outbox = link.outbox ++ map (candidate_text peer) cs }
  unfolding ice_loop is_end_of_candidates from_web_sys end_of_candidates
  ice_loop-gathered peer [] link open_socket = rw (append-nil link.outbox) refl
  ice_loop-gathered peer (c ∷ cs) link open_socket =
      let request =
        forward peer.host_peer_id (some peer.id) (web_rtc_candidate peer.id (from_web_sys c)) in
      let link1 : Link C D = record link { outbox = link.outbox ++ candidate_text peer c ∷ [] } in
      ap (λ r. ice_loop api to_string peer (gathered cs) r.0)
        (send_peer_request-Live api to_string serializes link request open_socket)
      ∙ ice_loop-gathered peer cs link1 open_socket
      ∙ ap (λ (out : List (List ℕ)). record link { outbox = out })
          (append_assoc link.outbox (candidate_text peer c ∷ []) (map (candidate_text peer) cs))

  -- Each candidate that the browser gathers is queued for the socket once, in the order in which
  -- they are gathered; the end of the candidates ends the task and is not sent.
  pub gathered_candidates_sent :
      (peer : Peer) (cs : List RtcIceCandidate) (link : Link C D)
      → link.sender ≡ sender_open
      → let (_, queue) = on_events (ice_candidate_logic {Js = Js}) (gathering cs) (tt, []) in
        ice_loop api to_string peer (drain (length queue) queue).0 link
        ≡ record link { outbox = link.outbox ++ map (candidate_text peer) cs }
  gathered_candidates_sent peer cs link open_socket =
      let (_, queue) = on_events (ice_candidate_logic {Js = Js}) (gathering cs) (tt, []) in
      let items : queue ≡ gathered cs =
        ap (λ r. r.1) (on_events-converted (ice_candidate_logic {Js = Js}) (gathering cs) tt [])
        ∙ ap (λ r. r.1) (converted-gathering {Js = Js} cs) in
      ap (λ r. ice_loop api to_string peer r.0 link) (drain_all queue)
      ∙ ap
          (λ (q : List (Outcome (WebRtcError Js) IceCandidate)). ice_loop api to_string peer q link)
          items
      ∙ ice_loop-gathered peer cs link open_socket

-- ===== src/Wasm/HandshakeTests.antt =====
-- sf-wasm: the exchange of descriptions over the test browser.
use sf_rs.Webrtc.Ice.{RtcIceCandidate}
use sf_rs.Webrtc.Events.{on_events, drain}
use sf_rs.Webrtc.Gathering.{ice_candidate_logic, gathering}
use sf_rs.Wasm.Trickle.{gathered_candidates_sent}
use sf_rs.Prelude.{List, length, [], codes, ok, err, refl, ℕ, ◌∷◌, ◌≡◌, none, some}
use sf_rs.Webrtc.Sdp.{offer}
use sf_rs.Webrtc.Sdp.{answer, SessionDescription}
use sf_rs.Webrtc.Errors.{js_error}
use sf_rs.Webrtc.Signaling.{stable, described}
use sf_rs.Wasm.Peer.{Link, web_rtc, sender_open, make_offer, handle_offer, ice_loop}
use sf_rs.Wasm.Peers.{fresh_link}
use sf_rs.Webrtc.Ice.{RtcIceCandidate}
use sf_rs.Webrtc.Events.{on_events, drain}
use sf_rs.Webrtc.Gathering.{ice_candidate_logic, gathering}
use sf_rs.Wasm.Trickle.{gathered_candidates_sent}
use sf_rs.Wasm.Handshake.{Live, handshake_completes, handle_offer_again}
use sf_rs.Wasm.Browser.{
  Conn, browser, signaling, channels, browser-AnswersOnlyOffers, browser-SignalingLaws,
}
use sf_rs.Wasm.Tests.{alice, bob, links, codec, to_json, serializes}

abbrev rested : Link Conn ℕ
rested =
    fresh_link links browser channels codec to_json bob sender_open
      (record { state = stable; remote = none; current_local = none; made = none })

rested-Live : Live browser signaling stable none rested
rested-Live = record { connected = refl; at = record { in_state = refl; has_remote = refl } }

handshake_completes_example :
    (sdp reply : List ℕ) × (caller1 caller2 callee1 : Link Conn ℕ)
    × let offered : SessionDescription = record { sdp = sdp; sdp_type = offer } in
      let answered : SessionDescription = record { sdp = reply; sdp_type = answer } in
      (make_offer browser to_json (record { id = bob; host_peer_id = alice }) rested
        ≡ (caller1, ok tt))
      × (handle_offer browser to_json (record { id = alice; host_peer_id = bob }) offered rested
          ≡ (callee1, ok tt))
      × (handle_offer browser to_json (record { id = bob; host_peer_id = alice }) answered caller1
          ≡ (caller2, ok tt))
      × (caller2.outbox ≡ codes "forward" ∷ [])
      × (callee1.outbox ≡ codes "forward" ∷ [])
      × Live browser signaling stable (some (described answer reply)) caller2
      × Live browser signaling stable (some (described offer sdp)) callee1
unfolding serializes
handshake_completes_example =
    handshake_completes browser signaling browser-SignalingLaws to_json serializes
      (record { id = bob; host_peer_id = alice }) (record { id = alice; host_peer_id = bob }) rested
      rested rested-Live rested-Live

abbrev settled : Link Conn ℕ
settled = record rested { pc = record rested.pc { remote = some (described offer []) } }

settled-Live : Live browser signaling stable (some (described offer [])) settled
settled-Live = record { connected = refl; at = record { in_state = refl; has_remote = refl } }

handle_offer_again_example :
    (e : ℕ) × (link' : Link Conn ℕ) × (handle_offer browser to_json
        (record { id = alice; host_peer_id = bob })
        (record { sdp = 1 ∷ []; sdp_type = offer })
        settled
      ≡ (link', err (web_rtc (js_error e))))
    × (link'.outbox ≡ [])
    × Live browser signaling stable (some (described offer [])) link'
handle_offer_again_example =
    handle_offer_again browser signaling browser-AnswersOnlyOffers to_json
      (record { id = alice; host_peer_id = bob }) settled (record { sdp = []; sdp_type = offer })
      (1 ∷ []) settled-Live

abbrev a_candidate : RtcIceCandidate
a_candidate = record {
  rtc_candidate = codes "udp";
  rtc_sdp_mid = none;
  rtc_sdp_m_line_index = some 0;
}

gathered_candidates_sent_example :
    let cs : List RtcIceCandidate = a_candidate ∷ a_candidate ∷ [] in
    let (_, queue) = on_events (ice_candidate_logic {Js = ℕ}) (gathering cs) (tt, []) in
    ice_loop browser to_json
      (record { id = bob; host_peer_id = alice })
      (drain (length queue) queue).0
      rested
    ≡ record rested { outbox = codes "forward" ∷ codes "forward" ∷ [] }
unfolding serializes
gathered_candidates_sent_example =
    gathered_candidates_sent browser to_json serializes (record { id = bob; host_peer_id = alice })
      (a_candidate ∷ a_candidate ∷ []) rested refl

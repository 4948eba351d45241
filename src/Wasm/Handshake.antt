-- ===== src/Wasm/Handshake.antt =====
-- sf-wasm/src/peer.rs over a browser that follows WebRTC's rules of signaling: the exchange of an
-- offer and an answer, and what handling an offer or a candidate does otherwise.
use sf_rs.Prelude.{ℕ, ◌+◌, List, [], ◌∷◌, ◌++◌, ◌≡◌, refl, Option, none, some, ok, err, ◌∙◌}
use sf_rs.Webrtc.Errors.{js_error}
use sf_rs.Webrtc.Sdp.{
  offer, answer, SessionDescription, RtcSessionDescription, to_rtc_description, type_eq,
}
use sf_rs.Webrtc.Ice.{IceCandidate}
use sf_rs.Webrtc.Connection.{ConnectionApi, create_data_channel}
use sf_rs.Webrtc.Signaling.{
  SignalingState, stable, have_local_offer, have_remote_offer, described, Signaling, At,
  AnswersOnlyOffers, SignalingLaws, create_offer-stable, create_answer-have_remote_offer,
  create_answer-stable, set_local_description-Moves, set_remote_description-Moves,
  get_remote_description-none, get_remote_description-some,
}
use sf_rs.Protocol.{PeerRequest, forward, web_rtc_offer}
use sf_rs.Wasm.Peer.{
  web_rtc, remote_description_not_set, sender_open, default_channel_name, Peer, Link,
  send_peer_request, make_offer, make_answer, handle_offer, handle_candidate,
}

module _ {C D Js : Type 0} (api : ConnectionApi C D Js) (signaling : Signaling C) where
  -- A link whose socket takes messages and whose connection is in a state.
  pub record Live (state : SignalingState) (remote : Option RtcSessionDescription) (link : Link C D)
      : Type 0 where
    pub connected : link.sender ≡ sender_open
    pub at : At api signaling state remote link.pc

module _ {C D Js : Type 0} (api : ConnectionApi C D Js) (to_string : PeerRequest → Option (List ℕ))
    (serializes : (r : PeerRequest) → (text : List ℕ) × (to_string r ≡ some text)) where
  pub send_peer_request-Live :
      (link : Link C D) (request : PeerRequest)
      → link.sender ≡ sender_open
      → send_peer_request api to_string request link
        ≡ (record link { outbox = link.outbox ++ (serializes request).0 ∷ [] }, ok tt)
  unfolding send_peer_request
  send_peer_request-Live link request connected = rw ((serializes request).1, connected) refl

module _ {C D Js : Type 0} (api : ConnectionApi C D Js) (signaling : Signaling C)
    (laws : SignalingLaws api signaling) (to_string : PeerRequest → Option (List ℕ))
    (serializes : (r : PeerRequest) → (text : List ℕ) × (to_string r ≡ some text)) where
  -- The message that offers or answers with a description.
  abbrev pub offering : Peer → SessionDescription → List ℕ
  offering peer description =
      (serializes (forward peer.host_peer_id (some peer.id) (web_rtc_offer peer.id description))).0

  -- A peer at rest makes an offer: it is sent, once, and the connection waits for the answer.
  pub make_offer-Live :
      (peer : Peer) (link : Link C D) {remote : Option RtcSessionDescription}
      → Live api signaling stable remote link
      → (sdp : List ℕ) × (link' : Link C D) × (make_offer api to_string peer link ≡ (link', ok tt))
        × (link'.outbox
            ≡ link.outbox ++ offering peer (record { sdp = sdp; sdp_type = offer }) ∷ [])
        × signaling.Offer sdp
        × (signaling.local_description link'.pc ≡ some (described offer sdp))
        × Live api signaling have_local_offer remote link'
  unfolding make_offer create_data_channel
  make_offer-Live peer link live =
      let (c0, dc) = api.create_data_channel default_channel_name none link.pc in
      let (sdp, e1, fits, last, waiting) =
        create_offer-stable api signaling laws c0 link.connection_counters
          (laws.channel_stays default_channel_name none live.at) in
      let description : SessionDescription = record { sdp = sdp; sdp_type = offer } in
      let (c1, _) = api.create_offer none c0 in
      let n1 = record link.connection_counters {
        offer_count = link.connection_counters.offer_count + 1;
      } in
      let (moves, local) = laws.local_offer sdp waiting last in
      let link1 = record link {
        pc = (api.set_local_description (described offer sdp) c1).0;
        connection_counters = n1;
        dc = some dc;
        attached = link.attached ++ dc ∷ [];
      } in
      (
        sdp,
        record link1 { outbox = link.outbox ++ offering peer description ∷ [] },
        rw
            (
              e1,
              set_local_description-Moves api signaling description c1 n1 moves,
              send_peer_request-Live api to_string serializes link1
                  (forward peer.host_peer_id (some peer.id) (web_rtc_offer peer.id description))
                  live.connected,
            )
            refl,
        refl,
        fits,
        local,
        record { connected = live.connected; at = moves.moved },
      )

  -- A peer that waits in its first exchange for an answer to its offer takes it, says nothing more, and is at
  -- rest with the answer as its remote description.
  pub handle_offer-answer :
      (peer : Peer) (link : Link C D) (offered sdp : List ℕ)
      → Live api signaling have_local_offer none link
      → signaling.local_description link.pc ≡ some (described offer offered)
      → signaling.Answer offered sdp
      → (link' : Link C D) × (handle_offer api to_string peer
            (record { sdp = sdp; sdp_type = answer })
            link
          ≡ (link', ok tt))
        × (link'.outbox ≡ link.outbox)
        × Live api signaling stable (some (described answer sdp)) link'
  unfolding handle_offer type_eq
  handle_offer-answer peer link offered sdp live local fits =
      let description : SessionDescription = record { sdp = sdp; sdp_type = answer } in
      let moves = laws.remote_answer offered sdp live.at local fits in
      let n = link.connection_counters in
      (
        record link { pc = (api.set_remote_description (described answer sdp) link.pc).0 },
        rw
            (
              get_remote_description-none api link.pc n live.at.has_remote,
              set_remote_description-Moves api signaling description link.pc n moves,
            )
            refl,
        refl,
        record { connected = live.connected; at = moves.moved },
      )

  make_answer-Live :
      (peer : Peer) (link : Link C D) (offered : List ℕ)
      → Live api signaling have_remote_offer (some (described offer offered)) link
      → (sdp : List ℕ) × (link' : Link C D) × (make_answer api to_string peer link ≡ (link', ok tt))
        × (link'.outbox
            ≡ link.outbox ++ offering peer (record { sdp = sdp; sdp_type = answer }) ∷ [])
        × signaling.Answer offered sdp
        × Live api signaling stable (some (described offer offered)) link'
  unfolding make_answer
  make_answer-Live peer link offered live =
      let n = link.connection_counters in
      let (sdp, e1, fits, last, made) =
        create_answer-have_remote_offer api signaling laws link.pc n offered live.at in
      let description : SessionDescription = record { sdp = sdp; sdp_type = answer } in
      let (c1, _) = api.create_answer none link.pc in
      let n1 = record n { answer_count = n.answer_count + 1 } in
      let moves = laws.local_answer sdp made last in
      let link1 = record link {
        pc = (api.set_local_description (described answer sdp) c1).0;
        connection_counters = n1;
      } in
      (
        sdp,
        record link1 { outbox = link.outbox ++ offering peer description ∷ [] },
        rw
            (
              e1,
              set_local_description-Moves api signaling description c1 n1 moves,
              send_peer_request-Live api to_string serializes link1
                  (forward peer.host_peer_id (some peer.id) (web_rtc_offer peer.id description))
                  live.connected,
            )
            refl,
        refl,
        fits,
        record { connected = live.connected; at = moves.moved },
      )

  -- A peer at rest, that has no remote description yet, answers an offer: the answer is sent, once,
  -- and the peer is at rest with the offer as its remote description.
  pub handle_offer-offer :
      (peer : Peer) (link : Link C D) (sdp : List ℕ)
      → Live api signaling stable none link
      → signaling.Offer sdp
      → (reply : List ℕ) × (link' : Link C D) × (handle_offer api to_string peer
            (record { sdp = sdp; sdp_type = offer })
            link
          ≡ (link', ok tt))
        × (link'.outbox
            ≡ link.outbox ++ offering peer (record { sdp = reply; sdp_type = answer }) ∷ [])
        × signaling.Answer sdp reply
        × Live api signaling stable (some (described offer sdp)) link'
  unfolding handle_offer type_eq
  handle_offer-offer peer link sdp live proper =
      let description : SessionDescription = record { sdp = sdp; sdp_type = offer } in
      let moves = laws.remote_offer sdp live.at proper in
      let n = link.connection_counters in
      let link1 = record link {
        pc = (api.set_remote_description (described offer sdp) link.pc).0;
      } in
      let (reply, link', e, sent, fits, rests) =
        make_answer-Live peer link1 sdp (record { connected = live.connected; at = moves.moved }) in
      (
        reply,
        link',
        rw
            (
              get_remote_description-none api link.pc n live.at.has_remote,
              set_remote_description-Moves api signaling description link.pc n moves,
              e,
            )
            refl,
        sent,
        fits,
        rests,
      )

  -- Over a browser that follows the rules of signaling, and where each request serialises, the
  -- exchange of an offer and an answer completes. Between two peers at rest that have no remote
  -- description, with sockets that take messages: the caller offers, the other side answers what it
  -- is handed, and the caller takes the answer. No step fails, each side says exactly one thing, and
  -- both are at rest, each with what the other said as its remote description.
  pub handshake_completes :
      (a b : Peer) (caller callee : Link C D)
      → Live api signaling stable none caller
      → Live api signaling stable none callee
      → (sdp reply : List ℕ) × (caller1 caller2 callee1 : Link C D)
        × let offered : SessionDescription = record { sdp = sdp; sdp_type = offer } in
          let answered : SessionDescription = record { sdp = reply; sdp_type = answer } in
          (make_offer api to_string a caller ≡ (caller1, ok tt))
          × (handle_offer api to_string b offered callee ≡ (callee1, ok tt))
          × (handle_offer api to_string a answered caller1 ≡ (caller2, ok tt))
          × (caller2.outbox ≡ caller.outbox ++ offering a offered ∷ [])
          × (callee1.outbox ≡ callee.outbox ++ offering b answered ∷ [])
          × Live api signaling stable (some (described answer reply)) caller2
          × Live api signaling stable (some (described offer sdp)) callee1
  handshake_completes a b caller callee ready_a ready_b =
      let (sdp, caller1, e1, said, proper, local, waits) = make_offer-Live a caller ready_a in
      let (reply, callee1, e2, replied, fits, rests) =
        handle_offer-offer b callee sdp ready_b proper in
      let (caller2, e3, nothing_said, done) =
        handle_offer-answer a caller1 sdp reply waits local fits in
      (
        sdp,
        reply,
        caller1,
        caller2,
        callee1,
        (e1, e2, e3, nothing_said ∙ said, replied, done, rests),
      )

module _ {C D Js : Type 0} (api : ConnectionApi C D Js) (signaling : Signaling C)
    (refuses : AnswersOnlyOffers api signaling) (to_string : PeerRequest → Option (List ℕ)) where
  -- Over a browser that makes no answer where there is no offer to answer, a later offer is not
  -- taken. A peer at rest after an exchange keeps the remote description that
  -- it has, tries to answer nevertheless, and fails; nothing is sent.
  pub handle_offer_again :
      (peer : Peer) (link : Link C D) (old : SessionDescription) (sdp : List ℕ)
      → Live api signaling stable (some (to_rtc_description old)) link
      → (e : Js) × (link' : Link C D) × (handle_offer api to_string peer
            (record { sdp = sdp; sdp_type = offer })
            link
          ≡ (link', err (web_rtc (js_error e))))
        × (link'.outbox ≡ link.outbox)
        × Live api signaling stable (some (to_rtc_description old)) link'
  unfolding handle_offer make_answer type_eq
  handle_offer_again peer link old sdp live =
      let n = link.connection_counters in
      let (e, refused, stays) = create_answer-stable api signaling refuses link.pc n live.at in
      (
        e,
        record link { pc = (api.create_answer none link.pc).0 },
        rw (get_remote_description-some api link.pc n old live.at.has_remote, refused) refl,
        refl,
        record { connected = live.connected; at = stays },
      )

module _ {C D Js : Type 0} (api : ConnectionApi C D Js)
    (to_string : PeerRequest → Option (List ℕ)) where
  -- A candidate that arrives before the description is an error, and is not kept for later.
  pub handle_candidate_early :
      (peer : Peer) (link : Link C D) (candidate : IceCandidate)
      → api.remote_description link.pc ≡ none
      → handle_candidate api to_string peer candidate link ≡ (link, err remote_description_not_set)
  unfolding handle_candidate
  handle_candidate_early peer link candidate none_yet =
      rw (get_remote_description-none api link.pc link.connection_counters none_yet) refl

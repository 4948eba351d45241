-- ===== src/Webrtc/Signaling.antt =====
-- What the W3C's WebRTC says of the offer and answer exchange of a connection, as hypotheses, and
-- what the methods of sf-webrtc/src/peer_connection/mod.rs then do.
use sf_rs.Prelude.{ℕ, ◌+◌, List, ◌≡◌, refl, ap, Option, none, some, Outcome, ok, err}
use sf_rs.Webrtc.Errors.{WebRtcError, js_error}
use sf_rs.Webrtc.Sdp.{
  SdpType, offer, answer, SessionDescription, RtcSessionDescription, to_rtc_description, to_string,
  from_js_fields-to_string, from_rtc_description-to_rtc_description,
}
use sf_rs.Webrtc.Channel.{RtcDataChannelInit}
use sf_rs.Webrtc.Connection.{
  ConnectionApi, ConnectionCounters, present, create_offer, create_answer, set_remote_description,
  set_local_description, get_remote_description,
}

-- `web_sys::RtcSignalingState`.
pub data SignalingState : Type 0 where
  stable have_local_offer have_remote_offer : SignalingState
  have_local_pranswer have_remote_pranswer signaling_closed : SignalingState

abbrev pub described : SdpType → List ℕ → RtcSessionDescription
described type sdp = to_rtc_description (record { sdp = sdp; sdp_type = type })

-- What WebRTC's rules of signaling speak of, of which the code reads none: a connection's signaling
-- state, its local description, the last description that it made, and which texts are an offer and
-- an answer to an offer that a browser takes.
pub record Signaling (C : Type 0) : Type 1 where
  pub state_of : C → SignalingState
  pub local_description : C → Option RtcSessionDescription
  pub last_created : C → Option RtcSessionDescription
  pub Offer : List ℕ → Type 0
  pub Answer : (offered reply : List ℕ) → Type 0

module _ {C D Js : Type 0} (api : ConnectionApi C D Js) (signaling : Signaling C) where
  -- The state of a connection and the remote description that it has.
  pub record At (state : SignalingState) (remote : Option RtcSessionDescription) (c : C)
      : Type 0 where
    pub in_state : signaling.state_of c ≡ state
    pub has_remote : api.remote_description c ≡ remote

  -- A promise that gives a description of the type `type`, with a text that `Fits`, as the last one
  -- made, and leaves the connection where it is.
  pub record Describes (type : SdpType) (Fits : List ℕ → Type 0) (state : SignalingState)
      (remote : Option RtcSessionDescription) (r : C × Outcome Js Js) : Type 0 where
    pub value : Js
    pub sdp : List ℕ
    pub resolved : r.1 ≡ ok value
    pub fields : api.deserialize value ≡ ok (sdp, to_string type)
    pub fits : Fits sdp
    pub last : signaling.last_created r.0 ≡ some (described type sdp)
    pub stays : At state remote r.0

  -- A promise that is fulfilled and moves the connection.
  pub record Moves (state : SignalingState) (remote : Option RtcSessionDescription)
      (r : C × Outcome Js (Unit {0})) : Type 0 where
    pub fulfilled : r.1 ≡ ok tt
    pub moved : At state remote r.0

  -- In the state `stable` there is no offer to answer.
  unfoldable pub AnswersOnlyOffers : Type 0
  AnswersOnlyOffers =
      (remote : Option RtcSessionDescription) (c : C)
      → At stable remote c
      → (e : Js) × ((api.create_answer none c).1 ≡ err e)
        × At stable remote (api.create_answer none c).0

  -- A local description is taken as it was made, an offer from afar as it was made somewhere, and an
  -- answer from afar if it answers the offer that is the local description.
  pub record SignalingLaws : Type 0 where
    pub channel_stays :
        {state : SignalingState} {remote : Option RtcSessionDescription} {c : C} (label : List ℕ)
        (init : Option RtcDataChannelInit)
        → At state remote c
        → At state remote (api.create_data_channel label init c).0
    pub offers :
        {remote : Option RtcSessionDescription} {c : C}
        → At stable remote c
        → Describes offer signaling.Offer stable remote (api.create_offer none c)
    pub answers :
        {c : C} (sdp : List ℕ)
        → At have_remote_offer (some (described offer sdp)) c
        → Describes answer
            (signaling.Answer sdp)
            have_remote_offer
            (some (described offer sdp))
            (api.create_answer none c)
    pub local_offer :
        {remote : Option RtcSessionDescription} {c : C} (sdp : List ℕ)
        → At stable remote c
        → signaling.last_created c ≡ some (described offer sdp)
        → Moves have_local_offer remote (api.set_local_description (described offer sdp) c)
          × (signaling.local_description (api.set_local_description (described offer sdp) c).0
              ≡ some (described offer sdp))
    pub local_answer :
        {remote : Option RtcSessionDescription} {c : C} (sdp : List ℕ)
        → At have_remote_offer remote c
        → signaling.last_created c ≡ some (described answer sdp)
        → Moves stable remote (api.set_local_description (described answer sdp) c)
    pub remote_offer :
        {remote : Option RtcSessionDescription} {c : C} (sdp : List ℕ)
        → At stable remote c
        → signaling.Offer sdp
        → Moves have_remote_offer
            (some (described offer sdp))
            (api.set_remote_description (described offer sdp) c)
    pub remote_answer :
        {remote : Option RtcSessionDescription} {c : C} (sdp reply : List ℕ)
        → At have_local_offer remote c
        → signaling.local_description c ≡ some (described offer sdp)
        → signaling.Answer sdp reply
        → Moves stable
            (some (described answer reply))
            (api.set_remote_description (described answer reply) c)

module _ {C D Js : Type 0} (api : ConnectionApi C D Js) (signaling : Signaling C)
    (laws : SignalingLaws api signaling) where
  pub create_offer-stable :
      {remote : Option RtcSessionDescription} (c : C) (n : ConnectionCounters)
      → At api signaling stable remote c
      → (sdp : List ℕ) × (create_offer api none (c, n) ≡ (
        ((api.create_offer none c).0, record n { offer_count = n.offer_count + 1 }),
        ok (record { sdp = sdp; sdp_type = offer }),
      ))
        × signaling.Offer sdp
        × (signaling.last_created (api.create_offer none c).0 ≡ some (described offer sdp))
        × At api signaling stable remote (api.create_offer none c).0
  unfolding create_offer
  create_offer-stable c n at_rest =
      let made = laws.offers at_rest in
      (
        made.sdp,
        rw
            (
              made.resolved,
              made.fields,
              from_js_fields-to_string {E = WebRtcError Js} made.sdp offer,
            )
            refl,
        made.fits,
        made.last,
        made.stays,
      )

  pub create_answer-have_remote_offer :
      (c : C) (n : ConnectionCounters) (offered : List ℕ)
      → At api signaling have_remote_offer (some (described offer offered)) c
      → (sdp : List ℕ) × (create_answer api none (c, n) ≡ (
        ((api.create_answer none c).0, record n { answer_count = n.answer_count + 1 }),
        ok (record { sdp = sdp; sdp_type = answer }),
      ))
        × signaling.Answer offered sdp
        × (signaling.last_created (api.create_answer none c).0 ≡ some (described answer sdp))
        × At api signaling have_remote_offer
            (some (described offer offered))
            (api.create_answer none c).0
  unfolding create_answer
  create_answer-have_remote_offer c n offered has_offer =
      let made = laws.answers offered has_offer in
      (
        made.sdp,
        rw
            (
              made.resolved,
              made.fields,
              from_js_fields-to_string {E = WebRtcError Js} made.sdp answer,
            )
            refl,
        made.fits,
        made.last,
        made.stays,
      )

module _ {C D Js : Type 0} (api : ConnectionApi C D Js) (signaling : Signaling C)
    (refuses : AnswersOnlyOffers api signaling) where
  pub create_answer-stable :
      {remote : Option RtcSessionDescription} (c : C) (n : ConnectionCounters)
      → At api signaling stable remote c
      → (e : Js) × (create_answer api none (c, n)
          ≡ (((api.create_answer none c).0, n), err (js_error e)))
        × At api signaling stable remote (api.create_answer none c).0
  unfolding create_answer AnswersOnlyOffers
  create_answer-stable {remote} c n at_rest =
      let (e, refused, stays) = refuses remote c at_rest in (e, rw refused refl, stays)

module _ {C D Js : Type 0} (api : ConnectionApi C D Js) (signaling : Signaling C) where
  pub set_local_description-Moves :
      {state : SignalingState} {remote : Option RtcSessionDescription}
      (description : SessionDescription) (c : C) (n : ConnectionCounters)
      → Moves api signaling state remote
          (api.set_local_description (to_rtc_description description) c)
      → set_local_description api description (c, n)
        ≡ (((api.set_local_description (to_rtc_description description) c).0, n), ok tt)
  unfolding set_local_description
  set_local_description-Moves description c n moves = rw (moves.fulfilled) refl

  pub set_remote_description-Moves :
      {state : SignalingState} {remote : Option RtcSessionDescription}
      (description : SessionDescription) (c : C) (n : ConnectionCounters)
      → Moves api signaling state remote
          (api.set_remote_description (to_rtc_description description) c)
      → set_remote_description api description (c, n)
        ≡ (((api.set_remote_description (to_rtc_description description) c).0, n), ok tt)
  unfolding set_remote_description
  set_remote_description-Moves description c n moves = rw (moves.fulfilled) refl

module _ {C D Js : Type 0} (api : ConnectionApi C D Js) where
  pub get_remote_description-none :
      (c : C) (n : ConnectionCounters)
      → api.remote_description c ≡ none
      → get_remote_description api (c, n) ≡ ((c, n), ok none)
  unfolding get_remote_description
  get_remote_description-none c n e = rw e refl

  pub get_remote_description-some :
      (c : C) (n : ConnectionCounters) (s : SessionDescription)
      → api.remote_description c ≡ some (to_rtc_description s)
      → get_remote_description api (c, n) ≡ ((c, n), ok (some s))
  unfolding get_remote_description
  get_remote_description-some c n s e =
      rw e (ap (λ r. ((c, n), present api r)) (from_rtc_description-to_rtc_description s))

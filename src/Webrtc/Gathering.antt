-- ===== src/Webrtc/Gathering.antt =====
-- sf-webrtc/src/peer_connection/futures.rs: what the streams of a connection convert its events to.
-- The listener and the polling are those of `make_event_stream!`, as in Events.
use sf_rs.Prelude.{List, [], ◌∷◌, ◌≡◌, refl, ap, Option, none, some, Outcome, ok}
use sf_rs.Webrtc.Errors.{WebRtcError}
use sf_rs.Webrtc.Ice.{IceCandidate, RtcIceCandidate, from_web_sys, end_of_candidates}
use sf_rs.Webrtc.Events.{converted}

-- A browser that gathers some candidates and says that it has them all makes these events, and
-- the stream has these items.
abbrev pub gathering : List RtcIceCandidate → List (Option (Option RtcIceCandidate))
gathering [] = some none ∷ []
gathering (c ∷ cs) = some (some c) ∷ gathering cs

module _ {Js : Type 0} where
  -- `ice_candidate_stream`; the candidate of the event is null at the end.
  unfoldable pub ice_candidate_logic :
      Option RtcIceCandidate → Unit {0} → Unit {0} × Option (Outcome (WebRtcError Js) IceCandidate)
  unfolding from_web_sys end_of_candidates
  ice_candidate_logic (some candidate) u = (u, some (ok (from_web_sys candidate)))
  ice_candidate_logic none u = (u, some (ok end_of_candidates))

  abbrev pub gathered : List RtcIceCandidate → List (Outcome (WebRtcError Js) IceCandidate)
  gathered [] = ok end_of_candidates ∷ []
  gathered (c ∷ cs) = ok (from_web_sys c) ∷ gathered cs

  pub converted-gathering :
      (cs : List RtcIceCandidate)
      → converted ice_candidate_logic (gathering cs) tt ≡ (tt, gathered cs)
  unfolding converted ice_candidate_logic
  converted-gathering [] = refl
  converted-gathering (c ∷ cs) = ap (λ r. (r.0, ok (from_web_sys c) ∷ r.1)) (converted-gathering cs)

-- `data_channel_stream` and `negotiation_needed_stream`.
unfoldable pub data_channel_logic : {D : Type 0} → D → Unit {0} → Unit {0} × Option D
data_channel_logic channel u = (u, some channel)

unfoldable pub negotiation_needed_logic : {E : Type 0} → E → Unit {0} → Unit {0} × Option (Unit {0})
negotiation_needed_logic event u = (u, some tt)

-- The four streams of states: the event's target, if it has one and it is a connection, is asked
-- for its state.
unfoldable pub target_state_logic :
    {C State : Type 0} → (C → State) → Option C → Unit {0} → Unit {0} × Option State
target_state_logic state none u = (u, none)
target_state_logic state (some pc) u = (u, some (state pc))

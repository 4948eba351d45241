-- ===== src/Protocol.antt =====
-- sf-protocol: the events and requests that peers and server exchange.
use sf_rs.Prelude.{
  ℕ, List, [], ◌∷◌, ◌++◌, Bool, true, false, ◌≡◌, ◌↔◌, ◌&&◌, refl, sym, ap, ap₂, arith, bytes_eq,
  bytes_eq_refl, bytes_eq→eq, codes, ◌==◌, ==_iff, ==_refl, if◌then◌else◌, Option, none, some,
}
use sf_rs.PeerId.Base.{PeerId, visible, peer_eq, peer_eq_iff}
use sf_rs.PeerId.Text.{display}
use sf_rs.Webrtc.Sdp.{SessionDescription, description_eq, description_eq_iff}
use sf_rs.Webrtc.Ice.{IceCandidate}
mod Tests

pub data PeerEvent : Type 0 where
  new_peer : PeerId → PeerEvent
  message : PeerId → List ℕ → PeerEvent
  web_rtc_offer : PeerId → SessionDescription → PeerEvent
  web_rtc_candidate : PeerId → IceCandidate → PeerEvent

pub data PeerRequest : Type 0 where
  keep_alive : PeerRequest
  forward : (from_peer_id : PeerId) → (to_peer_id : Option PeerId) → PeerEvent → PeerRequest

-- `PeerRequest::new_forward`.
unfoldable pub new_forward : PeerId → Option PeerId → PeerEvent → PeerRequest
new_forward from to event = forward from to event

-- The derived `PartialEq` of an `Option`.
unfoldable pub option_eq {ℓ} : {A : Type ℓ} → (A → A → Bool) → Option A → Option A → Bool
option_eq eq none none = true
option_eq eq (some a) (some b) = eq a b
option_eq eq _ _ = false

-- The derived `PartialEq` of `IceCandidate`.
unfoldable pub candidate_eq : IceCandidate → IceCandidate → Bool
unfolding option_eq
candidate_eq a b =
    option_eq bytes_eq a.candidate b.candidate
    && (option_eq ◌==◌ a.sdp_m_line_index b.sdp_m_line_index
        && option_eq bytes_eq a.sdp_mid b.sdp_mid)

-- The derived `PartialEq` of `PeerEvent`.
unfoldable pub event_eq : PeerEvent → PeerEvent → Bool
unfolding candidate_eq
event_eq (new_peer a) (new_peer b) = peer_eq a b
event_eq (message a m) (message b n) = peer_eq a b && bytes_eq m n
event_eq (web_rtc_offer a d) (web_rtc_offer b e) = peer_eq a b && description_eq d e
event_eq (web_rtc_candidate a c) (web_rtc_candidate b d) = peer_eq a b && candidate_eq c d
event_eq _ _ = false

-- `impl PartialEq for PeerRequest`.
unfoldable pub request_eq : PeerRequest → PeerRequest → Bool
unfolding option_eq event_eq
request_eq keep_alive keep_alive = true
request_eq (forward f1 t1 d1) (forward f2 t2 d2) =
    peer_eq f1 f2 && (option_eq peer_eq t1 t2 && event_eq d1 d2)
request_eq _ _ = false

-- `impl Display for PeerRequest`; what `{:?}` prints of the target and of the event is given.
unfoldable pub display_request :
    (Option PeerId → List ℕ) → (PeerEvent → List ℕ) → PeerRequest → List ℕ
display_request debug_to debug_data keep_alive = codes "KeepAlive"
display_request debug_to debug_data (forward from to event) =
    codes "Forward { from_peer_id: "
    ++ display from
    ++ codes ", to_peer_id: "
    ++ debug_to to
    ++ codes ", data: "
    ++ debug_data event
    ++ codes " }"

-- An identifier without the bytes behind its size.
abbrev pub shown : PeerId → PeerId
shown id = record id { bytes = visible id }

abbrev pub shown_to : Option PeerId → Option PeerId
shown_to none = none
shown_to (some id) = some (shown id)

abbrev pub shown_event : PeerEvent → PeerEvent
shown_event (new_peer a) = new_peer (shown a)
shown_event (message a m) = message (shown a) m
shown_event (web_rtc_offer a d) = web_rtc_offer (shown a) d
shown_event (web_rtc_candidate a c) = web_rtc_candidate (shown a) c

abbrev pub shown_request : PeerRequest → PeerRequest
shown_request keep_alive = keep_alive
shown_request (forward from to event) = forward (shown from) (shown_to to) (shown_event event)

shown_iff : (a b : PeerId) → (peer_eq a b ≡ true) ↔ (shown a ≡ shown b)
shown_iff a b = (
  λ h. let (e, v) = (peer_eq_iff a b).0 h in ground (arith, e, v),
  λ h. (peer_eq_iff a b).1 (cc, cc),
)

option_eq_iff {ℓ} :
    {A : Type ℓ} (eq : A → A → Bool)
    → ((a b : A) → (eq a b ≡ true) ↔ (a ≡ b))
    → (x y : Option A) → (option_eq eq x y ≡ true) ↔ (x ≡ y)
unfolding option_eq
option_eq_iff eq iff none none = (λ _. refl, λ _. refl)
option_eq_iff eq iff none (some b) = (λ h. cc, λ h. cc)
option_eq_iff eq iff (some a) none = (λ h. cc, λ h. cc)
option_eq_iff eq iff (some a) (some b) = (λ h. ap some ((iff a b).0 h), λ h. (iff a b).1 (cc))

bytes_eq_iff : (a b : List ℕ) → (bytes_eq a b ≡ true) ↔ (a ≡ b)
bytes_eq_iff a b = (bytes_eq→eq a b, λ e. rw e (bytes_eq_refl b))

candidate_eq_iff : (a b : IceCandidate) → (candidate_eq a b ≡ true) ↔ (a ≡ b)
unfolding candidate_eq
candidate_eq_iff a b =
    let texts = option_eq_iff bytes_eq bytes_eq_iff in
    let text = texts a.candidate b.candidate in
    let mid = texts a.sdp_mid b.sdp_mid in
    let line = option_eq_iff ◌==◌ ==_iff a.sdp_m_line_index b.sdp_m_line_index in
    (λ h. ground (arith, text, mid, line), λ h. ground (arith, text, mid, line))

event_eq_iff : (a b : PeerEvent) → (event_eq a b ≡ true) ↔ (shown_event a ≡ shown_event b)
unfolding event_eq
event_eq_iff (new_peer a) (new_peer b) = ground (arith, shown_iff a b)
event_eq_iff (message a m) (message b n) = ground (arith, shown_iff a b, bytes_eq_iff m n)
event_eq_iff (web_rtc_offer a d) (web_rtc_offer b e) =
    ground (arith, shown_iff a b, description_eq_iff d e)
event_eq_iff (web_rtc_candidate a c) (web_rtc_candidate b d) =
    ground (arith, shown_iff a b, candidate_eq_iff c d)
event_eq_iff _ _ = ground arith

shown_to_iff : (x y : Option PeerId) → (option_eq peer_eq x y ≡ true) ↔ (shown_to x ≡ shown_to y)
unfolding option_eq
shown_to_iff none none = ground arith
shown_to_iff none (some b) = ground arith
shown_to_iff (some a) none = ground arith
shown_to_iff (some a) (some b) = ground (arith, shown_iff a b)

-- Two requests compare equal exactly when they agree up to the bytes that an identifier hides behind
-- its size; so the handwritten comparison is an equivalence relation.
pub request_eq_iff :
    (a b : PeerRequest) → (request_eq a b ≡ true) ↔ (shown_request a ≡ shown_request b)
unfolding request_eq
request_eq_iff keep_alive keep_alive = ground arith
request_eq_iff (forward f t d) (forward f' t' d') =
    ground (arith, shown_iff f f', shown_to_iff t t', event_eq_iff d d')
request_eq_iff _ _ = ground arith

-- ===== src/Webrtc/Sdp.antt =====
-- sf-webrtc/src/sdp_type.rs and sdp.rs: the kind of a session description, and its conversions.
use sf_rs.Prelude.{
  ℕ, List, Bool, true, false, ◌≡◌, refl, ◌↔◌, ◌&&◌, arith, bytes_eq, bytes_eq_refl, bytes_eq→eq,
  codes, if◌then◌else◌, Outcome, ok, panic, ◌>>=◌,
}

pub data SdpType : Type 0 where
  offer answer pranswer rollback : SdpType

-- `web_sys::RtcSdpType`; the binding is non-exhaustive, `other` is any further value.
pub data RtcSdpType : Type 0 where
  rtc_offer rtc_answer rtc_pranswer rtc_rollback rtc_other : RtcSdpType

-- `impl From<RtcSdpType> for SdpType`; the last arm is `unreachable!()`.
unfoldable pub from_rtc {ℓ} : {E : Type ℓ} → RtcSdpType → Outcome E SdpType
from_rtc rtc_offer = ok offer
from_rtc rtc_answer = ok answer
from_rtc rtc_pranswer = ok pranswer
from_rtc rtc_rollback = ok rollback
from_rtc rtc_other = panic

-- `impl From<SdpType> for RtcSdpType`.
unfoldable pub to_rtc : SdpType → RtcSdpType
to_rtc offer = rtc_offer
to_rtc answer = rtc_answer
to_rtc pranswer = rtc_pranswer
to_rtc rollback = rtc_rollback

-- `impl From<SdpType> for String`.
unfoldable pub to_string : SdpType → List ℕ
to_string offer = codes "offer"
to_string answer = codes "answer"
to_string pranswer = codes "pranswer"
to_string rollback = codes "rollback"

-- `impl From<String> for SdpType`; the last arm is `unreachable!()`.
unfoldable pub from_string {ℓ} : {E : Type ℓ} → List ℕ → Outcome E SdpType
from_string value =
    if bytes_eq value (codes "offer")
    then ok offer
    else if bytes_eq value (codes "answer")
    then ok answer
    else if bytes_eq value (codes "pranswer")
    then ok pranswer
    else if bytes_eq value (codes "rollback")
    then ok rollback
    else panic

pub record SessionDescription : Type 0 where
  pub sdp : List ℕ
  pub sdp_type : SdpType

-- `web_sys::RtcSessionDescription` and the `Init` dictionary, as far as they are set.
pub record RtcSessionDescription : Type 0 where
  pub rtc_sdp : List ℕ
  pub rtc_type : RtcSdpType

-- `session_description_to_rtc_descritpion_init`, and `TryFrom<SessionDescription>` for the object.
unfoldable pub to_rtc_description : SessionDescription → RtcSessionDescription
to_rtc_description s = record { rtc_sdp = s.sdp; rtc_type = to_rtc s.sdp_type }

-- `TryFrom<RtcSessionDescription> for SessionDescription`.
unfoldable pub from_rtc_description {ℓ} :
    {E : Type ℓ} → RtcSessionDescription → Outcome E SessionDescription
from_rtc_description r = do
  sdp_type ← from_rtc r.rtc_type
  ok (record { sdp = r.rtc_sdp; sdp_type = sdp_type })

-- `TryFrom<JsValue>`, past serde: the fields `sdp` and `type` of the value.
unfoldable pub from_js_fields {ℓ} : {E : Type ℓ} → List ℕ → List ℕ → Outcome E SessionDescription
from_js_fields sdp type = do
  sdp_type ← from_string type
  ok (record { sdp = sdp; sdp_type = sdp_type })

-- The derived `PartialEq` of `SdpType`.
unfoldable pub type_eq : SdpType → SdpType → Bool
type_eq offer offer = true
type_eq answer answer = true
type_eq pranswer pranswer = true
type_eq rollback rollback = true
type_eq _ _ = false

-- The derived `PartialEq` of `SessionDescription`.
unfoldable pub description_eq : SessionDescription → SessionDescription → Bool
unfolding type_eq
description_eq a b = bytes_eq a.sdp b.sdp && type_eq a.sdp_type b.sdp_type

pub description_eq_iff : (a b : SessionDescription) → (description_eq a b ≡ true) ↔ (a ≡ b)
unfolding description_eq
description_eq_iff a b = (
  λ h. let e : a.sdp ≡ b.sdp = bytes_eq→eq a.sdp b.sdp (ground arith) in ground (arith, e),
  λ h. ground (arith, h, bytes_eq_refl a.sdp),
)

pub from_js_fields-to_string {ℓ} :
    {E : Type ℓ} (sdp : List ℕ) (type : SdpType)
    → from_js_fields {E = E} sdp (to_string type) ≡ ok (record { sdp = sdp; sdp_type = type })
unfolding from_js_fields from_string to_string bytes_eq
from_js_fields-to_string sdp offer = refl
from_js_fields-to_string sdp answer = refl
from_js_fields-to_string sdp pranswer = refl
from_js_fields-to_string sdp rollback = refl

pub from_rtc_description-to_rtc_description {ℓ} :
    {E : Type ℓ} (s : SessionDescription)
    → from_rtc_description {E = E} (to_rtc_description s) ≡ ok s
unfolding from_rtc_description to_rtc_description from_rtc to_rtc
from_rtc_description-to_rtc_description s = ground arith

-- A description survives the way to the browser's object and back, and so does its type as text.
pub description_round_trip :
    (s : SessionDescription)
    → (from_rtc_description {E = Unit {0}} (to_rtc_description s) ≡ ok s)
      × (from_js_fields {E = Unit {0}} s.sdp (to_string s.sdp_type) ≡ ok s)
unfolding from_rtc_description to_rtc_description from_js_fields from_rtc to_rtc to_string
    from_string bytes_eq
description_round_trip s = ground arith

-- A text is read as the type `t` exactly when it is the text that `t` prints as.
pub from_string_ok :
    (value : List ℕ) (t : SdpType)
    → (from_string {E = Unit {0}} value ≡ ok t) ↔ (value ≡ to_string t)
unfolding from_string to_string bytes_eq
from_string_ok value offer = (λ h. bytes_eq→eq value (codes "offer") (ground arith), λ e. rw e)
from_string_ok value answer = (λ h. bytes_eq→eq value (codes "answer") (ground arith), λ e. rw e)
from_string_ok value pranswer =
    (λ h. bytes_eq→eq value (codes "pranswer") (ground arith), λ e. rw e)
from_string_ok value rollback =
    (λ h. bytes_eq→eq value (codes "rollback") (ground arith), λ e. rw e)

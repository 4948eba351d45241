-- ===== src/Webrtc/Ice.antt =====
-- sf-webrtc/src/ice.rs.
use sf_rs.Prelude.{
  ℕ, List, Bool, true, false, ◌≡◌, ◌⊎◌, inl, inr, Option-cases, arith, if◌then◌else◌, Option, none,
  some, Outcome, ok, err, panic, ◌>>=◌,
}
use sf_rs.Webrtc.Errors.{WebRtcError, js_error, end_of_candidates_error}

pub record IceCandidate : Type 0 where
  pub candidate : Option (List ℕ)
  pub sdp_m_line_index : Option ℕ  -- u16
  pub sdp_mid : Option (List ℕ)

unfoldable pub end_of_candidates : IceCandidate
end_of_candidates = record { candidate = none; sdp_m_line_index = none; sdp_mid = none }

abbrev is_none {ℓ} : {A : Type ℓ} → Option A → Bool
is_none none = true
is_none (some a) = false

unfoldable pub is_end_of_candidates : IceCandidate → Bool
is_end_of_candidates c = is_none c.candidate

-- `web_sys::RtcIceCandidate`, and the dictionary that it is made of.
pub record RtcIceCandidate : Type 0 where
  pub rtc_candidate : List ℕ
  pub rtc_sdp_mid : Option (List ℕ)
  pub rtc_sdp_m_line_index : Option ℕ

abbrev unwrap {ℓ κ} : {E : Type ℓ} {A : Type κ} → Option A → Outcome E A
unwrap none = panic
unwrap (some a) = ok a

module _ {Js : Type 0} (create : RtcIceCandidate → Outcome Js RtcIceCandidate) where
  abbrev or_js_error : Outcome Js RtcIceCandidate → Outcome (WebRtcError Js) RtcIceCandidate
  or_js_error (ok c) = ok c
  or_js_error (err e) = err (js_error e)
  or_js_error panic = panic

  -- `ice_candidate_to_web_sys`; `create` is the constructor of the browser.
  unfoldable pub to_web_sys : IceCandidate → Outcome (WebRtcError Js) RtcIceCandidate
  unfolding is_end_of_candidates
  to_web_sys c = if is_end_of_candidates c then err end_of_candidates_error else do
    text ← unwrap c.candidate
    or_js_error (
        create (record {
          rtc_candidate = text;
          rtc_sdp_mid = c.sdp_mid;
          rtc_sdp_m_line_index = c.sdp_m_line_index;
        }))

-- `TryFrom<RtcIceCandidate> for IceCandidate`.
unfoldable pub from_web_sys : RtcIceCandidate → IceCandidate
from_web_sys r = record {
  candidate = some r.rtc_candidate;
  sdp_m_line_index = r.rtc_sdp_m_line_index;
  sdp_mid = r.rtc_sdp_mid;
}

-- With a constructor that keeps what it is given, a candidate either ends the candidates and is
-- refused as that, or is converted, and comes back unchanged: the `unwrap` never panics.
pub to_web_sys_total :
    {Js : Type 0} (create : RtcIceCandidate → Outcome Js RtcIceCandidate) (c : IceCandidate)
    → ((r : RtcIceCandidate) → create r ≡ ok r)
    → ((is_end_of_candidates c ≡ true) × (to_web_sys create c ≡ err end_of_candidates_error))
      ⊎ ((r : RtcIceCandidate) × (to_web_sys create c ≡ ok r) × (from_web_sys r ≡ c))
unfolding to_web_sys from_web_sys
to_web_sys_total create c keeps = elim (Option-cases c.candidate) [
  | inl e ↦ inl (ground (arith, e), ground (arith, e))
  | inr (text, e) ↦
      let r : RtcIceCandidate = record {
        rtc_candidate = text;
        rtc_sdp_mid = c.sdp_mid;
        rtc_sdp_m_line_index = c.sdp_m_line_index;
      } in
      inr (r, ground (arith, e, keeps r), ground (arith, e))
]

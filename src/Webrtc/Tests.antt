-- ===== src/Webrtc/Tests.antt =====
-- sf-webrtc: conversions at concrete values.
use sf_rs.Prelude.{
  ℕ, List, [], ◌∷◌, ◌+◌, Option, length, ltb, if◌then◌else◌, true, ◌≡◌, ◌↔◌, ◌⊎◌, refl, none, some,
  codes, Outcome, ok, err,
}
use sf_rs.Webrtc.Sdp.{
  SessionDescription, pranswer, offer, to_string, from_string, from_string_ok,
  description_round_trip, to_rtc_description, from_rtc_description, from_js_fields, description_eq,
  description_eq_iff,
}
use sf_rs.Webrtc.Errors.{end_of_candidates_error}
use sf_rs.Webrtc.Errors.{opened}
use sf_rs.Webrtc.Events.{pending, on_events, converted, drain, poll_next, poll_next-on_events}
use sf_rs.Webrtc.Channel.{
  Payload, u8_array, str, array_buffer, ChannelApi, ChannelCounters, send, send_str,
  send_array_buffer,
}
use sf_rs.Webrtc.Streams.{EventData, js_string, js_blob, message_logic}
use sf_rs.Webrtc.Traffic.{accepted, accepted_bytes, send_all, send_all_counts}
use sf_rs.Webrtc.Ice.{
  IceCandidate, RtcIceCandidate, is_end_of_candidates, to_web_sys, from_web_sys, to_web_sys_total,
}

abbrev description : SessionDescription
description = record { sdp = codes "v=0"; sdp_type = pranswer }

description_round_trip_example :
    (from_rtc_description {E = Unit {0}} (to_rtc_description description) ≡ ok description)
    × (from_js_fields {E = Unit {0}} (codes "v=0") (to_string pranswer) ≡ ok description)
description_round_trip_example = description_round_trip description

description_eq_iff_example :
    (description_eq description (record description { sdp_type = offer }) ≡ true)
    ↔ (description ≡ record description { sdp_type = offer })
description_eq_iff_example =
    description_eq_iff description (record description { sdp_type = offer })

from_string_ok_example :
    (from_string {E = Unit {0}} (codes "offer") ≡ ok offer) ↔ (codes "offer" ≡ to_string offer)
from_string_ok_example = from_string_ok (codes "offer") offer

abbrev candidate : IceCandidate
candidate = record { candidate = some (codes "udp 1"); sdp_m_line_index = some 0; sdp_mid = none }

abbrev keep : RtcIceCandidate → Outcome ℕ RtcIceCandidate
keep r = ok r

to_web_sys_total_example :
    ((is_end_of_candidates candidate ≡ true)
      × (to_web_sys keep candidate ≡ err end_of_candidates_error))
    ⊎ ((r : RtcIceCandidate) × (to_web_sys keep candidate ≡ ok r) × (from_web_sys r ≡ candidate))
to_web_sys_total_example = to_web_sys_total keep candidate (λ r. refl)

-- A channel of the tests is what it was sent; it takes two payloads, and the number 9 is its error.
abbrev two_payloads : ChannelApi (List Payload) ℕ
two_payloads = record {
  label = λ d. codes "sf-channel";
  ready_state = λ d. opened;
  send = λ p d. if ltb (length d) 2 then (p ∷ d, ok tt) else (d, err 9);
  close = λ d. d;
}

abbrev no_traffic : ChannelCounters
no_traffic = record { message_count = 0; message_bytes = 0 }

abbrev payloads : List Payload
payloads = str (codes "abc") ∷ u8_array (1 ∷ 2 ∷ []) ∷ array_buffer (7 ∷ []) ∷ []

send_all_counts_example :
    let ((d, c), log) = send_all two_payloads payloads ([], no_traffic) in
    (c.message_count ≡ 0 + accepted log) × (c.message_bytes ≡ 0 + accepted_bytes log)
send_all_counts_example = send_all_counts two_payloads payloads [] no_traffic

send_all_two :
    let ((d, c), log) = send_all two_payloads payloads ([], no_traffic) in
    (c.message_count ≡ 2) × (c.message_bytes ≡ 5)
unfolding send send_str send_array_buffer
send_all_two = (refl, refl)

abbrev arrivals : List (Option EventData)
arrivals = some (js_string (some (codes "hi"))) ∷ none ∷ some js_blob ∷ []

poll_next-on_events_example :
    let (c, queue) = on_events (message_logic {Js = ℕ}) arrivals (no_traffic, []) in
    let (expected, items) = converted (message_logic {Js = ℕ}) arrivals no_traffic in
    (c ≡ expected)
    × (drain (length queue) queue ≡ (items, []))
    × (poll_next (drain (length queue) queue).1 ≡ (pending, []))
poll_next-on_events_example = poll_next-on_events (message_logic {Js = ℕ}) arrivals no_traffic []

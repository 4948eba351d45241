-- ===== src/Webrtc/Errors.antt =====
-- sf-webrtc/src/errors.rs.
use sf_rs.Prelude.{ℕ, List, Option, Bool, true, false}

-- `web_sys::RtcDataChannelState`.
pub data ChannelState : Type 0 where
  connecting opened closing closed : ChannelState

-- `==` on the states, against `Open` and against `Closed`.
abbrev pub is_open : ChannelState → Bool
is_open opened = true
is_open connecting = false
is_open closing = false
is_open closed = false

abbrev pub is_over : ChannelState → Bool
is_over closed = true
is_over connecting = false
is_over opened = false
is_over closing = false

-- `WebRTCError`; a `JsValue` is the browser's, of a type given by its caller.
pub data WebRtcError (Js : Type 0) : Type 0 where
  js_error : Js → WebRtcError Js
  serde_error : Js → WebRtcError Js
  end_of_candidates_error : WebRtcError Js
  data_channel_send : Js → WebRtcError Js
  data_channel_not_open : Option ChannelState → WebRtcError Js
  data_channel_invalid_data_type : WebRtcError Js
  event_error : List ℕ → WebRtcError Js

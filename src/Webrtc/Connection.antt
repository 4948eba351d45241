-- ===== src/Webrtc/Connection.antt =====
-- sf-webrtc/src/peer_connection/mod.rs. The connection itself is the browser's, `ConnectionApi`; a
-- promise is awaited at once, so that a method is one step.
use sf_rs.Prelude.{
  ℕ, ◌+◌, List, Bool, true, false, Option, none, some, Outcome, ok, err, panic, map_err,
}
use sf_rs.Prelude.Action.{Action, ◌>>=◌, ◌>>◌, lift}
use sf_rs.Webrtc.Errors.{WebRtcError, js_error, serde_error}
use sf_rs.Webrtc.Sdp.{
  SessionDescription, RtcSessionDescription, to_rtc_description, from_rtc_description,
  from_js_fields,
}
use sf_rs.Webrtc.Ice.{IceCandidate, RtcIceCandidate, to_web_sys}
use sf_rs.Webrtc.Channel.{DataChannelConfig, RtcDataChannelInit, to_init}
use sf_rs.Webrtc.Servers.{IceServer, default_server, RtcIceServer, UrlCodec, to_configuration}

-- `web_sys::RtcPeerConnectionState`.
pub data ConnectionState : Type 0 where
  state_closed state_failed state_disconnected state_new state_connecting state_connected :
      ConnectionState

-- `web_sys::RtcPeerConnection`. `deserialize` is serde's reading of the fields `sdp` and `type`.
pub record ConnectionApi (C D Js : Type 0) : Type 0 where
  pub new_with_configuration : List (RtcIceServer Js) → Outcome Js C
  pub create_offer : Option Js → C → C × Outcome Js Js
  pub create_answer : Option Js → C → C × Outcome Js Js
  pub set_remote_description : RtcSessionDescription → C → C × Outcome Js (Unit {0})
  pub set_local_description : RtcSessionDescription → C → C × Outcome Js (Unit {0})
  pub create_data_channel : List ℕ → Option RtcDataChannelInit → C → C × D
  pub remote_description : C → Option RtcSessionDescription
  pub add_ice_candidate : RtcIceCandidate → C → C × Outcome Js (Unit {0})
  pub new_candidate : RtcIceCandidate → Outcome Js RtcIceCandidate
  pub connection_state : C → ConnectionState
  pub deserialize : Js → Outcome Js (List ℕ × List ℕ)

-- What a connection counts; a recorder adds up what all connections count under the same names.
pub record ConnectionCounters : Type 0 where
  pub offer_count : ℕ
  pub answer_count : ℕ
  pub ice_candidate_count : ℕ

module _ {C D Js : Type 0} (api : ConnectionApi C D Js) where
  abbrev pub Method : Type 0 → Type 0
  Method A = Action (C × ConnectionCounters) (WebRtcError Js) A

  -- `JsFuture::from(promise).await?`.
  abbrev awaited : {A : Type 0} → (C → C × Outcome Js A) → Method A
  awaited promise (c, n) = let (c', r) = promise c in ((c', n), map_err js_error r)

  abbrev count : (ConnectionCounters → ConnectionCounters) → Method (Unit {0})
  count more (c, n) = ((c, more n), ok tt)

  abbrev read : Outcome Js (List ℕ × List ℕ) → Outcome (WebRtcError Js) SessionDescription
  read (ok (sdp, type)) = from_js_fields sdp type
  read (err e) = err (serde_error e)
  read panic = panic

  -- `new` and `new_default`.
  abbrev opened_with :
      Outcome (WebRtcError Js) (List (RtcIceServer Js)) → Outcome (WebRtcError Js) C
  opened_with (ok servers) = map_err js_error (api.new_with_configuration servers)
  opened_with (err e) = err e
  opened_with panic = panic

  unfoldable pub new : UrlCodec Js → IceServer → Outcome (WebRtcError Js) C
  new codec ice_servers = opened_with (to_configuration codec ice_servers)

  unfoldable pub new_default : UrlCodec Js → Outcome (WebRtcError Js) C
  unfolding new
  new_default codec = new codec default_server

  -- `create_offer`: it is counted before its description is read.
  unfoldable pub create_offer : Option Js → Method SessionDescription
  create_offer options = do
    offer_js ← awaited (api.create_offer options)
    count (λ n. record n { offer_count = n.offer_count + 1 })
    lift (read (api.deserialize offer_js))

  -- `create_answer`.
  unfoldable pub create_answer : Option Js → Method SessionDescription
  create_answer options = do
    answer_js ← awaited (api.create_answer options)
    count (λ n. record n { answer_count = n.answer_count + 1 })
    lift (read (api.deserialize answer_js))

  -- `set_remote_description`.
  unfoldable pub set_remote_description : SessionDescription → Method (Unit {0})
  set_remote_description description =
      awaited (api.set_remote_description (to_rtc_description description))

  -- `set_local_description`.
  unfoldable pub set_local_description : SessionDescription → Method (Unit {0})
  set_local_description description =
      awaited (api.set_local_description (to_rtc_description description))

  abbrev init_of : Option DataChannelConfig → Option RtcDataChannelInit
  init_of none = none
  init_of (some config) = some (to_init config)

  -- `create_data_channel`.
  unfoldable pub create_data_channel : List ℕ → Option DataChannelConfig → Method D
  create_data_channel label config (c, n) =
      let (c', d) = api.create_data_channel label (init_of config) c in ((c', n), ok d)

  abbrev pub present :
      Outcome (WebRtcError Js) SessionDescription
      → Outcome (WebRtcError Js) (Option SessionDescription)
  present (ok s) = ok (some s)
  present (err e) = err e
  present panic = panic

  abbrev description_of :
      Option RtcSessionDescription → Outcome (WebRtcError Js) (Option SessionDescription)
  description_of none = ok none
  description_of (some r) = present (from_rtc_description r)

  -- `get_remote_description`.
  unfoldable pub get_remote_description : Method (Option SessionDescription)
  get_remote_description (c, n) = ((c, n), description_of (api.remote_description c))

  -- `add_ice_candidate`: a candidate is counted once it is converted, whatever the browser says.
  unfoldable pub add_ice_candidate : IceCandidate → Method (Unit {0})
  add_ice_candidate candidate = do
    rtc_candidate ← lift (to_web_sys api.new_candidate candidate)
    count (λ n. record n { ice_candidate_count = n.ice_candidate_count + 1 })
    awaited (api.add_ice_candidate rtc_candidate)

  abbrev over : ConnectionState → Bool
  over state_closed = true
  over state_failed = true
  over state_disconnected = false
  over state_new = false
  over state_connecting = false
  over state_connected = false

  -- `is_closed`.
  unfoldable pub is_closed : C → Bool
  is_closed c = over (api.connection_state c)

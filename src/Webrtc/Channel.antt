-- ===== src/Webrtc/Channel.antt =====
-- sf-webrtc/src/data_channel/mod.rs. The channel itself is the browser's, `ChannelApi`.
use sf_rs.Prelude.{
  ℕ, ◌+◌, List, Bool, true, false, Option, none, some, Outcome, ok, err, panic, length,
  if◌then◌else◌,
}
use sf_rs.Prelude.Action.{Action}
use sf_rs.Webrtc.Errors.{
  ChannelState, connecting, opened, closing, closed, is_open, WebRtcError, js_error,
  data_channel_not_open,
}

-- What the three `send` methods of the browser take.
pub data Payload : Type 0 where
  u8_array : List ℕ → Payload
  str : List ℕ → Payload
  array_buffer : List ℕ → Payload

-- `web_sys::RtcDataChannel`.
pub record ChannelApi (D Js : Type 0) : Type 0 where
  pub label : D → List ℕ
  pub ready_state : D → ChannelState
  pub send : Payload → D → D × Outcome Js (Unit {0})
  pub close : D → D

-- What a channel and its message stream count; a recorder adds up what all channels count under the
-- same names.
pub record ChannelCounters : Type 0 where
  pub message_count : ℕ
  pub message_bytes : ℕ

abbrev pub counted : ℕ → ChannelCounters → ChannelCounters
counted bytes c = record {
  message_count = c.message_count + 1;
  message_bytes = c.message_bytes + bytes;
}

module _ {D Js : Type 0} (api : ChannelApi D Js) where
  -- `map_err(WebRTCError::from)` and the `inspect` that counts a success.
  abbrev pub inspected :
      ℕ
      → ChannelCounters
      → D × Outcome Js (Unit {0})
      → (D × ChannelCounters) × Outcome (WebRtcError Js) (Unit {0})
  inspected bytes c (d, ok u) = ((d, counted bytes c), ok u)
  inspected bytes c (d, err e) = ((d, c), err (js_error e))
  inspected bytes c (d, panic) = ((d, c), panic)

  -- The body that the three methods share.
  unfoldable pub transmit : Payload → ℕ → Action (D × ChannelCounters) (WebRtcError Js) (Unit {0})
  transmit payload bytes (d, c) =
      if is_open (api.ready_state d)
      then inspected bytes c (api.send payload d)
      else ((d, c), err (data_channel_not_open (some (api.ready_state d))))

  -- `send`.
  unfoldable pub send : List ℕ → Action (D × ChannelCounters) (WebRtcError Js) (Unit {0})
  unfolding transmit
  send content = transmit (u8_array content) (length content)

  -- `send_str`; a text is its UTF-8 bytes.
  unfoldable pub send_str : List ℕ → Action (D × ChannelCounters) (WebRtcError Js) (Unit {0})
  unfolding transmit
  send_str content = transmit (str content) (length content)

  -- `send_array_buffer`.
  unfoldable pub send_array_buffer :
      List ℕ → Action (D × ChannelCounters) (WebRtcError Js) (Unit {0})
  unfolding transmit
  send_array_buffer content = transmit (array_buffer content) (length content)

  -- `is_closed`.
  abbrev over : ChannelState → Bool
  over connecting = false
  over opened = false
  over closing = true
  over closed = true

  unfoldable pub is_closed : D → Bool
  is_closed d = over (api.ready_state d)

-- `DataChannelConfig`, and the dictionary `RtcDataChannelInit` with the members that are set.
pub record DataChannelConfig : Type 0 where
  pub ordered : Option Bool
  pub max_packet_life_time : Option ℕ  -- u16
  pub max_retransmits : Option ℕ  -- u16
  pub protocol : Option (List ℕ)
  pub negotiated : Option Bool
  pub id : Option ℕ  -- u16

pub record RtcDataChannelInit : Type 0 where
  pub init_ordered : Option Bool
  pub init_max_packet_life_time : Option ℕ
  pub init_max_retransmits : Option ℕ
  pub init_protocol : Option (List ℕ)
  pub init_negotiated : Option Bool
  pub init_id : Option ℕ

-- `RtcDataChannelInit::new`.
abbrev pub new_init : RtcDataChannelInit
new_init = record {
  init_ordered = none;
  init_max_packet_life_time = none;
  init_max_retransmits = none;
  init_protocol = none;
  init_negotiated = none;
  init_id = none;
}

-- `if let Some(value) = option { init.set(value) }`.
abbrev if_some : {A I : Type 0} → Option A → (A → I → I) → I → I
if_some none set init = init
if_some (some value) set init = set value init

-- `TryFrom<DataChannelConfig> for RtcDataChannelInit`; it does not fail.
unfoldable pub to_init : DataChannelConfig → RtcDataChannelInit
to_init config =
    let i0 = new_init in
    let i1 = if_some config.ordered (λ v i. record i { init_ordered = some v }) i0 in
    let i2 =
      if_some config.max_packet_life_time (λ v i. record i { init_max_packet_life_time = some v })
        i1 in
    let i3 =
      if_some config.max_retransmits (λ v i. record i { init_max_retransmits = some v }) i2 in
    let i4 = if_some config.protocol (λ v i. record i { init_protocol = some v }) i3 in
    let i5 = if_some config.negotiated (λ v i. record i { init_negotiated = some v }) i4 in
    if_some config.id (λ v i. record i { init_id = some v }) i5

-- ===== src/Webrtc/Traffic.antt =====
-- sf-webrtc/src/data_channel: what the counters of the channels say, and how a stream of states ends.
use sf_rs.Prelude.{
  ℕ, ◌+◌, List, [], ◌∷◌, false, ◌≡◌, refl, inl, inr, some, Outcome, ok, err, panic, length, arith,
  Bool-cases,
}
use sf_rs.Prelude.Action.{Action}
use sf_rs.Webrtc.Errors.{ChannelState, opened, is_open, is_over, WebRtcError, data_channel_not_open}
use sf_rs.Webrtc.Channel.{
  Payload, u8_array, str, array_buffer, ChannelApi, ChannelCounters, inspected, transmit, send,
  send_str, send_array_buffer,
}
use sf_rs.Webrtc.Streams.{StateEvent, open_event, close_event}

abbrev pub payload_length : Payload → ℕ
payload_length (u8_array bytes) = length bytes
payload_length (str bytes) = length bytes
payload_length (array_buffer bytes) = length bytes

-- A payload with the result of sending it.
abbrev pub Sent : Type 0 → Type 0
Sent Js = Payload × Outcome (WebRtcError Js) (Unit {0})

module _ {Js : Type 0} where
  -- How many of the payloads were sent, and their bytes.
  abbrev pub accepted : List (Sent Js) → ℕ
  accepted [] = 0
  accepted ((p, ok u) ∷ rest) = 1 + accepted rest
  accepted ((p, err e) ∷ rest) = accepted rest
  accepted ((p, panic) ∷ rest) = accepted rest

  abbrev pub accepted_bytes : List (Sent Js) → ℕ
  accepted_bytes [] = 0
  accepted_bytes ((p, ok u) ∷ rest) = payload_length p + accepted_bytes rest
  accepted_bytes ((p, err e) ∷ rest) = accepted_bytes rest
  accepted_bytes ((p, panic) ∷ rest) = accepted_bytes rest

module _ {D Js : Type 0} (api : ChannelApi D Js) where
  -- A caller's method for each kind of payload.
  abbrev pub send_payload : Payload → Action (D × ChannelCounters) (WebRtcError Js) (Unit {0})
  send_payload (u8_array bytes) = send api bytes
  send_payload (str bytes) = send_str api bytes
  send_payload (array_buffer bytes) = send_array_buffer api bytes

  abbrev pub send_all : List Payload → D × ChannelCounters → (D × ChannelCounters) × List (Sent Js)
  send_all [] s = (s, [])
  send_all (p ∷ ps) s =
      let (s', r) = send_payload p s in let (s'', rest) = send_all ps s' in (s'', (p, r) ∷ rest)

  send_payload-transmit :
      (p : Payload) (s : D × ChannelCounters)
      → send_payload p s ≡ transmit api p (payload_length p) s
  unfolding send send_str send_array_buffer
  send_payload-transmit (u8_array bytes) s = refl
  send_payload-transmit (str bytes) s = refl
  send_payload-transmit (array_buffer bytes) s = refl

  inspected_counts :
      (p : Payload) (c : ChannelCounters) (r : D × Outcome Js (Unit {0}))
      → let ((d', c'), result) = inspected api (payload_length p) c r in
        (c'.message_count ≡ c.message_count + accepted ((p, result) ∷ []))
        × (c'.message_bytes ≡ c.message_bytes + accepted_bytes ((p, result) ∷ []))
  inspected_counts p c (d, ok u) = omega arith
  inspected_counts p c (d, err e) = omega arith
  inspected_counts p c (d, panic) = omega arith

  transmit_counts :
      (p : Payload) (d : D) (c : ChannelCounters)
      → let ((d', c'), result) = transmit api p (payload_length p) (d, c) in
        (c'.message_count ≡ c.message_count + accepted ((p, result) ∷ []))
        × (c'.message_bytes ≡ c.message_bytes + accepted_bytes ((p, result) ∷ []))
  unfolding transmit
  transmit_counts p d c = elim (Bool-cases (is_open (api.ready_state d))) [
    | inl e ↦ rw e (inspected_counts p c (api.send p d))
    | inr e ↦ rw e (omega arith, omega arith)
  ]

  accepted-cons :
      (s : Sent Js) (rest : List (Sent Js))
      → (accepted (s ∷ rest) ≡ accepted (s ∷ []) + accepted rest)
        × (accepted_bytes (s ∷ rest) ≡ accepted_bytes (s ∷ []) + accepted_bytes rest)
  accepted-cons (p, ok u) rest = omega arith
  accepted-cons (p, err e) rest = omega arith
  accepted-cons (p, panic) rest = omega arith

  -- Over a sequence of sends, whatever the browser answers, the message counter grows by the number
  -- of those that succeeded and the byte counter by the sum of their lengths.
  pub send_all_counts :
      (ps : List Payload) (d : D) (c : ChannelCounters)
      → let ((d', c'), log) = send_all ps (d, c) in
        (c'.message_count ≡ c.message_count + accepted log)
        × (c'.message_bytes ≡ c.message_bytes + accepted_bytes log)
  send_all_counts [] d c = omega arith
  send_all_counts (p ∷ ps) d c =
      let ((d1, c1), r) = send_payload p (d, c) in
      let (_, log) = send_all ps (d1, c1) in
      let (count, bytes) = rw (← send_payload-transmit p (d, c)) at (transmit_counts p d c) in
      omega (arith, count, bytes, send_all_counts ps d1 c1, accepted-cons (p, r) log)

  -- No payload is handed to the browser unless the channel is open: the error then has the state
  -- that the channel is in, and neither the channel nor a counter changes.
  pub send_payload_not_open :
      (p : Payload) (d : D) (c : ChannelCounters)
      → is_open (api.ready_state d) ≡ false
      → send_payload p (d, c) ≡ ((d, c), err (data_channel_not_open (some (api.ready_state d))))
  unfolding transmit
  send_payload_not_open p d c shut = rw (send_payload-transmit p (d, c), shut) refl

-- The states that the events carry.
abbrev pub states : List StateEvent → List ChannelState
states [] = []
states (open_event ∷ es) = opened ∷ states es
states (close_event state ∷ es) = state ∷ states es

-- An event after which the stream goes on.
abbrev pub GoesOn : StateEvent → Type 0
GoesOn open_event = Unit
GoesOn (close_event state) = is_over state ≡ false

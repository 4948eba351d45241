-- ===== src/Webrtc/Streams.antt =====
-- sf-webrtc/src/data_channel/futures.rs: the streams of a channel's messages, states and errors.
use sf_rs.Prelude.{
  ℕ, ◌+◌, List, [], ◌∷◌, ◌++◌, Bool, true, false, Option, none, some, Outcome, ok, err, length,
  codes, if◌then◌else◌,
}
use sf_rs.Webrtc.Errors.{
  ChannelState, opened, is_over, WebRtcError, data_channel_invalid_data_type, event_error,
}
use sf_rs.Webrtc.Events.{Polled, pending, ready}
use sf_rs.Webrtc.Channel.{ChannelCounters}

-- `Message`.
pub data ChannelMessage : Type 0 where
  text : List ℕ → ChannelMessage
  binary : List ℕ → ChannelMessage

-- `event.data()` by its type: what `as_string` gives of a string, or an `ArrayBuffer`, a `Blob`, or
-- anything else.
pub data EventData : Type 0 where
  js_string : Option (List ℕ) → EventData
  js_array_buffer : List ℕ → EventData
  js_blob : EventData
  js_other : EventData

module _ {Js : Type 0} where
  abbrev of_string :
      ChannelCounters
      → Option (List ℕ)
      → ChannelCounters × Option (Outcome (WebRtcError Js) ChannelMessage)
  of_string c none = (c, none)
  of_string c (some s) =
      (record c { message_bytes = c.message_bytes + length s }, some (ok (text s)))

  abbrev of_data :
      ChannelCounters
      → EventData
      → ChannelCounters × Option (Outcome (WebRtcError Js) ChannelMessage)
  of_data c (js_string s) = of_string c s
  of_data c (js_array_buffer bytes) =
      (record c { message_bytes = c.message_bytes + length bytes }, some (ok (binary bytes)))
  of_data c js_blob = (c, some (err data_channel_invalid_data_type))
  of_data c js_other = (c, some (err data_channel_invalid_data_type))

  -- The conversion of `message_stream`.
  unfoldable pub message_logic :
      EventData
      → ChannelCounters
      → ChannelCounters × Option (Outcome (WebRtcError Js) ChannelMessage)
  message_logic event c = of_data (record c { message_count = c.message_count + 1 }) event

  -- The conversion of `error_stream`: an `ErrorEvent` with its message, file and line as text.
  unfoldable pub error_logic : Option (List ℕ × List ℕ × List ℕ) → Option (WebRtcError Js)
  error_logic (some (message, filename, lineno)) = some (
      event_error
        (codes "DataChannel Error: " ++ message ++ codes " at " ++ filename ++ codes ":" ++ lineno))
  error_logic none = some (event_error (codes "Unknown DataChannel Error"))

-- `DataChannelStateStream`: the channel of states that both listeners send to.
pub record StateStream : Type 0 where
  pub queue : List ChannelState
  pub ended : Bool

-- `unbounded_send`, its error ignored: a closed channel takes nothing.
abbrev sent_state : ChannelState → StateStream → StateStream
sent_state state s = if s.ended then s else record s { queue = s.queue ++ state ∷ [] }

-- `state_stream`: the state that the channel is in is the first item.
unfoldable pub state_stream : ChannelState → StateStream
state_stream ready_state = record { queue = ready_state ∷ []; ended = false }

-- What the browser calls: "open", or "close" with the state that the channel has then.
pub data StateEvent : Type 0 where
  open_event : StateEvent
  close_event : (current_state : ChannelState) → StateEvent

unfoldable pub on_state_event : StateEvent → StateStream → StateStream
on_state_event open_event s = sent_state opened s
on_state_event (close_event current_state) s =
    let s' = sent_state current_state s in
    if is_over current_state then record s' { ended = true } else s'

unfoldable pub on_state_events : List StateEvent → StateStream → StateStream
unfolding on_state_event
on_state_events [] s = s
on_state_events (e ∷ es) s = on_state_events es (on_state_event e s)

-- `poll_next`.
abbrev next_state : List ChannelState → Bool → Polled ChannelState × StateStream
next_state [] true = (ready none, record { queue = []; ended = true })
next_state [] false = (pending, record { queue = []; ended = false })
next_state (state ∷ queue) ended = (ready (some state), record { queue = queue; ended = ended })

unfoldable pub poll_state : StateStream → Polled ChannelState × StateStream
poll_state s = next_state s.queue s.ended

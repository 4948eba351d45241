-- ===== src/Wasm/Peer.antt =====
-- sf-wasm/src/peer.rs. A method is one step, from its call to its end: the model does not interleave
-- two methods of one peer at their awaits.
use sf_rs.Prelude.{
  ℕ, List, [], ◌∷◌, ◌++◌, Bool, Option, none, some, Outcome, ok, err, panic, map_err, codes,
  bytes_eq, if◌then◌else◌,
}
use sf_rs.Prelude.Action.{Action, ◌>>=◌, ◌>>◌, pure, raise}
use sf_rs.PeerId.Base.{PeerId, peer_eq}
use sf_rs.PeerId.Text.{display}
use sf_rs.Webrtc.Errors.{ChannelState, connecting, opened, closing, closed, WebRtcError}
use sf_rs.Webrtc.Sdp.{offer, SessionDescription, type_eq}
use sf_rs.Webrtc.Ice.{IceCandidate, is_end_of_candidates}
use sf_rs.Webrtc.Channel.{ChannelApi, ChannelCounters, send_str}
use sf_rs.Webrtc.Streams.{ChannelMessage, text, binary}
use sf_rs.Webrtc.Connection.{
  ConnectionApi, ConnectionCounters, Method, create_offer, create_answer, set_remote_description,
  set_local_description, create_data_channel, get_remote_description, add_ice_candidate,
}
use sf_rs.Protocol.{PeerRequest, forward, web_rtc_offer, web_rtc_candidate}
use sf_rs.Wasm.Events.{ClientEvent, data_channel_open, data_channel_close, data_channel_message}

-- `DEFAULT_CHANNEL_NAME`.
abbrev pub default_channel_name : List ℕ
default_channel_name = codes "sf-channel"

-- The errors that become a `JsError`.
pub data PeerError (Js : Type 0) : Type 0 where
  web_rtc : WebRtcError Js → PeerError Js
  ws_not_connected : PeerError Js
  serialization : PeerError Js
  remote_description_not_set : PeerError Js
  failed_to_add_candidate : WebRtcError Js → PeerError Js

-- `WsSenderState`: no sender, or a sender whose receiver, the writer task, is there or gone.
pub data Sender : Type 0 where
  no_sender sender_open receiver_gone : Sender

-- What does not change in `PeerInner`.
pub record Peer : Type 0 where
  pub id : PeerId
  pub host_peer_id : PeerId

-- The rest of `PeerInner` and what its methods reach: `attached` has the channels whose streams are
-- listened to, as they were then, and `outbox` the messages that were queued for the socket.
pub record Link (C D : Type 0) : Type 0 where
  pub pc : C
  pub connection_counters : ConnectionCounters
  pub channel_counters : ChannelCounters
  pub dc : Option D
  pub attached : List D
  pub sender : Sender
  pub outbox : List (List ℕ)

-- `to_string` is `serde_json::to_string`.
module _ {C D Js : Type 0} (api : ConnectionApi C D Js)
    (to_string : PeerRequest → Option (List ℕ)) where
  abbrev pub Step : Type 0 → Type 0
  Step A = Action (Link C D) (PeerError Js) A

  -- A method of the peer connection, with its error converted by `error`.
  abbrev pub on_pc : {A : Type 0} → (WebRtcError Js → PeerError Js) → Method api A → Step A
  on_pc error method link =
      let ((c, n), r) = method (link.pc, link.connection_counters) in
      (record link { pc = c; connection_counters = n }, map_err error r)

  abbrev queued : Sender → List ℕ → Step (Unit {0})
  queued no_sender message link = (link, err ws_not_connected)
  queued sender_open message link = (record link { outbox = link.outbox ++ message ∷ [] }, ok tt)
  queued receiver_gone message link = (link, ok tt)

  abbrev serialized : Sender → Option (List ℕ) → Step (Unit {0})
  serialized no_sender message = raise ws_not_connected
  serialized _ none = raise serialization
  serialized state (some message) = queued state message

  -- `send_peer_request`; an error of the queue is only logged.
  unfoldable pub send_peer_request : PeerRequest → Step (Unit {0})
  send_peer_request request link = serialized link.sender (to_string request) link

  abbrev attach : Option D → Step (Unit {0})
  attach none link = (link, panic)
  attach (some dc) link = (record link { attached = link.attached ++ dc ∷ [] }, ok tt)

  -- `init_data_channel_callbacks`, which unwraps the channel.
  unfoldable pub init_data_channel_callbacks : Step (Unit {0})
  init_data_channel_callbacks link = attach link.dc link

  -- `self.0.dc.borrow_mut().replace(dc)`.
  abbrev replace_dc : D → Step (Unit {0})
  replace_dc dc link = (record link { dc = some dc }, ok tt)

  -- `make_offer`.
  unfoldable pub make_offer : Peer → Step (Unit {0})
  unfolding init_data_channel_callbacks
  make_offer peer = do
    dc ← on_pc web_rtc (create_data_channel api default_channel_name none)
    replace_dc dc
    init_data_channel_callbacks
    session_description ← on_pc web_rtc (create_offer api none)
    on_pc web_rtc (set_local_description api session_description)
    send_peer_request
        (forward peer.host_peer_id (some peer.id) (web_rtc_offer peer.id session_description))

  abbrev pub set_remote_if_none : Option SessionDescription → SessionDescription → Step (Unit {0})
  set_remote_if_none none description = on_pc web_rtc (set_remote_description api description)
  set_remote_if_none (some _) description = pure tt

  -- What `handle_offer` does with an offer.
  unfoldable pub make_answer : Peer → Step (Unit {0})
  make_answer peer = do
    local_description ← on_pc web_rtc (create_answer api none)
    on_pc web_rtc (set_local_description api local_description)
    send_peer_request
        (forward peer.host_peer_id (some peer.id) (web_rtc_offer peer.id local_description))

  -- `handle_offer`, which handles answers too.
  unfoldable pub handle_offer : Peer → SessionDescription → Step (Unit {0})
  unfolding make_answer
  handle_offer peer description = do
    remote ← on_pc web_rtc (get_remote_description api)
    set_remote_if_none remote description
    if type_eq description.sdp_type offer then make_answer peer else pure tt

  abbrev add_if_some : Option SessionDescription → IceCandidate → Step (Unit {0})
  add_if_some none candidate = raise remote_description_not_set
  add_if_some (some _) candidate = on_pc failed_to_add_candidate (add_ice_candidate api candidate)

  -- `handle_candidate`.
  unfoldable pub handle_candidate : Peer → IceCandidate → Step (Unit {0})
  handle_candidate peer candidate = do
    remote ← on_pc web_rtc (get_remote_description api)
    add_if_some remote candidate

  -- The task that sends the candidates that were gathered. An error of sending is only logged.
  unfoldable pub ice_loop :
      Peer → List (Outcome (WebRtcError Js) IceCandidate) → Link C D → Link C D
  ice_loop peer [] link = link
  ice_loop peer (ok candidate ∷ items) link =
      let request =
        forward peer.host_peer_id (some peer.id) (web_rtc_candidate peer.id candidate) in
      let rest = ice_loop peer items (send_peer_request request link).0 in
      if is_end_of_candidates candidate then link else rest
  ice_loop peer (err e ∷ items) link = link
  ice_loop peer (panic ∷ items) link = link

  -- The task that takes the channels that the other side opens.
  unfoldable pub channel_loop : ChannelApi D Js → List D → Link C D → Link C D
  unfolding init_data_channel_callbacks
  channel_loop channels [] link = link
  channel_loop channels (dc ∷ dcs) link = channel_loop channels dcs (
      if bytes_eq (channels.label dc) default_channel_name
      then (init_data_channel_callbacks (record link { dc = some dc })).0
      else link)

  abbrev on_dc :
      Link C D
      → (D × ChannelCounters) × Outcome (WebRtcError Js) (Unit {0})
      → Link C D × Outcome (PeerError Js) (Unit {0})
  on_dc link ((d, n), r) = (record link { dc = some d; channel_counters = n }, map_err web_rtc r)

  abbrev sent_on : ChannelApi D Js → List ℕ → Option D → Step (Unit {0})
  sent_on channels message none link = (link, ok tt)
  sent_on channels message (some dc) link =
      on_dc link (send_str channels message (dc, link.channel_counters))

  -- `direct_send_str`: without a channel it does nothing, and succeeds.
  unfoldable pub direct_send_str : ChannelApi D Js → List ℕ → Step (Unit {0})
  direct_send_str channels message link = sent_on channels message link.dc link

-- What the tasks on a channel notify the client of: its states,
abbrev pub of_state : PeerId → ChannelState → List ClientEvent
of_state peer_id opened = data_channel_open peer_id ∷ []
of_state peer_id closed = data_channel_close peer_id ∷ []
of_state peer_id connecting = []
of_state peer_id closing = []

unfoldable pub state_loop : PeerId → List ChannelState → List ClientEvent → List ClientEvent
state_loop peer_id [] notified = notified
state_loop peer_id (state ∷ states) notified =
    state_loop peer_id states (notified ++ of_state peer_id state)

-- and its texts, up to the first error.
abbrev of_message : PeerId → ChannelMessage → List ClientEvent
of_message peer_id (text message) = data_channel_message peer_id message ∷ []
of_message peer_id (binary bytes) = []

unfoldable pub message_loop {ℓ} :
    {E : Type ℓ} → PeerId → List (Outcome E ChannelMessage) → List ClientEvent → List ClientEvent
message_loop peer_id [] notified = notified
message_loop peer_id (ok message ∷ messages) notified =
    message_loop peer_id messages (notified ++ of_message peer_id message)
message_loop peer_id (err e ∷ messages) notified = notified
message_loop peer_id (panic ∷ messages) notified = notified

-- `PartialEq` and `Display`.
unfoldable pub same_peer : Peer → Peer → Bool
same_peer a b = peer_eq a.id b.id

unfoldable pub display_peer : Peer → List ℕ
display_peer peer = codes "Peer(" ++ display peer.id ++ codes ")"

-- ===== src/Transport/Events.antt =====
-- sf-node/src/node.rs, the event stream of a node, over transports that are polled as the trait of
-- sf-core/src/transport.rs says.
use sf_rs.Prelude.{
  ℕ, zero, suc, ◌+◌, ◌<◌, ◌≤◌, List, [], ◌∷◌, ◌++◌, ◌≡◌, refl, ap, arith, ◌∙◌, length, Option, none,
  some,
}
use mathlib.Core.List.{append-nil, append_assoc}
use sf_rs.Transport.Address.{Multiaddr}
use sf_rs.Transport.Polling.{TransportEvent}

-- `Event`, what the stream is declared to give.
pub data NodeEvent : Type 0 where
  new_connection_event : NodeEvent
  new_listen_addr : Multiaddr → NodeEvent

-- `Poll<Event>`.
pub data NodePoll : Type 0 where
  pending_poll : NodePoll
  ready_poll : NodeEvent → NodePoll

-- `poll` gives an event or is pending.
module _ {T Io : Type 0} (poll : T → T × Option (TransportEvent Io)) where
  -- One pass of the loop over the transports: up to the first that has an event.
  abbrev behind : T → List T × Option (TransportEvent Io) → List T × Option (TransportEvent Io)
  behind t (ts, e) = (t ∷ ts, e)

  abbrev pub passed :
      List T
      → List T × Option (TransportEvent Io)
      → T × Option (TransportEvent Io)
      → List T × Option (TransportEvent Io)
  passed ts later (t, some event) = (t ∷ ts, some event)
  passed ts later (t, none) = behind t later

  unfoldable pub poll_transports : List T → List T × Option (TransportEvent Io)
  poll_transports [] = ([], none)
  poll_transports (t ∷ ts) = passed ts (poll_transports ts) (poll t)

  -- What follows a pass: an event is only logged, and the loop starts again.
  abbrev pub after_pass :
      (List T → List (TransportEvent Io) → Option (NodePoll × List T × List (TransportEvent Io)))
      → List (TransportEvent Io)
      → List T × Option (TransportEvent Io)
      → Option (NodePoll × List T × List (TransportEvent Io))
  after_pass again logged (ts, none) = some (pending_poll, ts, logged)
  after_pass again logged (ts, some event) = again ts (logged ++ event ∷ [])

  -- `poll_next_event`, with the passes as fuel.
  unfoldable pub poll_next_event :
      ℕ → List T → List (TransportEvent Io) → Option (NodePoll × List T × List (TransportEvent Io))
  unfolding poll_transports
  poll_next_event zero ts logged = none
  poll_next_event (suc fuel) ts logged =
      after_pass (poll_next_event fuel) logged (poll_transports ts)

-- The events that the transports hold.
abbrev pub all_waiting : {T : Type 0} → (T → ℕ) → List T → ℕ
all_waiting waiting [] = 0
all_waiting waiting (t ∷ ts) = waiting t + all_waiting waiting ts

module _ {T Io : Type 0} (waiting : T → ℕ) where
  -- A poll that gives an event leaves fewer events waiting, and one that is pending no more.
  abbrev pub Serves : ℕ → T × Option (TransportEvent Io) → Type 0
  Serves before (t, some event) = waiting t < before
  Serves before (t, none) = waiting t ≤ before

  abbrev AllServe : ℕ → List T × Option (TransportEvent Io) → Type 0
  AllServe before (ts, some event) = all_waiting waiting ts < before
  AllServe before (ts, none) = all_waiting waiting ts ≤ before

module _ {T Io : Type 0} (poll : T → T × Option (TransportEvent Io)) (waiting : T → ℕ)
    (serves : (t : T) → Serves waiting (waiting t) (poll t)) where
  passed-AllServe :
      (ts : List T) (later : List T × Option (TransportEvent Io)) (before : ℕ)
      (r : T × Option (TransportEvent Io))
      → AllServe waiting (all_waiting waiting ts) later
      → Serves waiting before r
      → AllServe waiting (before + all_waiting waiting ts) (passed poll ts later r)
  passed-AllServe ts later before (t, some event) rest now = omega arith
  passed-AllServe ts (ts', some event) before (t, none) rest now = omega arith
  passed-AllServe ts (ts', none) before (t, none) rest now = omega arith

  poll_transports-AllServe :
      (ts : List T) → AllServe waiting (all_waiting waiting ts) (poll_transports poll ts)
  unfolding poll_transports
  poll_transports-AllServe [] = omega arith
  poll_transports-AllServe (t ∷ ts) =
      passed-AllServe ts (poll_transports poll ts) (waiting t) (poll t)
        (poll_transports-AllServe ts) (serves t)

  poll_next_event_next :
      (fuel : ℕ) (ts ts' : List T) (logged : List (TransportEvent Io)) (e : TransportEvent Io)
      → poll_transports poll ts ≡ (ts', some e)
      → poll_next_event poll (suc fuel) ts logged ≡ poll_next_event poll fuel ts' (logged ++ e ∷ [])
  unfolding poll_next_event
  poll_next_event_next fuel ts ts' logged e polled =
      ap (after_pass poll (poll_next_event poll fuel) logged) polled

  poll_next_event_last :
      (fuel : ℕ) (ts ts' : List T) (logged : List (TransportEvent Io))
      → poll_transports poll ts ≡ (ts', none)
      → poll_next_event poll (suc fuel) ts logged ≡ some (pending_poll, ts', logged)
  unfolding poll_next_event
  poll_next_event_last fuel ts ts' logged polled =
      ap (after_pass poll (poll_next_event poll fuel) logged) polled

  -- Polling a node ends once its transports have nothing left, each of them pending, and gives
  -- nothing: what the transports had is only logged, so that the stream of a node has no item ever.
  pub poll_next_event_pending :
      (fuel : ℕ) (ts : List T) (logged : List (TransportEvent Io))
      → all_waiting waiting ts < fuel
      → (last : List T) × (ts' : List T) × (dropped : List (TransportEvent Io)) × (poll_next_event
            poll fuel ts logged
          ≡ some (pending_poll, ts', logged ++ dropped))
        × (poll_transports poll last ≡ (ts', none))
        × (length dropped ≤ all_waiting waiting ts)
  poll_next_event_pending zero ts logged enough = absurd (omega arith)
  poll_next_event_pending (suc fuel) ts logged enough =
      polled (poll_transports poll ts) refl (poll_transports-AllServe ts)
        (λ ts'. poll_next_event_pending fuel ts')
    where
      polled :
          (r : List T × Option (TransportEvent Io))
          → poll_transports poll ts ≡ r
          → AllServe waiting (all_waiting waiting ts) r
          → ((ts' : List T) (logged' : List (TransportEvent Io))
              → all_waiting waiting ts' < fuel
              → (last : List T) × (ts'' : List T) × (dropped : List (TransportEvent Io))
                × (poll_next_event poll fuel ts' logged'
                    ≡ some (pending_poll, ts'', logged' ++ dropped))
                × (poll_transports poll last ≡ (ts'', none))
                × (length dropped ≤ all_waiting waiting ts'))
          → (last : List T) × (ts' : List T) × (dropped : List (TransportEvent Io))
            × (poll_next_event poll (suc fuel) ts logged
                ≡ some (pending_poll, ts', logged ++ dropped))
            × (poll_transports poll last ≡ (ts', none))
            × (length dropped ≤ all_waiting waiting ts)
      polled (ts', none) e fewer go_on = (
        ts,
        ts',
        [],
        poll_next_event_last fuel ts ts' logged e ∙ rw (append-nil logged) refl,
        e,
        omega arith,
      )
      polled (ts', some event) e fewer go_on =
          let (last, ts'', dropped, result, idle, few) =
            go_on ts' (logged ++ event ∷ []) (omega arith) in
          (
            last,
            ts'',
            event ∷ dropped,
            poll_next_event_next fuel ts ts' logged event e
                ∙ result
                ∙ rw (append_assoc logged (event ∷ []) dropped) refl,
            idle,
            omega arith,
          )

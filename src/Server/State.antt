-- ===== src/Server/State.antt =====
-- sf-server/src/state.rs: the registry of connected peers. The concurrent map of dashmap is a
-- parameter; `peer_count` and the counters are exact, as the `f64` of a metric is below 2^53. A task
-- that `tokio::spawn` starts is recorded in `spawned`, in the order of starting.
use sf_rs.Prelude.{
  ℕ, ◌+◌, List, [], ◌∷◌, ◌++◌, Bool, false, if◌then◌else◌, Option, none, some, is_some, Outcome, ok,
  err, panic, map_err, Totals, bump,
}
use sf_rs.Prelude.Int.{ℤ, pos, inc, dec}
use sf_rs.Prelude.Maps.{MapOps}
use sf_rs.PeerId.Base.{PeerId, peer_eq, peer_id_size}
use sf_rs.PeerId.Random.{random, get_random_u128}
use sf_rs.PeerId.Text.{display}
use sf_rs.Protocol.{PeerRequest, PeerEvent, forward, new_peer}
use sf_rs.Server.Handler.{
  PeerHandler, ServerError, peer_already_exists, peer_id, id, AppStateInterface,
}

-- The closure that `send_to_peer` spawns: `handler.send(payload)`, its error only logged.
pub record Task : Type 0 where
  pub handler : PeerHandler
  pub payload : PeerRequest

pub record AppState (M : Type 0) : Type 0 where
  pub peers : M
  pub peer_count : ℤ
  pub message_broadcast : ℕ
  pub message_forwarded : Totals
  pub spawned : List Task

-- `exclude.is_some_and(|ex| ex == &pid)`.
abbrev pub is_excluded : Option PeerId → PeerId → Bool
is_excluded none pid = false
is_excluded (some ex) pid = peer_eq ex pid

abbrev pub keys : {V : Type 0} → List (PeerId × V) → List PeerId
keys [] = []
keys ((k, v) ∷ es) = k ∷ keys es

module _ {M : Type 0} (ops : MapOps PeerId PeerHandler M) where
  -- `new`.
  unfoldable pub new : AppState M
  new = record {
    peers = ops.empty;
    peer_count = pos 0;
    message_broadcast = 0;
    message_forwarded = λ label. 0;
    spawned = [];
  }

  abbrev pub spawn_for : AppState M → Option PeerHandler → PeerRequest → AppState M
  spawn_for s (some handler) payload = record s {
    spawned = s.spawned ++ record { handler = handler; payload = payload } ∷ [];
  }
  spawn_for s none payload = s

  -- `send_to_peer`.
  unfoldable pub send_to_peer : AppState M → PeerId → PeerRequest → AppState M
  send_to_peer s to payload = spawn_for s (ops.get to s.peers) payload

  -- `send_forward`.
  unfoldable pub send_forward : AppState M → PeerId → PeerId → PeerEvent → AppState M
  unfolding send_to_peer
  send_forward s from to event = send_to_peer s to (forward from (some to) event)

  -- `forward_single`.
  unfoldable pub forward_single : AppState M → PeerId → PeerId → PeerEvent → AppState M
  forward_single s from_peer to_peer event =
      let s' = send_forward s from_peer to_peer event in
      record s' { message_forwarded = bump (display to_peer) s'.message_forwarded }

  -- The loop of `broadcast_forward_except` over the ids.
  unfoldable pub forward_to_all :
      AppState M → PeerId → PeerEvent → Option PeerId → List PeerId → AppState M
  forward_to_all s from event exclude [] = s
  forward_to_all s from event exclude (pid ∷ ids) =
      forward_to_all (if is_excluded exclude pid then s else send_forward s from pid event) from
        event exclude ids

  -- `broadcast_forward_except`.
  unfoldable pub broadcast_forward_except :
      AppState M → PeerId → PeerEvent → Option PeerId → AppState M
  broadcast_forward_except s from event exclude =
      let s' = forward_to_all s from event exclude (keys (ops.entries s.peers)) in
      record s' { message_broadcast = s'.message_broadcast + 1 }

  -- `handle_keepalive` and `handle_forward`.
  unfoldable pub handle_keepalive : PeerId → AppState M → AppState M
  handle_keepalive id s = s

  abbrev forwarded : PeerId → PeerId → PeerEvent → AppState M → Option PeerId → AppState M
  forwarded from connection event s (some target) = forward_single s from target event
  forwarded from connection event s none = broadcast_forward_except s connection event none

  unfoldable pub handle_forward :
      PeerId → PeerId → Option PeerId → PeerEvent → AppState M → AppState M
  handle_forward from connection to event s = forwarded from connection event s to

  -- `impl AppStateInterface for AppState`.
  abbrev pub interface : AppStateInterface (AppState M)
  interface = record { handle_keepalive = handle_keepalive; handle_forward = handle_forward }

  abbrev broadcast_from :
      AppState M
      → PeerEvent
      → Outcome ServerError PeerId
      → AppState M × Outcome ServerError (Unit {0})
  broadcast_from s event (ok id) = (broadcast_forward_except s id event none, ok tt)
  broadcast_from s event (err e) = (s, err e)
  broadcast_from s event panic = (s, panic)

  -- `broadcast_system_event`; `clock` is the time since the Unix epoch that
  -- `PeerID::random` finds, if the clock is not before it.
  unfoldable pub broadcast_system_event :
      AppState M → Option ℕ → PeerEvent → AppState M × Outcome ServerError (Unit {0})
  broadcast_system_event s clock event =
      broadcast_from s event (map_err peer_id (random peer_id_size (get_random_u128 clock)))

  abbrev logged : {A : Type 0} → A → Outcome ServerError (Unit {0}) → Outcome ServerError A
  logged a (ok _) = ok a
  logged a (err e) = ok a
  logged a panic = panic

  -- `add_peer` from the insertion on, with `broadcast_system_event_and_log`, which only logs an error.
  unfoldable pub register :
      AppState M → PeerHandler → Option ℕ → AppState M × Outcome ServerError PeerId
  unfolding broadcast_system_event
  register s h clock =
      let s1 = record s { peers = ops.insert (id h) h s.peers; peer_count = inc s.peer_count } in
      let (s2, result) = broadcast_system_event s1 clock (new_peer (id h)) in
      (s2, logged (id h) result)

  -- `add_peer`.
  unfoldable pub add_peer :
      AppState M → PeerHandler → Option ℕ → AppState M × Outcome ServerError PeerId
  unfolding register
  add_peer s h clock =
      if is_some (ops.get (id h) s.peers)
      then (s, err (peer_already_exists (id h)))
      else register s h clock

  abbrev pub taken_out : AppState M → Option PeerHandler × M → AppState M
  taken_out s (some h, peers) = record s { peers = peers; peer_count = dec s.peer_count }
  taken_out s (none, peers) = record s { peers = peers }

  -- `remove_peer`.
  unfoldable pub remove_peer : AppState M → PeerId → AppState M
  remove_peer s pid = taken_out s (ops.remove pid s.peers)

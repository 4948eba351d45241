-- ===== src/Server/Incoming.antt =====
-- sf-server/src/peer_handler.rs: what an incoming frame can do.
use sf_rs.Prelude.{
  ℕ, ◌+◌, List, Bool, not, true, false, ◌≡◌, ◌⊎◌, inl, inr, refl, Option, none, some, Totals,
  bump_self, Option-cases,
}
use sf_rs.PeerId.Base.{PeerId}
use sf_rs.Protocol.{PeerRequest, PeerEvent, keep_alive, forward}
use sf_rs.Server.Handler.{
  PeerHandler, Message, text, binary, ping, pong, close, AppStateInterface, handle_request,
  process_incoming, id, label,
}

-- Whether a frame closes the connection.
abbrev pub is_close : Message → Bool
is_close (text raw) = false
is_close (binary b) = false
is_close (ping d) = false
is_close (pong d) = false
is_close (close fr) = true

module _ {St : Type 0} (state : AppStateInterface St) (parse : List ℕ → Option PeerRequest) where
  -- The request that a frame carries.
  abbrev pub request_of : Message → Option PeerRequest
  request_of (text raw) = parse raw
  request_of (binary b) = none
  request_of (ping d) = none
  request_of (pong d) = none
  request_of (close fr) = none

  -- A frame stops the connection exactly when it is a close frame; it is counted once; and it
  -- changes the server's state only by the request that its text parses to, where a forward carries
  -- the connection's own identifier beside the sender that it claims.
  pub process_incoming_outcomes :
      (h : PeerHandler) (msg : Message) (received : Totals) (st : St)
      → let (go_on, received', st') = process_incoming state parse h msg received st in
        (go_on ≡ not (is_close msg))
        × (received' (label h) ≡ received (label h) + 1)
        × (((request_of msg ≡ none) × (st' ≡ st))
            ⊎ ((request_of msg ≡ some keep_alive) × (st' ≡ state.handle_keepalive (id h) st))
            ⊎ ((from : PeerId) × (to : Option PeerId) × (event : PeerEvent) × (request_of msg
                  ≡ some (forward from to event))
                × (st' ≡ state.handle_forward from (id h) to event st)))
  unfolding process_incoming handle_request
  process_incoming_outcomes h (text raw) received st = (
    refl,
    bump_self (label h) received,
    elim (Option-cases (parse raw)) [
      | inl e ↦ inl (e, rw e refl)
      | inr (keep_alive, e) ↦ inr (inl (e, rw e refl))
      | inr (forward from to event, e) ↦ inr (inr (from, to, event, e, rw e refl))
    ],
  )
  process_incoming_outcomes h (binary b) received st =
      (refl, bump_self (label h) received, inl (refl, refl))
  process_incoming_outcomes h (ping d) received st =
      (refl, bump_self (label h) received, inl (refl, refl))
  process_incoming_outcomes h (pong d) received st =
      (refl, bump_self (label h) received, inl (refl, refl))
  process_incoming_outcomes h (close fr) received st =
      (refl, bump_self (label h) received, inl (refl, refl))

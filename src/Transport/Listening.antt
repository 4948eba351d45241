-- ===== src/Transport/Listening.antt =====
-- sf-wt-transport/src/lib.rs: a transport, its pending events and its listener.
use sf_rs.Prelude.{
  ℕ, zero, suc, ◌+◌, List, [], ◌∷◌, ◌++◌, ◌≡◌, refl, Option, none, some, length, length-append,
  subst, Outcome, ok, err, panic,
}
use sf_rs.Transport.Address.{Multiaddr}
use sf_rs.Transport.Polling.{TransportEvent, listen_addr, Listener, poll_next}

-- `WebTransport`, with its listener.
pub record WebTransport (Io : Type 0) : Type 0 where
  pub pending_events : List (TransportEvent Io)
  pub listener : Option (Listener Io)

module _ {Io Err : Type 0} (listen : Multiaddr → Outcome Err (Listener Io)) where
  abbrev listening :
      WebTransport Io → Multiaddr → Outcome Err (Listener Io) → Outcome Err (WebTransport Io)
  listening t addr (ok l) =
      ok (record { pending_events = t.pending_events ++ listen_addr addr ∷ []; listener = some l })
  listening t addr (err e) = err e
  listening t addr panic = panic

  -- `listen_on`; `listen` is `platform::listen_on`. A listener that was there is replaced.
  unfoldable pub listen_on : WebTransport Io → Multiaddr → Outcome Err (WebTransport Io)
  listen_on t addr = listening t addr (listen addr)

module _ {Io : Type 0} where
  abbrev from_listener :
      WebTransport Io
      → Option (TransportEvent Io) × Listener Io
      → Option (TransportEvent Io) × WebTransport Io
  from_listener t (event, l) = (event, record t { listener = some l })

  abbrev poll_listener :
      ℕ → WebTransport Io → Option (Listener Io) → Option (TransportEvent Io) × WebTransport Io
  unfolding poll_next
  poll_listener budget t (some l) = from_listener t (poll_next budget l)
  poll_listener budget t none = (none, t)

  abbrev poll_pending :
      ℕ → WebTransport Io → List (TransportEvent Io) → Option (TransportEvent Io) × WebTransport Io
  unfolding poll_next
  poll_pending budget t (event ∷ events) = (some event, record t { pending_events = events })
  poll_pending budget t [] = poll_listener budget t t.listener

  -- `poll`, with the budget of the listener's loop.
  unfoldable pub poll : ℕ → WebTransport Io → Option (TransportEvent Io) × WebTransport Io
  unfolding poll_next
  poll budget t = poll_pending budget t t.pending_events

  -- As many polls in a row as there are events to expect.
  abbrev next_poll :
      Option (TransportEvent Io) × WebTransport Io
      → (WebTransport Io → Option (List (TransportEvent Io)))
      → Option (List (TransportEvent Io))
  next_poll (some event, t) later = elim (later t) [
    | none ↦ none
    | some events ↦ some (event ∷ events)
  ]
  next_poll (none, t) later = none

  unfoldable pub polls : ℕ → ℕ → WebTransport Io → Option (List (TransportEvent Io))
  unfolding poll
  polls budget zero t = some []
  polls budget (suc n) t = next_poll (poll budget t) (polls budget n)

  polls-pending_events :
      (budget : ℕ) (events : List (TransportEvent Io)) (listener : Option (Listener Io))
      → polls budget (length events) (record { pending_events = events; listener = listener })
        ≡ some events
  unfolding polls poll
  polls-pending_events budget [] listener = refl
  polls-pending_events budget (event ∷ events) listener =
      rw (polls-pending_events budget events listener) refl

-- After a `listen_on` that succeeds, polling reports what was pending before in its order and then the
-- new listen address, before anything of the listener.
pub listen_on-polls :
    {Io Err : Type 0} (listen : Multiaddr → Outcome Err (Listener Io)) (budget : ℕ)
    (t : WebTransport Io) (addr : Multiaddr) (l : Listener Io)
    → listen addr ≡ ok l
    → (t' : WebTransport Io) × (listen_on listen t addr ≡ ok t')
      × (polls budget (length t.pending_events + 1) t'
          ≡ some (t.pending_events ++ listen_addr addr ∷ []))
unfolding listen_on
listen_on-polls listen budget t addr l e =
    let events = t.pending_events ++ listen_addr addr ∷ [] in
    (
      record { pending_events = events; listener = some l },
      rw e refl,
      subst
          (λ n.
            polls budget n (record { pending_events = events; listener = some l }) ≡ some events)
          (length-append t.pending_events (listen_addr addr ∷ []))
          (polls-pending_events budget events (some l)),
    )

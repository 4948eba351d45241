-- ===== src/Transport/Announcing.antt =====
-- sf-wt-transport/src/lib.rs and platform/native.rs: what a transport that listens reports of its own
-- address.
use sf_rs.Prelude.{
  ℕ, zero, suc, List, [], ◌∷◌, Bool, true, false, ◌≡◌, refl, sym, ap, ◌∙◌, Option, none, some,
  Outcome, ok, err, panic, ◌>>=◌,
}
use sf_rs.Transport.Address.{SocketAddr, Multiaddr, TransportError}
use sf_rs.Transport.Polling.{Listener, TransportEvent, listen_addr, poll_next}
use sf_rs.Transport.Listening.{WebTransport, poll, polls}
use sf_rs.Transport.Listening
use sf_rs.Transport.Platform.{
  QuicApi, Web, web_new, new_listener, open_endpoint, listen_on, extract_ip_port, is_unspecified,
  serve_on, started, with_web,
}

module _ {Io F Server : Type 0} (quic : QuicApi Io F Server) where
  abbrev pending_of : Outcome (TransportError F) (Listener Io) → Option (TransportEvent Io)
  pending_of (ok l) = l.pending_event
  pending_of (err e) = none
  pending_of panic = none

  with_web-pending :
      (addr : Multiaddr) (webs webs' : List Web) (local : SocketAddr) (l : Listener Io)
      (fs : List (List ℕ))
      → with_web quic addr (local, [], some (listen_addr addr)) (web_new local fs) webs
        ≡ (webs', ok l)
      → l.pending_event ≡ some (listen_addr addr)
  unfolding web_new new_listener
  with_web-pending addr webs webs' local l [] e = cc (ap (λ r. r.1) e)
  with_web-pending addr webs webs' local l (f ∷ fs) e = ap (λ r. pending_of r.1) (sym e)

  started-pending :
      (allow : Bool) (addr : Multiaddr) (webs webs' : List Web) (l : Listener Io)
      (r : Outcome (TransportError F) SocketAddr)
      → started quic addr allow (r >>= λ local. ok (local, [], some (listen_addr addr))) webs
        ≡ (webs', ok l)
      → l.pending_event ≡ some (listen_addr addr)
  unfolding web_new new_listener
  started-pending allow addr webs webs' l (err e) h = cc (ap (λ r. r.1) h)
  started-pending allow addr webs webs' l panic h = cc (ap (λ r. r.1) h)
  started-pending true addr webs webs' l (ok local) h =
      with_web-pending addr webs webs' local l quic.fingerprints h
  started-pending false addr webs webs' l (ok local) h = ap (λ r. pending_of r.1) (sym h)

  opened-pending :
      (allow : Bool) (addr : Multiaddr) (webs webs' : List Web) (l : Listener Io)
      (bind : SocketAddr)
      → extract_ip_port {F = F} addr ≡ ok bind
      → is_unspecified bind.ip ≡ false
      → listen_on quic allow addr webs ≡ (webs', ok l)
      → l.pending_event ≡ some (listen_addr addr)
  unfolding listen_on open_endpoint
  opened-pending allow addr webs webs' l bind at specified opened =
      started-pending allow addr webs webs' l (serve_on quic bind)
        (ap (λ r. started quic addr allow r webs) (rw (at, specified) refl) ∙ opened)

  -- A transport that starts to listen on the address of an interface reports that address twice: once
  -- from its own queue, and once more from the listener.
  pub announced_twice :
      (allow : Bool) (addr : Multiaddr) (webs webs' : List Web) (l : Listener Io)
      (bind : SocketAddr) (budget : ℕ)
      → extract_ip_port {F = F} addr ≡ ok bind
      → is_unspecified bind.ip ≡ false
      → listen_on quic allow addr webs ≡ (webs', ok l)
      → (t : WebTransport Io) × (Listening.listen_on
            (λ a. (listen_on quic allow a webs).1)
            (record { pending_events = []; listener = none })
            addr
          ≡ ok t)
        × (polls budget 2 t ≡ some (listen_addr addr ∷ listen_addr addr ∷ []))
  unfolding Listening.listen_on polls poll poll_next
  announced_twice allow addr webs webs' l bind zero at specified opened = (
    record { pending_events = listen_addr addr ∷ []; listener = some l },
    rw opened refl,
    rw (opened-pending allow addr webs webs' l bind at specified opened) refl,
  )
  announced_twice allow addr webs webs' l bind (suc budget) at specified opened = (
    record { pending_events = listen_addr addr ∷ []; listener = some l },
    rw opened refl,
    rw (opened-pending allow addr webs webs' l bind at specified opened) refl,
  )

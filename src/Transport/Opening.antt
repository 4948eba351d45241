-- ===== src/Transport/Opening.antt =====
-- sf-wt-transport/src/platform/native.rs and listener/native.rs: what opening a listener starts and
-- dropping it ends.
use sf_rs.Prelude.{
  ℕ, List, [], ◌∷◌, ◌++◌, Bool, true, false, ◌≡◌, ◌≢◌, ◌⊎◌, inl, inr, refl, sym, subst, ap, none,
  some, length, Outcome, ok, err, panic,
}
use sf_rs.Transport.Address.{Multiaddr, TransportError}
use sf_rs.Transport.Polling.{Listener}
use sf_rs.Transport.Platform.{
  QuicApi, Web, web_new, new_listener, open_endpoint, listen_on, with_web, started, Opened,
  drop_listener, drop_at,
}

-- What stands in the list of the web servers for a listener: nothing new, or one server at its end that is bound where the
-- listener is, hands out the first certificate's fingerprint, and is the listener's handle.
pub data Beside {Io : Type 0} (fingerprints : List (List ℕ)) (webs : List Web) (l : Listener Io)
    : Bool → List Web → Type 0 where
  alone : l.handle ≡ none → Beside fingerprints webs l false webs
  in_front :
      (first : List ℕ) (rest : List (List ℕ))
      → fingerprints ≡ first ∷ rest
      → l.handle ≡ some (length webs)
      → Beside fingerprints webs l true
          (webs ++ record { bind = l.bind; fingerprint = first; shutting_down = false } ∷ [])

module _ {Io F Server : Type 0} (quic : QuicApi Io F Server) where
  abbrev pub Listens :
      Bool
      → Multiaddr
      → List (List ℕ)
      → List Web
      → Outcome (TransportError F) (Opened quic)
      → List Web × Outcome (TransportError F) (Listener Io)
      → Type 0
  Listens allow addr fingerprints webs endpoint (webs', r) =
      ((l : Listener Io) × (r ≡ ok l)
        × (l.addr ≡ addr)
        × (l.accept_closed ≡ false)
        × Beside fingerprints webs l allow webs')
      ⊎ (((l : Listener Io) → r ≢ ok l)
          × (webs' ≡ webs)
          × (((opened : Opened quic) → endpoint ≢ ok opened)
              ⊎ ((allow ≡ true) × (fingerprints ≡ []) × (r ≡ panic))))

  with_web-Listens :
      (addr : Multiaddr) (webs : List Web) (opened : Opened quic) (fs : List (List ℕ))
      → Listens true addr fs webs (ok opened) (with_web quic addr opened (web_new opened.0 fs) webs)
  unfolding web_new new_listener
  with_web-Listens addr webs opened [] = inr ((λ l e. cc), refl, inr (refl, refl, refl))
  with_web-Listens addr webs (local, events, pending) (first ∷ rest) = inl (
    new_listener local (some (length webs)) addr events pending,
    refl,
    refl,
    refl,
    in_front first rest refl refl,
  )

  started-Listens :
      (allow : Bool) (addr : Multiaddr) (webs : List Web)
      (r : Outcome (TransportError F) (Opened quic))
      → Listens allow addr quic.fingerprints webs r (started quic addr allow r webs)
  unfolding web_new new_listener
  started-Listens allow addr webs (err e) = inr ((λ l h. cc), refl, inl (λ o h. cc))
  started-Listens allow addr webs panic = inr ((λ l h. cc), refl, inl (λ o h. cc))
  started-Listens true addr webs (ok opened) = with_web-Listens addr webs opened quic.fingerprints
  started-Listens false addr webs (ok (local, events, pending)) =
      inl (new_listener local none addr events pending, refl, refl, refl, alone refl)

  -- A listener that is opened keeps its address and has a web server beside it exactly where
  -- fingerprints are asked for. It fails only where its endpoint could not be opened, or by a panic
  -- where fingerprints are asked for and there is no certificate; no web server was started then.
  pub listen_on_outcomes :
      (allow : Bool) (addr : Multiaddr) (webs : List Web)
      → Listens allow addr quic.fingerprints webs
          (open_endpoint quic addr)
          (listen_on quic allow addr webs)
  unfolding listen_on open_endpoint
  listen_on_outcomes allow addr webs = started-Listens allow addr webs (open_endpoint quic addr)

  pub opened-Beside :
      (addr : Multiaddr) (fs : List (List ℕ)) (webs webs' : List Web) (l : Listener Io)
      (endpoint : Outcome (TransportError F) (Opened quic))
      → Listens true addr fs webs endpoint (webs', ok l)
      → Beside fs webs l true webs'
  opened-Beside addr fs webs webs' l endpoint (inr (failed, same, why)) = absurd (failed l refl)
  opened-Beside addr fs webs webs' l endpoint (inl (l', e, kept, runs, beside)) =
      subst (λ x. Beside fs webs x true webs') (sym cc) beside

shut_down-append :
    (webs : List Web) (web : Web)
    → drop_at (some (length webs)) (webs ++ web ∷ [])
      ≡ webs ++ record web { shutting_down = true } ∷ []
shut_down-append [] web = refl
shut_down-append (w ∷ webs) web = ap (λ ws. w ∷ ws) (shut_down-append webs web)

-- Dropping a listener right after it was opened asks its own web server to shut down, where it has
-- one, and leaves those that were there before.
pub opened_dropped :
    {Io F Server : Type 0} (quic : QuicApi Io F Server) (addr : Multiaddr) (webs webs' : List Web)
    (l : Listener Io)
    → listen_on quic true addr webs ≡ (webs', ok l)
    → (web : Web) × (webs' ≡ webs ++ web ∷ [])
      × (web.bind ≡ l.bind)
      × (drop_listener l webs' ≡ webs ++ record web { shutting_down = true } ∷ [])
unfolding drop_listener
opened_dropped quic addr webs webs' l opened = own_server (
    opened-Beside quic addr quic.fingerprints webs webs' l (open_endpoint quic addr) (
      subst (Listens quic true addr quic.fingerprints webs (open_endpoint quic addr)) opened
        (listen_on_outcomes quic true addr webs)))
  where
    own_server :
        {ws : List Web}
        → Beside quic.fingerprints webs l true ws
        → (web : Web) × (ws ≡ webs ++ web ∷ [])
          × (web.bind ≡ l.bind)
          × (drop_at l.handle ws ≡ webs ++ record web { shutting_down = true } ∷ [])
    own_server (in_front first rest e handle) =
        let web : Web = record { bind = l.bind; fingerprint = first; shutting_down = false } in
        (web, refl, refl, rw handle (shut_down-append webs web))

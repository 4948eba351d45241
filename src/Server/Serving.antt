-- ===== src/Server/Serving.antt =====
-- sf-server/src/server.rs: a server that was built serves, or fails with an error, and does not panic.
use sf_rs.Prelude.{
  ◌≡◌, ◌≢◌, ◌⊎◌, inl, inr, true, refl, ap, ◌∙◌, Option, none, some, is_some, Outcome, ok, err,
  panic, map_err,
}
use sf_rs.Prelude.Action.{Action, Ends, continue-Ends, Ends-weaken}
use sf_rs.PeerId.Errors.{IoError}
use sf_rs.Transport.Address.{SocketAddr}
use sf_rs.Server.Handler.{ServerError, bind, serve}
use sf_rs.Server.Startup.{
  RouterApi, SocketApi, Running, new_server, built, bind_server, unit_bind, serve_server,
  serve_bound, called, closing, bound, expected, build,
}

-- No call of the network panics, and a listener has the address that it is bound to.
pub record Returns {Net Router Listener : Type 0} (api : SocketApi Net Router Listener)
    : Type 0 where
  pub bind_returns : (a : SocketAddr) (net : Net) → (api.bind a net).1 ≢ panic
  pub set_nonblocking_returns : (l : Listener) (net : Net) → (api.set_nonblocking l net).1 ≢ panic
  pub has_address : (l : Listener) (net : Net) → (a : SocketAddr) × (api.local_addr l net ≡ ok a)
  pub from_std_returns : (l : Listener) (net : Net) → (api.from_std l net).1 ≢ panic
  pub run_returns : (l : Listener) (r : Router) (net : Net) → (api.run l r net).1 ≢ panic

abbrev pub StartError : ServerError → Type 0
StartError e = ((x : IoError) × (e ≡ bind x)) ⊎ ((x : IoError) × (e ≡ serve x))

module _ {Net Router Listener : Type 0} where
  abbrev pub Listening : Running Net Router Listener → Type 0
  Listening s = (is_some s.server.listener ≡ true) × (is_some s.server.local_addr ≡ true)

  -- A listener has its address beside it.
  abbrev pub IsBound : Running Net Router Listener → Type 0
  IsBound s = is_some s.server.listener ≡ true → is_some s.server.local_addr ≡ true

module _ {Net Router Listener : Type 0} (api : SocketApi Net Router Listener)
    (returns : Returns api) where
  called-Ends :
      {A : Type 0} (wrap : IoError → ServerError) (call : Action Net IoError A)
      (s : Running Net Router Listener)
      → (call s.net).1 ≢ panic
      → ((x : IoError) → StartError (wrap x))
      → Ends StartError (λ _ s'. s'.server ≡ s.server) (called api wrap call s)
  called-Ends {A} wrap call s returned wraps = by_result (call s.net).1 returned
    where
      by_result :
          (r : Outcome IoError A)
          → r ≢ panic
          → Ends StartError
              (λ _ s'. s'.server ≡ s.server)
              (record s { net = (call s.net).0 }, map_err wrap r)
      by_result (ok a) n = refl
      by_result (err x) n = wraps x
      by_result panic n = n refl

  closing_returns :
      (l : Listener) (net : Net) → (closing api l (api.set_nonblocking l net)).1 ≢ panic
  closing_returns l net =
      by_result (api.set_nonblocking l net) (returns.set_nonblocking_returns l net)
    where
      by_result : (r : Net × Outcome IoError (Unit {0})) → r.1 ≢ panic → (closing api l r).1 ≢ panic
      by_result (net', ok a) n e = n e
      by_result (net', err x) n e = cc e
      by_result (net', panic) n e = n e

  expected-Ends :
      {A : Type 0} (o : Option A) (s : Running Net Router Listener)
      → is_some o ≡ true
      → Ends StartError (λ _ s'. s' ≡ s) (expected api o s)
  expected-Ends (some a) s h = refl
  expected-Ends none s h = cc

  bind_server-Ends :
      (s : Running Net Router Listener) → Ends StartError (λ _ s'. Listening s') (bind_server api s)
  unfolding bind_server
  bind_server-Ends s =
      continue-Ends StartError (λ _ s'. s'.server ≡ s.server) (λ _ s'. Listening s') _ _
        (called-Ends bind (api.bind s.server.addr) s (returns.bind_returns s.server.addr s.net)
          (λ x. inl (x, refl)))
        (λ l s1 _.
          continue-Ends StartError (λ _ s'. s'.server ≡ s1.server) (λ _ s'. Listening s') _ _
            (called-Ends bind (λ net. closing api l (api.set_nonblocking l net)) s1
              (closing_returns l s1.net) (λ x. inl (x, refl)))
            (λ _ s2 _. let (a, e) = returns.has_address l s2.net in rw e (refl, refl)))

  unit_bind-Ends :
      (s : Running Net Router Listener)
      → IsBound s
      → Ends StartError (λ _ s'. Listening s') (unit_bind api s)
  unfolding unit_bind
  unit_bind-Ends s h = by_listener s.server.listener h refl
    where
      by_listener :
          (o : Option Listener)
          → (is_some o ≡ true → is_some s.server.local_addr ≡ true)
          → s.server.listener ≡ o
          → Ends StartError (λ _ s'. Listening s') (bound api o s)
      by_listener (some l) h e = (rw e refl, h refl)
      by_listener none h e =
          continue-Ends StartError (λ _ s'. Listening s') (λ _ s'. Listening s') _ _
            (bind_server-Ends s) (λ _ s' listening. listening)

  serve_bound-Ends :
      (s : Running Net Router Listener)
      → Listening s
      → Ends StartError (λ _ _. Unit) (serve_bound api s)
  serve_bound-Ends s (has_listener, has_local) =
      continue-Ends StartError (λ _ s'. s' ≡ s) (λ _ _. Unit) _ _
        (expected-Ends s.server.listener s has_listener)
        (λ std s1 e1.
          continue-Ends StartError (λ _ s'. s'.server ≡ s1.server) (λ _ _. Unit) _ _
            (called-Ends bind (api.from_std std) s1 (returns.from_std_returns std s1.net)
              (λ x. inl (x, refl)))
            (λ listener s2 e2.
              continue-Ends StartError (λ _ s'. s' ≡ s2) (λ _ _. Unit) _ _
                (expected-Ends s2.server.local_addr s2
                  (ap (λ v. is_some v.local_addr) (e2 ∙ ap (λ x. x.server) e1) ∙ has_local))
                (λ _ s3 e3.
                  Ends-weaken StartError
                    (λ _ (s' : Running Net Router Listener). s'.server ≡ s3.server) (λ _ _. Unit)
                    (called api serve (api.run listener s2.server.svc_info) s3) (λ _ _ _. tt)
                    (called-Ends serve (api.run listener s2.server.svc_info) s3
                      (returns.run_returns listener s2.server.svc_info s3.net)
                      (λ x. inr (x, refl))))))

  Ends-outcomes :
      (p : Running Net Router Listener × Outcome ServerError (Unit {0}))
      → Ends StartError (λ _ _. Unit) p
      → (p.1 ≡ ok tt) ⊎ ((e : ServerError) × StartError e × (p.1 ≡ err e))
  Ends-outcomes (s, ok tt) h = inl refl
  Ends-outcomes (s, err e) h = inr (e, h, refl)
  Ends-outcomes (s, panic) h = absurd h

  -- Serving from a state in which a listener has its address beside it ends without a panic: no
  -- `expect` and no `unwrap` of it fails, and an error is one of binding or of serving.
  serve_server-outcomes :
      (s : Running Net Router Listener)
      → IsBound s
      → let r = (serve_server api s).1 in
        (r ≡ ok tt) ⊎ ((e : ServerError) × StartError e × (r ≡ err e))
  unfolding serve_server
  serve_server-outcomes s h = Ends-outcomes (serve_server api s) (
      continue-Ends StartError (λ _ s'. Listening s') (λ _ _. Unit) _ _ (unit_bind-Ends s h)
        (λ _ s' listening. serve_bound-Ends s' listening))

  -- The server that `run` builds, on a network whose calls return and whose listeners have an address,
  -- serves until it is ended or fails with an error of binding or of serving; it does not panic.
  pub built_serves :
      {Handler : Type 0} (routers : RouterApi Router Handler) (host : SocketAddr)
      (ws_handler : Handler) (net' : Net)
      → let r =
          (serve_server api (record { server = built routers host ws_handler; net = net' })).1 in
        (r ≡ ok tt) ⊎ ((e : ServerError) × StartError e × (r ≡ err e))
  unfolding built build new_server
  built_serves routers host ws_handler net' =
      serve_server-outcomes (record { server = built routers host ws_handler; net = net' })
        (λ h. cc)

  unit_bind-listening :
      (s : Running Net Router Listener)
      → is_some s.server.listener ≡ true
      → unit_bind api s ≡ (s, ok tt)
  unfolding unit_bind
  unit_bind-listening s h = by_listener s.server.listener h
    where
      by_listener : (o : Option Listener) → is_some o ≡ true → bound api o s ≡ (s, ok tt)
      by_listener (some l) h = refl
      by_listener none h = cc

  -- Once `unit_bind` has succeeded, to call it again changes nothing: the listener is bound once.
  pub unit_bind_again :
      (s : Running Net Router Listener)
      → IsBound s
      → (unit_bind api s).1 ≡ ok tt
      → unit_bind api (unit_bind api s).0 ≡ unit_bind api s
  unit_bind_again s h done = by_result (unit_bind api s) (unit_bind-Ends s h) done
    where
      by_result :
          (p : Running Net Router Listener × Outcome ServerError (Unit {0}))
          → Ends StartError (λ _ s'. Listening s') p
          → p.1 ≡ ok tt
          → unit_bind api p.0 ≡ p
      by_result (s', ok tt) listening e = unit_bind-listening s' listening.0
      by_result (s', err x) listening e = cc e
      by_result (s', panic) listening e = absurd listening

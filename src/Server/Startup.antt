-- ===== src/Server/Startup.antt =====
-- sf-server/src/server.rs, builder.rs and main.rs: building, binding and serving.
use sf_rs.Prelude.{ℕ, List, Option, none, some, codes, Outcome, ok, err, panic, map_err}
use sf_rs.Prelude.Action.{Action, ◌>>=◌, ◌>>◌, pure, continue}
use sf_rs.PeerId.Errors.{IoError}
use sf_rs.Transport.Address.{SocketAddr}
use sf_rs.Server.Handler.{ServerError, bind, serve}

-- What the server uses of axum's and tower's routers and layers. The handler of a route has its state.
pub record RouterApi (Router Handler : Type 0) : Type 0 where
  pub new : Router
  pub trace_layer : Router → Router
  pub cors_layer : Router → Router
  pub route : List ℕ → Handler → Router → Router

-- `ServerBuilder`.
pub record ServerBuilder (Router : Type 0) : Type 0 where
  pub addr : SocketAddr
  pub router : Router

-- `Server`; the service is the router that it is made of.
pub record Server (Router Listener : Type 0) : Type 0 where
  pub local_addr : Option SocketAddr
  pub addr : SocketAddr
  pub svc_info : Router
  pub listener : Option Listener

-- `Server::new`.
unfoldable pub new_server :
    {Router Listener : Type 0} → SocketAddr → Router → Server Router Listener
new_server addr' router = record {
  local_addr = none;
  addr = addr';
  svc_info = router;
  listener = none;
}

module _ {Router Handler : Type 0} (api : RouterApi Router Handler) where
  unfoldable pub mutate_router : ServerBuilder Router → (Router → Router) → ServerBuilder Router
  mutate_router b alter = record b { router = alter b.router }

  -- `default_middleware`: tracing, then any origin.
  unfoldable pub default_middleware : ServerBuilder Router → ServerBuilder Router
  unfolding mutate_router
  default_middleware b = mutate_router (mutate_router b api.trace_layer) api.cors_layer

  unfoldable pub new_builder : SocketAddr → ServerBuilder Router
  unfolding default_middleware
  new_builder addr' = default_middleware (record { addr = addr'; router = api.new })

  unfoldable pub build : {Listener : Type 0} → ServerBuilder Router → Server Router Listener
  unfolding new_server
  build b = new_server b.addr b.router

  -- The server that `run` builds.
  unfoldable pub built : {Listener : Type 0} → SocketAddr → Handler → Server Router Listener
  unfolding build mutate_router new_builder
  built host ws_handler =
      build (mutate_router (new_builder host) (api.route (codes "/ws") ws_handler))

-- What the server uses of the standard library's sockets, tokio's and axum's. `run` serves until it is
-- ended; a listener that is dropped is closed.
pub record SocketApi (Net Router Listener : Type 0) : Type 0 where
  pub bind : SocketAddr → Action Net IoError Listener
  pub set_nonblocking : Listener → Action Net IoError (Unit {0})
  pub local_addr : Listener → Net → Outcome IoError SocketAddr
  pub close : Listener → Net → Net
  pub from_std : Listener → Action Net IoError Listener
  pub run : Listener → Router → Action Net IoError (Unit {0})

-- A server and the network that it runs on.
pub record Running (Net Router Listener : Type 0) : Type 0 where
  pub server : Server Router Listener
  pub net : Net

module _ {Net Router Listener : Type 0} (api : SocketApi Net Router Listener) where
  -- A call of the network, with its error wrapped.
  abbrev pub called :
      {A : Type 0}
      → (IoError → ServerError)
      → Action Net IoError A
      → Action (Running Net Router Listener) ServerError A
  called wrap call s = let (net', r) = call s.net in (record s { net = net' }, map_err wrap r)

  -- Closing the listener of a call that has failed.
  abbrev pub closing :
      Listener → Net × Outcome IoError (Unit {0}) → Net × Outcome IoError (Unit {0})
  closing l (net, ok a) = (net, ok a)
  closing l (net, err e) = (api.close l net, err e)
  closing l (net, panic) = (net, panic)

  abbrev pub unwrapped : Outcome IoError SocketAddr → Outcome ServerError SocketAddr
  unwrapped (ok a) = ok a
  unwrapped (err e) = panic
  unwrapped panic = panic

  abbrev replaced : Option Listener → Net → Net
  replaced none net = net
  replaced (some l) net = api.close l net

  abbrev pub keep :
      Listener → SocketAddr → Action (Running Net Router Listener) ServerError SocketAddr
  keep l a s = (
    record {
      server = record s.server { local_addr = some a; listener = some l };
      net = replaced s.server.listener s.net;
    },
    ok a,
  )

  -- `bind`.
  unfoldable pub bind_server : Action (Running Net Router Listener) ServerError SocketAddr
  bind_server s = continue (called bind (api.bind s.server.addr) s) (λ l.
      called bind (λ net. closing l (api.set_nonblocking l net)) >> λ s'.
      continue (s', unwrapped (api.local_addr l s'.net)) (keep l))

  abbrev pub bound : Option Listener → Action (Running Net Router Listener) ServerError (Unit {0})
  unfolding bind_server
  bound (some l) = pure tt
  bound none = bind_server >> pure tt

  -- `unit_bind`.
  unfoldable pub unit_bind : Action (Running Net Router Listener) ServerError (Unit {0})
  unfolding bind_server
  unit_bind s = bound s.server.listener s

  abbrev pub expected : {A : Type 0} → Option A → Action (Running Net Router Listener) ServerError A
  expected (some a) s = (s, ok a)
  expected none s = (s, panic)

  -- `serve`, from the listener on.
  abbrev pub serve_bound : Action (Running Net Router Listener) ServerError (Unit {0})
  serve_bound s = continue (expected s.server.listener s) (λ std.
      called bind (api.from_std std) >>= λ listener s1.
      continue (expected s1.server.local_addr s1)
        (λ _. called serve (api.run listener s1.server.svc_info)))

  unfoldable pub serve_server : Action (Running Net Router Listener) ServerError (Unit {0})
  unfolding unit_bind
  serve_server = unit_bind >> serve_bound

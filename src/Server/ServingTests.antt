-- ===== src/Server/ServingTests.antt =====
-- sf-server: the start-up over sockets that always succeed.
use sf_rs.Prelude.{ℕ, ◌+◌, ◌-◌, List, [], ◌∷◌, ◌≡◌, ◌⊎◌, refl, ok, err, codes}
use sf_rs.Server.Handler.{ServerError}
use sf_rs.Transport.Address.{SocketAddr, v4}
use sf_rs.Server.Startup.{Server, SocketApi, RouterApi, built, serve_server}
use sf_rs.Server.Serving.{Returns, StartError, built_serves}

-- A network on which every call succeeds; it counts the listeners that are open.
abbrev sockets : SocketApi ℕ (List (List ℕ)) ℕ
sockets = record {
  bind = λ a net. (net + 1, ok a.port);
  set_nonblocking = λ l net. (net, ok tt);
  local_addr = λ l net. ok (record { ip = v4 0; port = l });
  close = λ l net. net - 1;
  from_std = λ l net. (net, ok l);
  run = λ l r net. (net, ok tt);
}

sockets-Returns : Returns sockets
sockets-Returns = record {
  bind_returns = λ a net e. cc;
  set_nonblocking_returns = λ l net e. cc;
  has_address = λ l net. (record { ip = v4 0; port = l }, refl);
  from_std_returns = λ l net e. cc;
  run_returns = λ l r net e. cc;
}

-- A router is the list of its routes.
abbrev routers : RouterApi (List (List ℕ)) ℕ
routers = record {
  new = [];
  trace_layer = λ r. r;
  cors_layer = λ r. r;
  route = λ path handler r. path ∷ r;
}

abbrev any_host : SocketAddr
any_host = record { ip = v4 0; port = 9999 }

serves_ws :
    let s : Server (List (List ℕ)) ℕ = built routers any_host 0 in s.svc_info ≡ codes "/ws" ∷ []
unfolding built
serves_ws = refl

built_serves_example :
    let r = (serve_server sockets (record { server = built routers any_host 0; net = 0 })).1 in
    (r ≡ ok tt) ⊎ ((e : ServerError) × StartError e × (r ≡ err e))
built_serves_example = built_serves sockets sockets-Returns routers any_host 0 0

-- ===== src/Server/Race.antt =====
-- sf-server/src/state.rs: `add_peer` tests and inserts in two steps of the concurrent map, so two
-- connections of one identifier can both pass the test.
use sf_rs.Prelude.{some, ℕ, ◌+◌, List, [], ◌∷◌, true, false, ◌≡◌, refl, ap, arith, none, is_some}
use sf_rs.Prelude.Int.{pos, inc}
use sf_rs.Prelude.Maps.{MapOps, MapLaws}
use sf_rs.PeerId.Base.{PeerId, peer_eq}
use sf_rs.Server.Handler.{PeerHandler, id}
use sf_rs.Server.State.{AppState, register}
use sf_rs.Server.Registry.{CountsPeers, register_lem}

module _ {M : Type 0} (ops : MapOps PeerId PeerHandler M) where
  -- The state, and the calls of `add_peer` that have passed `contains_key` and not yet inserted.
  pub record Adding : Type 0 where
    pub state : AppState M
    pub passed : List PeerHandler

  -- One step of one call.
  pub data AddStep : Adding → Adding → Type 0 where
    passes :
        {a : Adding} (h : PeerHandler)
        → is_some (ops.get (id h) a.state.peers) ≡ false
        → AddStep a (record a { passed = h ∷ a.passed })
    inserts :
        {a : Adding} (h : PeerHandler) (rest : List PeerHandler) (seed : ℕ)
        → a.passed ≡ h ∷ rest
        → AddStep a (record { state = (register ops a.state h (some seed)).0; passed = rest })

  pub data AddSteps : Adding → Adding → Type 0 where
    done : {a : Adding} → AddSteps a a
    step : {a b c : Adding} → AddStep a b → AddSteps b c → AddSteps a c

module _ {M : Type 0} (ops : MapOps PeerId PeerHandler M) (laws : MapLaws peer_eq ops) where
  -- From a state whose gauge is right, two connections that bring the same free identifier can be
  -- interleaved so that both are accepted: there is then one registered peer more, and the gauge has
  -- gone up by two.
  pub add_peer_race :
      (s : AppState M) (g h : PeerHandler) (seed : ℕ)
      → ops.get (id g) s.peers ≡ none
      → ops.get (id h) s.peers ≡ none
      → peer_eq (id g) (id h) ≡ true
      → CountsPeers ops s
      → (s' : AppState M) × AddSteps ops
          (record { state = s; passed = [] })
          (record { state = s'; passed = [] })
        × (ops.len s'.peers ≡ ops.len s.peers + 1)
        × (s'.peer_count ≡ pos (ops.len s'.peers + 1))
  unfolding inc
  add_peer_race s g h seed free_g free_h same counted =
      let (from_g, e) = register_lem ops laws s g seed in
      let s1 = (register ops s g (some seed)).0 in
      let (from_h, f) = register_lem ops laws s1 h seed in
      let s2 = (register ops s1 h (some seed)).0 in
      (
        s2,
        step (passes h (rw free_h)) (
            step (passes g (rw free_g))
              (step (inserts g (h ∷ []) seed refl) (step (inserts h [] seed refl) done))),
        rw
            (
              f,
              e,
              laws.len-insert (id h) h (ops.insert (id g) g s.peers),
              laws.get-insert (id h) (id g) g s.peers,
              same,
              laws.len-insert (id g) g s.peers,
              free_g,
            )
            (omega arith),
        rw
            (
              f,
              e,
              counted,
              laws.len-insert (id h) h (ops.insert (id g) g s.peers),
              laws.get-insert (id h) (id g) g s.peers,
              same,
              laws.len-insert (id g) g s.peers,
              free_g,
            )
            (ap pos (omega arith)),
      )

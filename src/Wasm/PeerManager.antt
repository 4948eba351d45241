-- ===== src/Wasm/PeerManager.antt =====
-- sf-wasm/src/peer_manager.rs: the peers of a client, and the identifiers it has heard of.
use sf_rs.Prelude.{
  ℕ, ◌+◌, List, [], ◌∷◌, ◌++◌, Bool, true, false, ◌||◌, ◌≡◌, inl, inr, refl, sym, ap, ◌∙◌, arith,
  if◌then◌else◌, Option, some, is_some, Bool-cases, subst,
}
use sf_rs.Prelude.Maps.{MapOps, MapLaws}
use sf_rs.PeerId.Base.{PeerId, peer_eq, peer_eq-Equivalence}

-- `PeerManager`; `peers` is the map of the standard library, and a peer is given with its `id`.
pub record PeerManager (M : Type 0) : Type 0 where
  pub peers : M
  pub known_peer_ids : List PeerId
  pub peer_count : ℕ

-- `Vec::contains`.
unfoldable pub contains : PeerId → List PeerId → Bool
contains pid [] = false
contains pid (k ∷ ks) = peer_eq k pid || contains pid ks

-- No two known identifiers are equal.
abbrev pub NoRepeats : List PeerId → Type 0
NoRepeats [] = Unit
NoRepeats (k ∷ ks) = (contains k ks ≡ false) × NoRepeats ks

module _ {P M : Type 0} (ops : MapOps PeerId P M) (id : P → PeerId) where
  -- `new`.
  unfoldable pub new : PeerManager M
  new = record { peers = ops.empty; known_peer_ids = []; peer_count = 0 }

  -- `add_known_peer_id_internal`.
  unfoldable pub add_known_peer_id_internal : PeerManager M → PeerId → PeerManager M × Bool
  add_known_peer_id_internal m pid =
      if contains pid m.known_peer_ids
      then (m, false)
      else (record m { known_peer_ids = m.known_peer_ids ++ pid ∷ [] }, true)

  -- `add_known_peer_id`.
  unfoldable pub add_known_peer_id : PeerManager M → PeerId → PeerManager M
  unfolding add_known_peer_id_internal
  add_known_peer_id m pid = (add_known_peer_id_internal m pid).0

  -- `add_peer`; the counter is of 64 bits and is not reset.
  unfoldable pub add_peer : PeerManager M → P → PeerManager M
  unfolding add_known_peer_id
  add_peer m peer =
      let m1 = record m { peers = ops.insert (id peer) peer m.peers } in
      let m2 = add_known_peer_id m1 (id peer) in record m2 { peer_count = m2.peer_count + 1 }

  -- `get_peer`.
  unfoldable pub get_peer : PeerManager M → PeerId → Option P
  get_peer m pid = ops.get pid m.peers

  -- Known identifiers are listed once, and every peer's identifier is known.
  pub record IsValid (m : PeerManager M) : Type 0 where
    pub no_repeats : NoRepeats m.known_peer_ids
    pub known :
        (pid : PeerId) → is_some (ops.get pid m.peers) ≡ true → contains pid m.known_peer_ids ≡ true

  -- The runs of a manager.
  pub data Reachable : PeerManager M → Type 0 where
    created : Reachable new
    peer_added : {m : PeerManager M} (peer : P) → Reachable m → Reachable (add_peer m peer)
    id_added :
        {m : PeerManager M} (pid : PeerId) → Reachable m → Reachable (add_known_peer_id m pid)

contains-append :
    (pid : PeerId) (ks ls : List PeerId)
    → contains pid (ks ++ ls) ≡ (contains pid ks || contains pid ls)
unfolding contains
contains-append pid [] ls = refl
contains-append pid (k ∷ ks) ls = ground (arith, contains-append pid ks ls)

not_sym : (a b : PeerId) → peer_eq b a ≡ false → peer_eq a b ≡ false
not_sym a b n = elim (Bool-cases (peer_eq a b)) [
  | inl e ↦ cc (n, peer_eq-Equivalence.eq_sym a b e)
  | inr e ↦ e
]

contains_congr :
    (a b : PeerId) (ks : List PeerId)
    → peer_eq a b ≡ true
    → contains a ks ≡ true
    → contains b ks ≡ true
unfolding contains
contains_congr a b [] e h = h
contains_congr a b (k ∷ ks) e h =
    ground (arith, contains_congr a b ks e, peer_eq-Equivalence.eq_trans k a b)

NoRepeats-append :
    (pid : PeerId) (ks : List PeerId)
    → NoRepeats ks
    → contains pid ks ≡ false
    → NoRepeats (ks ++ pid ∷ [])
unfolding contains
NoRepeats-append pid [] h n = (refl, tt)
NoRepeats-append pid (k ∷ ks) h n =
    let unlike : peer_eq pid k ≡ false = not_sym pid k (ground (arith, n)) in
    (
      contains-append k ks (pid ∷ []) ∙ rw (h.0, unlike) refl,
      NoRepeats-append pid ks h.1 (ground (arith, n)),
    )

module _ {P M : Type 0} (ops : MapOps PeerId P M) (laws : MapLaws peer_eq ops)
    (id : P → PeerId) where
  -- What learning an identifier does to the list, whether it was known or not.
  abbrev Learned : PeerManager M → PeerId → PeerManager M → Type 0
  Learned m pid m' =
      (m'.peers ≡ m.peers)
      × (NoRepeats m.known_peer_ids → NoRepeats m'.known_peer_ids)
      × ((other : PeerId)
          → contains other m.known_peer_ids ≡ true
          → contains other m'.known_peer_ids ≡ true)
      × (contains pid m'.known_peer_ids ≡ true)

  add_known_peer_id_old :
      (m : PeerManager M) (pid : PeerId)
      → contains pid m.known_peer_ids ≡ true
      → add_known_peer_id ops id m pid ≡ m
  unfolding add_known_peer_id add_known_peer_id_internal
  add_known_peer_id_old m pid e = rw (add_known_peer_id, add_known_peer_id_internal, e) refl

  add_known_peer_id_new :
      (m : PeerManager M) (pid : PeerId)
      → contains pid m.known_peer_ids ≡ false
      → add_known_peer_id ops id m pid ≡ record m { known_peer_ids = m.known_peer_ids ++ pid ∷ [] }
  unfolding add_known_peer_id add_known_peer_id_internal
  add_known_peer_id_new m pid e = rw (add_known_peer_id, add_known_peer_id_internal, e) refl

  contains_last : (pid : PeerId) (ks : List PeerId) → contains pid (ks ++ pid ∷ []) ≡ true
  unfolding contains
  contains_last pid [] = ground (arith, peer_eq-Equivalence.eq_refl pid)
  contains_last pid (k ∷ ks) = ground (arith, contains_last pid ks)

  add_known_peer_id-Learned :
      (m : PeerManager M) (pid : PeerId) → Learned m pid (add_known_peer_id ops id m pid)
  add_known_peer_id-Learned m pid = elim (Bool-cases (contains pid m.known_peer_ids)) [
    | inl e ↦
        subst (Learned m pid) (sym (add_known_peer_id_old m pid e))
          (refl, (λ h. h), (λ other h. h), e)
    | inr e ↦ subst (Learned m pid) (sym (add_known_peer_id_new m pid e)) (
      refl,
      (λ h. NoRepeats-append pid m.known_peer_ids h e),
      (λ other h. contains-append other m.known_peer_ids (pid ∷ []) ∙ rw h refl),
      contains_last pid m.known_peer_ids,
    )
  ]

  -- What is known stays known, and what is added becomes known.
  pub add_known_peer_id_kept :
      (m : PeerManager M) (pid other : PeerId)
      → contains other m.known_peer_ids ≡ true
      → contains other (add_known_peer_id ops id m pid).known_peer_ids ≡ true
  add_known_peer_id_kept m pid other h =
      let (_, _, kept, _) = add_known_peer_id-Learned m pid in kept other h

  pub add_known_peer_id_has :
      (m : PeerManager M) (pid : PeerId)
      → contains pid (add_known_peer_id ops id m pid).known_peer_ids ≡ true
  add_known_peer_id_has m pid = let (_, _, _, has) = add_known_peer_id-Learned m pid in has

  pub add_peer_kept :
      (m : PeerManager M) (peer : P) (other : PeerId)
      → contains other m.known_peer_ids ≡ true
      → contains other (add_peer ops id m peer).known_peer_ids ≡ true
  unfolding add_peer
  add_peer_kept m peer other h =
      add_known_peer_id_kept (record m { peers = ops.insert (id peer) peer m.peers }) (id peer)
        other h

  pub add_peer-IsValid :
      (m : PeerManager M) (peer : P) → IsValid ops id m → IsValid ops id (add_peer ops id m peer)
  unfolding add_peer
  add_peer-IsValid m peer v =
      let m1 : PeerManager M = record m { peers = ops.insert (id peer) peer m.peers } in
      let (same, repeats, kept, has) = add_known_peer_id-Learned m1 (id peer) in
      record {
        no_repeats = repeats v.no_repeats;
        known = λ pid h.
            let found : is_some (ops.get pid (ops.insert (id peer) peer m.peers)) ≡ true =
              ap (λ p. is_some (ops.get pid p)) (sym same) ∙ h in
            elim (Bool-cases (peer_eq (id peer) pid)) [
              | inl e ↦ contains_congr (id peer) pid _ e has
              | inr e ↦
                  kept pid
                    (v.known pid (rw (laws.get-insert pid (id peer) peer m.peers, e) at found))
            ];
      }

  pub add_known_peer_id-IsValid :
      (m : PeerManager M) (pid : PeerId)
      → IsValid ops id m
      → IsValid ops id (add_known_peer_id ops id m pid)
  add_known_peer_id-IsValid m pid v =
      let (same, repeats, kept, has) = add_known_peer_id-Learned m pid in
      record {
        no_repeats = repeats v.no_repeats;
        known = λ other h.
            kept other (v.known other (ap (λ p. is_some (ops.get other p)) (sym same) ∙ h));
      }

  -- A peer that was added is found under its identifier.
  pub add_peer-get_peer :
      (m : PeerManager M) (peer : P)
      → get_peer ops id (add_peer ops id m peer) (id peer) ≡ some peer
  unfolding add_peer get_peer
  add_peer-get_peer m peer =
      let m1 : PeerManager M = record m { peers = ops.insert (id peer) peer m.peers } in
      ap (ops.get (id peer)) (add_known_peer_id-Learned m1 (id peer)).0
      ∙ laws.get-insert (id peer) (id peer) peer m.peers
      ∙ rw (peer_eq-Equivalence.eq_refl (id peer)) refl

  -- In every run of a manager each identifier it has heard of is listed once, and the identifiers of
  -- all its peers are listed.
  pub Reachable-IsValid : {m : PeerManager M} → Reachable ops id m → IsValid ops id m
  unfolding new contains
  Reachable-IsValid created = record {
    no_repeats = tt;
    known = λ pid h. absurd (ground (arith, laws.get-empty pid, h));
  }
  Reachable-IsValid (peer_added {m} peer r) = add_peer-IsValid m peer (Reachable-IsValid r)
  Reachable-IsValid (id_added {m} pid r) = add_known_peer_id-IsValid m pid (Reachable-IsValid r)

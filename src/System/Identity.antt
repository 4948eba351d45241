-- ===== src/System/Identity.antt =====
-- sf-peer-id, sf-wasm/src/client.rs, websocket.rs and sf-server/src/extract_peer_id.rs: who a client
-- is to the server that it connects to.
use sf_rs.Prelude.{
  ℕ, List, ◌++◌, true, ◌≡◌, ◌≢◌, Option, none, some, ok, codes, all, [], ◌∷◌, All, All-append,
  arith, ap, ◌∙◌, sym,
}
use mathlib.Core.List.{append-nil, append_assoc}
use sf_rs.PeerId.Base.{PeerId, IsValid, peer_eq, peer_id_size, canonical, canonical-eq}
use sf_rs.PeerId.Hex.{is_hex}
use sf_rs.PeerId.Text.{display}
use sf_rs.PeerId.Random.{random, random_total}
use sf_rs.Server.Extract.{from_request_parts}
use sf_rs.Server.Identity.{hex_head, hex_plain, display-Accepts, extract-display}
use sf_rs.Wasm.Client.{Client, ws_url}
use sf_rs.Prelude.Maps.{MapOps}
use sf_rs.Wasm.Client.{PeerOps}

-- The query of an address, as the server's HTTP library finds it: what follows the first `?`, up to
-- the `#` of a fragment; these addresses have none.
abbrev pub FindsQuery : (List ℕ → Option (List ℕ)) → Type 0
FindsQuery query_of =
    (path query : List ℕ)
    → All (λ c. (c ≢ b'?') × (c ≢ b'#')) path
    → All (λ c. c ≢ b'#') query
    → query_of (path ++ codes "?" ++ query) ≡ some query

plain_path :
    (host : List ℕ)
    → All (λ x. (x ≢ b'?') × (x ≢ b'#')) host
    → All (λ x. (x ≢ b'?') × (x ≢ b'#')) (codes "wss://" ++ host ++ codes "/ws")
plain_path host plain =
    let Plain : ℕ → Type 0 = λ x. (x ≢ b'?') × (x ≢ b'#') in
    All-append Plain (codes "wss://" ++ host) (codes "/ws")
      (All-append Plain (codes "wss://") host (omega arith) plain) (omega arith)

plain_digits : (s : List ℕ) → all is_hex s ≡ true → All (λ x. x ≢ b'#') s
plain_digits [] h = tt
plain_digits (c ∷ s) h =
    let (digit, digits) = hex_head c s h in
    let (_, _, no_mark, _) = hex_plain c digit in (ground (arith, no_mark), plain_digits s digits)

plain_query :
    (id : PeerId) → IsValid peer_id_size id → All (λ x. x ≢ b'#') (codes "peer_id=" ++ display id)
plain_query id valid =
    All-append (λ (x : ℕ). x ≢ b'#') (codes "peer_id=") (display id) (omega arith)
      (plain_digits (display id) (display-Accepts id valid).digits)

module _ {P Js M W : Type 0} (table : MapOps PeerId P M) (peer : PeerOps P Js W) where
  -- The identifier that `Client::new` draws, from whatever seed, is the one under which the
  -- server registers the client that connects with it: it is drawn without an error, the address
  -- that is opened has it as its query, and the extractor finds an equal identifier there. The host
  -- of the address has no question mark and no hash sign.
  pub connect_identified :
      (to_str : List ℕ → Option (List ℕ)) (query_of : List ℕ → Option (List ℕ)) (seed : ℕ)
      (c : Client M W) (host : List ℕ)
      → FindsQuery query_of
      → All (λ x. (x ≢ b'?') × (x ≢ b'#')) host
      → (drawn found : PeerId) × (random peer_id_size (ok seed) ≡ ok drawn)
        × (from_request_parts to_str none
              (query_of (ws_url table peer (record c { peer_id = drawn }) host))
            ≡ ok found)
        × (peer_eq drawn found ≡ true)
  unfolding ws_url
  connect_identified to_str query_of seed c host finds plain =
      let (drawn, e, size, valid) = random_total peer_id_size seed (omega arith) (omega arith) in
      let query : List ℕ = codes "peer_id=" ++ display drawn in
      let split : ws_url table peer (record c { peer_id = drawn }) host
          ≡ codes "wss://" ++ host ++ codes "/ws" ++ codes "?" ++ query =
        simp append_assoc in
      (
        drawn,
        canonical peer_id_size drawn,
        e,
        ap (λ u. from_request_parts to_str none (query_of u)) split
            ∙ ap (from_request_parts to_str none) (
                finds (codes "wss://" ++ host ++ codes "/ws") query (plain_path host plain)
                  (plain_query drawn valid)
                ∙ ap some (sym (append-nil query)))
            ∙ extract-display to_str drawn none valid (omega (arith, size)),
        canonical-eq peer_id_size drawn valid,
      )

-- ===== src/Transport/Urls.antt =====
-- sf-wt-transport/src/lib.rs: the two addresses that a dial asks, for the fingerprint and for the session.
use sf_rs.Prelude.{
  ℕ, ◌+◌, List, ◌++◌, ◌≡◌, ◌≢◌, ◌↔◌, refl, sym, ◌∙◌, suc, ap, arith, length, length-append, codes,
}
use sf_rs.Transport.Address.{IpAddr, v4, v6, SocketAddr}
use sf_rs.Transport.Dialing.{decimal, display_ip, fingerprint_url, url_text}

length-appends :
    (a b c d e : List ℕ)
    → length (a ++ b ++ c ++ d ++ e) ≡ length a + length b + length c + length d + length e
length-appends a b c d e = simp (length-append)

length-brackets : (d : List ℕ) → length (codes "[" ++ d ++ codes "]") ≡ length d + 2
length-brackets d = ap suc (length-append d (codes "]")) ∙ omega arith

brackets_longer :
    (d p : List ℕ)
    → codes "http://" ++ d ++ codes ":" ++ p ++ codes "/fingerprint"
      ≢ codes "http"
        ++ codes "://"
        ++ (codes "[" ++ d ++ codes "]")
        ++ codes ":"
        ++ p
        ++ codes "/fingerprint"
brackets_longer d p e =
    let bracketed = codes "[" ++ d ++ codes "]" in
    let inside : length bracketed ≡ length d + 2 = length-brackets d in
    absurd (
      omega (
        arith,
        sym (length-appends (codes "http://") d (codes ":") p (codes "/fingerprint"))
            ∙ ap length e
            ∙ length-appends (codes "http://") bracketed (codes ":") p (codes "/fingerprint"),
        inside,
      ))

module _ (display_v6 : ℕ → List ℕ) where
  -- The address that the fingerprint is asked at is the one that a URL of the host would have, exactly
  -- for a v4 address: around a v6 address it lacks the brackets.
  pub fingerprint_url-url_text :
      (addr : SocketAddr)
      → (fingerprint_url display_v6 addr
          ≡ url_text display_v6 addr (codes "http") ++ codes "/fingerprint")
        ↔ ((n : ℕ) × (addr.ip ≡ v4 n))
  unfolding fingerprint_url url_text display_ip
  fingerprint_url-url_text addr = by_family addr.ip
    where
      by_family :
          (ip : IpAddr)
          → let a : SocketAddr = record { ip = ip; port = addr.port } in
            (fingerprint_url display_v6 a
              ≡ url_text display_v6 a (codes "http") ++ codes "/fingerprint")
            ↔ ((n : ℕ) × (ip ≡ v4 n))
      by_family (v4 n) = ((λ e. (n, refl)), λ h. refl)
      by_family (v6 n) =
          ((λ e. absurd (brackets_longer (display_v6 n) (decimal addr.port) e)), λ h. cc h.1)

-- ===== src/Protocol/Tests.antt =====
-- sf-protocol: requests compared.
use sf_rs.Prelude.{[], ◌∷◌, true, ◌≡◌, ◌↔◌, none}
use sf_rs.PeerId.Base.{PeerId}
use sf_rs.Protocol.{forward, new_peer, request_eq, shown_request, request_eq_iff}

abbrev first : PeerId
first = record { size = 1; bytes = 1 ∷ 0 ∷ [] }

abbrev first_again : PeerId
first_again = record { size = 1; bytes = 1 ∷ 9 ∷ [] }

request_eq_iff_example :
    (request_eq (forward first none (new_peer first)) (forward first_again none (new_peer first))
      ≡ true)
    ↔ (shown_request (forward first none (new_peer first))
        ≡ shown_request (forward first_again none (new_peer first)))
request_eq_iff_example =
    request_eq_iff (forward first none (new_peer first)) (forward first_again none (new_peer first))

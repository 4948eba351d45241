-- ===== src/Server/IdentityTests.antt =====
-- sf-server: the extraction of an identifier at concrete requests.
use sf_rs.Prelude.{◌<◌, [], ◌∷◌, ◌++◌, ◌≡◌, ◌↔◌, refl, arith, none, some, ok, panic, codes}
use sf_rs.PeerId.Base.{peer_id_size, canonical}
use sf_rs.PeerId.Text.{display, from_str}
use sf_rs.Server.Extract.{decode_bytes, from_request_parts}
use sf_rs.Server.Identity.{
  percent_encode, ending, decode_bytes-percent_encode, extract-display, header_first, extract_panic,
}
use sf_rs.Server.Tests.{alice, alice-IsValid}

decode_bytes-percent_encode_example :
    decode_bytes (percent_encode (7 ∷ 255 ∷ [])) ≡ some (7 ∷ 255 ∷ [])
decode_bytes-percent_encode_example =
    decode_bytes-percent_encode (7 ∷ 255 ∷ []) (omega arith, (omega arith, tt))

extract-display_example :
    from_request_parts some none
      (some (codes "peer_id=" ++ display alice ++ ending (some (codes "x=1"))))
    ≡ ok (canonical peer_id_size alice)
extract-display_example =
    extract-display some alice (some (codes "x=1")) alice-IsValid (omega arith)

header_first_example :
    (from_request_parts some (some (codes "01")) none ≡ ok alice)
    ↔ ((from_str peer_id_size (codes "01") ≡ ok alice) × (0 < 2))
header_first_example = header_first some (codes "01") (codes "01") none alice refl

extract_panic_example : from_request_parts some none (some (codes "peer_id=abc")) ≡ panic
extract_panic_example = extract_panic some (codes "abc") none (omega arith) refl refl

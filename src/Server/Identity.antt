-- ===== src/Server/Identity.antt =====
-- sf-server/src/extract_peer_id.rs: which requests are identified.
use sf_rs.Prelude.{
  ℕ, ◌*◌, ◌/◌, ◌%◌, ◌≤◌, ◌<◌, List, [], ◌∷◌, ◌++◌, true, false, ◌==◌, ltb, ◌≡◌, refl, ap, sym, ◌∙◌,
  arith, Option, none, some, length, ok, panic, map_err, map_err-eq-ok, bytes_eq, codes, ◌↔◌, All,
  IsByte, all,
}
use sf_rs.PeerId.Hex.{is_hex, hex_digit, join_nibbles_lem}
use sf_rs.PeerId.Base.{PeerId, peer_id_size, IsValid, canonical}
use sf_rs.PeerId.Text.{from_str, display}
use sf_rs.PeerId.RoundTrip.{Accepts, from_str_ok, from_str-display, from_str_panic}
use sf_rs.Server.Extract.{
  invalid_header_value, bad_query_parse, from_hex, decode_bytes, utf8_from, percent_decode, split,
  split_once, find_param, extract_from_query, extract_from_header, from_request_parts,
}

-- Every byte written as an escape.
abbrev pub percent_encode : List ℕ → List ℕ
percent_encode [] = []
percent_encode (b ∷ bs) = b'%' ∷ hex_digit (b / 16) ∷ hex_digit (b % 16) ∷ percent_encode bs

from_hex-hex_digit : (n : ℕ) → n < 16 → from_hex (hex_digit n) ≡ some n
unfolding from_hex hex_digit
from_hex-hex_digit n h = ground arith

-- Bytes written as escapes decode to themselves.
pub decode_bytes-percent_encode :
    (bs : List ℕ) → All IsByte bs → decode_bytes (percent_encode bs) ≡ some bs
unfolding decode_bytes
decode_bytes-percent_encode [] h = refl
decode_bytes-percent_encode (b ∷ bs) h = rw (
  from_hex-hex_digit (b / 16) (omega (arith, h.0)),
  from_hex-hex_digit (b % 16) (omega arith),
  decode_bytes-percent_encode bs h.1,
  join_nibbles_lem b h.0,
)

pub hex_head :
    (c : ℕ) (cs : List ℕ) → all is_hex (c ∷ cs) ≡ true → (is_hex c ≡ true) × (all is_hex cs ≡ true)
hex_head c cs h = ground arith

pub hex_plain :
    (c : ℕ)
    → is_hex c ≡ true
    → ((c == b'%') ≡ false) × ((c == b'&') ≡ false) × ((c == b'#') ≡ false) × (ltb c 128 ≡ true)
hex_plain c h = (ground arith, ground arith, ground arith, ground arith)

-- The text of an identifier needs no escape.
decode_bytes_hex : (s : List ℕ) → all is_hex s ≡ true → decode_bytes s ≡ some s
unfolding decode_bytes
decode_bytes_hex [] h = refl
decode_bytes_hex (b ∷ []) h = ground arith
decode_bytes_hex (b ∷ c ∷ []) h = ground (arith, decode_bytes_hex (c ∷ []))
decode_bytes_hex (b ∷ c ∷ d ∷ s) h =
    let (digit, rest) = hex_head b (c ∷ d ∷ s) h in
    let (e, _, _, _) = hex_plain b digit in rw (decode_bytes, e, decode_bytes_hex (c ∷ d ∷ s) rest)

utf8_from_hex : (s : List ℕ) → all is_hex s ≡ true → utf8_from (0, 128, 191) s ≡ true
unfolding utf8_from
utf8_from_hex [] h = refl
utf8_from_hex (c ∷ cs) h =
    let (digit, rest) = hex_head c cs h in
    let (_, _, _, e) = hex_plain c digit in rw (utf8_from, e) (utf8_from_hex cs rest)

percent_decode_hex : (s : List ℕ) → all is_hex s ≡ true → percent_decode s ≡ some s
unfolding percent_decode
percent_decode_hex s h = rw (decode_bytes_hex s h, utf8_from_hex s h)

-- What may follow the parameter.
abbrev pub ending : Option (List ℕ) → List ℕ
ending none = []
ending (some more) = b'&' ∷ more

abbrev others : Option (List ℕ) → List (List ℕ)
unfolding split
others none = []
others (some more) = split b'&' more

split_hex :
    (s : List ℕ) (tail : Option (List ℕ))
    → all is_hex s ≡ true
    → split b'&' (s ++ ending tail) ≡ s ∷ others tail
unfolding split
split_hex [] none h = refl
split_hex [] (some more) h = refl
split_hex (c ∷ cs) tail h =
    let (digit, rest) = hex_head c cs h in
    let (_, e, _, _) = hex_plain c digit in rw (e, split_hex cs tail rest)

-- A query whose first parameter is the text of an identifier, of hexadecimal digits, is handed to
-- the parser as it is, whatever parameters follow.
extract_from_query_hex :
    (c : ℕ) (cs : List ℕ) (tail : Option (List ℕ))
    → all is_hex (c ∷ cs) ≡ true
    → extract_from_query (some (codes "peer_id=" ++ (c ∷ cs) ++ ending tail))
      ≡ map_err (λ _. bad_query_parse) (from_str peer_id_size (c ∷ cs))
unfolding extract_from_query split find_param split_once bytes_eq
extract_from_query_hex c cs tail h = rw (split_hex (c ∷ cs) tail h, percent_decode_hex (c ∷ cs) h)

pub display-Accepts :
    (id : PeerId)
    → IsValid peer_id_size id
    → Accepts peer_id_size (display id) (canonical peer_id_size id)
display-Accepts id v =
    from_str_ok peer_id_size (display id) (canonical peer_id_size id) (omega arith)
      (from_str-display peer_id_size id v)

length-display : (id : PeerId) → IsValid peer_id_size id → length (display id) ≡ 2 * id.size
unfolding canonical
length-display id v = (display-Accepts id v).digit_count

-- The identifier of a peer, printed as the first query parameter, is what the server extracts,
-- whatever other parameters follow, when no header is sent.
pub extract-display :
    (to_str : List ℕ → Option (List ℕ)) (id : PeerId) (tail : Option (List ℕ))
    → IsValid peer_id_size id
    → 0 < id.size
    → from_request_parts to_str none (some (codes "peer_id=" ++ display id ++ ending tail))
      ≡ ok (canonical peer_id_size id)
unfolding from_request_parts
extract-display to_str id tail v h = go (display id) refl
  where
    go :
        (s : List ℕ)
        → display id ≡ s
        → extract_from_query (some (codes "peer_id=" ++ s ++ ending tail))
          ≡ ok (canonical peer_id_size id)
    go [] e = absurd (omega (arith, length-display id v, ap length e))
    go (c ∷ cs) e =
        extract_from_query_hex c cs tail (ap (all is_hex) (sym e) ∙ (display-Accepts id v).digits)
        ∙ rw (sym e, from_str-display peer_id_size id v)

-- A header that is sent decides alone: a readable one is parsed and the query is not looked at.
pub header_first :
    (to_str : List ℕ → Option (List ℕ)) (value s : List ℕ) (query : Option (List ℕ)) (id : PeerId)
    → to_str value ≡ some s
    → (from_request_parts to_str (some value) query ≡ ok id)
      ↔ ((from_str peer_id_size s ≡ ok id) × (0 < length s))
unfolding from_request_parts extract_from_header
header_first to_str value [] query id e =
    rw e (λ q. absurd (ground arith), λ q. absurd (omega (arith, q.1)))
header_first to_str value (c ∷ cs) query id e = rw e (
  λ q. (map_err-eq-ok (λ _. invalid_header_value) (from_str peer_id_size (c ∷ cs)) q, omega arith),
  λ q. rw q.0,
)

-- A client makes the extractor panic, in place of a rejection, with a query parameter of an odd
-- number of hexadecimal digits that is not too long.
pub extract_panic :
    (to_str : List ℕ → Option (List ℕ)) (s : List ℕ) (tail : Option (List ℕ))
    → length s ≤ 2 * peer_id_size
    → length s % 2 ≡ 1
    → all is_hex s ≡ true
    → from_request_parts to_str none (some (codes "peer_id=" ++ s ++ ending tail)) ≡ panic
unfolding from_request_parts
extract_panic to_str [] tail fits odd digits = absurd (omega (arith, odd))
extract_panic to_str (c ∷ cs) tail fits odd digits =
    extract_from_query_hex c cs tail digits
    ∙ rw ((from_str_panic peer_id_size (c ∷ cs)).1 (fits, odd, digits))

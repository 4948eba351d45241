-- ===== src/Server/Extract.antt =====
-- sf-server/src/extract_peer_id.rs: the identifier of a peer, from a header or from the query.
use sf_rs.Prelude.{
  ℕ, zero, suc, ◌+◌, ◌-◌, List, [], ◌∷◌, Bool, true, false, ◌&&◌, ◌==◌, ltb, if◌then◌else◌, Option,
  none, some, Outcome, err, map_err, bytes_eq, codes, join_nibbles,
}
use sf_rs.PeerId.Hex.{between}
use sf_rs.PeerId.Base.{PeerId, peer_id_size}
use sf_rs.PeerId.Text.{from_str}

-- `PeerIdRejection`, by its constructor functions; each is a `BAD_REQUEST` with its own message.
pub data Rejection : Type 0 where
  missing_required invalid_header_value empty_header empty_query bad_query_parse : Rejection

-- `from_hex`.
unfoldable pub from_hex : ℕ → Option ℕ
from_hex byte =
    if between b'0' b'9' byte
    then some (byte - b'0')
    else if between b'a' b'f' byte
    then some (byte - b'a' + 10)
    else if between b'A' b'F' byte
    then some (byte - b'A' + 10)
    else none

abbrev onto : ℕ → Option (List ℕ) → Option (List ℕ)
onto b none = none
onto b (some bs) = some (b ∷ bs)

abbrev escaped : Option ℕ → Option ℕ → Option (List ℕ) → Option (List ℕ)
escaped (some hi) (some lo) rest = onto (join_nibbles hi lo) rest
escaped _ _ rest = none

-- The loop of `percent_decode`, on what is left of the input; `%` needs two more bytes.
unfoldable pub decode_bytes : List ℕ → Option (List ℕ)
unfolding from_hex
decode_bytes [] = some []
decode_bytes (b ∷ []) = if b == b'%' then none else some (b ∷ [])
decode_bytes (b ∷ c ∷ []) =
    let rest = decode_bytes (c ∷ []) in if b == b'%' then none else onto b rest
decode_bytes (b ∷ c ∷ d ∷ input) = elim (b == b'%') [
  | true ↦ escaped (from_hex c) (from_hex d) (decode_bytes input)
  | false ↦ onto b (decode_bytes (c ∷ d ∷ input))
]

-- The state of a UTF-8 decoder: the continuation bytes that are due, the first of them from `lo` to
-- `hi`.
abbrev due : ℕ → ℕ × ℕ × ℕ
due c =
    if ltb c 128
    then (0, 128, 191)
    else if between 194 223 c
    then (1, 128, 191)
    else if c == 224
    then (2, 160, 191)
    else if c == 237
    then (2, 128, 159)
    else if between 225 239 c
    then (2, 128, 191)
    else if c == 240
    then (3, 144, 191)
    else if between 241 243 c
    then (3, 128, 191)
    else if c == 244
    then (3, 128, 143)
    else (4, 1, 0)

unfoldable pub utf8_from : ℕ × ℕ × ℕ → List ℕ → Bool
utf8_from (zero, lo, hi) [] = true
utf8_from (suc n, lo, hi) [] = false
utf8_from (zero, lo, hi) (c ∷ cs) = utf8_from (due c) cs
utf8_from (suc n, lo, hi) (c ∷ cs) = between lo hi c && utf8_from (n, 128, 191) cs

-- `String::from_utf8`.
abbrev valid_text : Option (List ℕ) → Option (List ℕ)
valid_text none = none
valid_text (some bs) = if utf8_from (0, 128, 191) bs then some bs else none

-- `percent_decode`.
unfoldable pub percent_decode : List ℕ → Option (List ℕ)
unfolding decode_bytes utf8_from
percent_decode input = valid_text (decode_bytes input)

-- `split('&')`: there is always a first piece.
abbrev before_first : ℕ → List (List ℕ) → List (List ℕ)
before_first c [] = (c ∷ []) ∷ []
before_first c (piece ∷ pieces) = (c ∷ piece) ∷ pieces

unfoldable pub split : ℕ → List ℕ → List (List ℕ)
split sep [] = [] ∷ []
split sep (c ∷ cs) =
    let pieces = split sep cs in if c == sep then [] ∷ pieces else before_first c pieces

-- `split_once('=')`.
abbrev longer : ℕ → Option (List ℕ × List ℕ) → Option (List ℕ × List ℕ)
longer c none = none
longer c (some (key, val)) = some (c ∷ key, val)

unfoldable pub split_once : ℕ → List ℕ → Option (List ℕ × List ℕ)
split_once sep [] = none
split_once sep (c ∷ cs) =
    let rest = split_once sep cs in if c == sep then some ([], cs) else longer c rest

abbrev named : Option (List ℕ × List ℕ) → Option (List ℕ)
named none = none
named (some (key, val)) = if bytes_eq key (codes "peer_id") then some val else none

-- The closure of `find_map`, and `find_map` itself.
abbrev first_some : Option (List ℕ) → Option (List ℕ) → Option (List ℕ)
first_some (some v) rest = some v
first_some none rest = rest

unfoldable pub find_param : List (List ℕ) → Option (List ℕ)
unfolding split_once
find_param [] = none
find_param (pair ∷ pairs) = first_some (named (split_once b'=' pair)) (find_param pairs)

-- An identifier that must not be empty, with the two rejections of its source.
abbrev parsed : Rejection → Rejection → List ℕ → Outcome Rejection PeerId
parsed empty bad [] = err empty
parsed empty bad (c ∷ cs) = map_err (λ _. bad) (from_str peer_id_size (c ∷ cs))

abbrev parse_decoded : Option (List ℕ) → Outcome Rejection PeerId
parse_decoded none = err bad_query_parse
parse_decoded (some decoded) = parsed empty_query bad_query_parse decoded

abbrev from_param : Option (List ℕ) → Outcome Rejection PeerId
unfolding percent_decode
from_param none = err missing_required
from_param (some raw) = parse_decoded (percent_decode raw)

-- `extract_from_query`.
unfoldable pub extract_from_query : Option (List ℕ) → Outcome Rejection PeerId
unfolding percent_decode find_param split
extract_from_query none = err missing_required
extract_from_query (some query) = from_param (find_param (split b'&' query))

-- `HeaderValue::to_str` of the crate http is given.
module _ (to_str : List ℕ → Option (List ℕ)) where
  abbrev parse_header : Option (List ℕ) → Outcome Rejection PeerId
  parse_header none = err invalid_header_value
  parse_header (some s) = parsed empty_header invalid_header_value s

  -- `extract_from_header`.
  unfoldable pub extract_from_header : List ℕ → Outcome Rejection PeerId
  extract_from_header value = parse_header (to_str value)

  -- `from_request_parts`, on the header and the query of the request.
  unfoldable pub from_request_parts : Option (List ℕ) → Option (List ℕ) → Outcome Rejection PeerId
  unfolding extract_from_query extract_from_header
  from_request_parts (some value) query = extract_from_header value
  from_request_parts none query = extract_from_query query

-- ===== src/PeerId/Text.antt =====
-- sf-peer-id/src/peer_id.rs: `FromStr`, `Display`, `Debug` and `random`.
use sf_rs.Prelude.{
  ℕ, ◌+◌, ◌*◌, ◌/◌, ◌%◌, List, [], ◌∷◌, ◌++◌, ltb, if◌then◌else◌, length, set, replicate, Outcome,
  ok, err, panic, ◌>>=◌, join_nibbles, codes,
}
use sf_rs.PeerId.Errors.{Error, invalid_length}
use sf_rs.PeerId.Hex.{hex_char_to_value, format_byte}
use sf_rs.PeerId.Base.{PeerId, visible}

-- The loop over `s.as_bytes().chunks(2).enumerate()`; `chars[1]` is out of range in a chunk of one.
unfoldable pub parse_chunks : ℕ → List ℕ → List ℕ → Outcome Error (List ℕ)
parse_chunks i [] bytes = ok bytes
parse_chunks i (high ∷ []) bytes = do high_val ← hex_char_to_value high (i * 2); panic
parse_chunks i (high ∷ low ∷ rest) bytes = do
  high_val ← hex_char_to_value high (i * 2)
  low_val ← hex_char_to_value low (i * 2 + 1)
  parse_chunks (i + 1) rest (set bytes i (join_nibbles high_val low_val))

-- `from_str`.
unfoldable pub from_str : ℕ → List ℕ → Outcome Error PeerId
unfolding parse_chunks
from_str S s =
    let expected_len = 2 * S in
    let current_len = length s in
    if ltb expected_len current_len then err (invalid_length expected_len current_len) else do
      bytes ← parse_chunks 0 s (replicate S 0)
      ok (record { size = current_len / 2 % 256; bytes = bytes })

-- The loop of `Display` over the visible bytes.
unfoldable pub format_bytes : List ℕ → List ℕ
format_bytes [] = []
format_bytes (b ∷ bs) = format_byte b ++ format_bytes bs

-- `Display`.
unfoldable pub display : PeerId → List ℕ
unfolding format_bytes
display id = format_bytes (visible id)

-- `Debug`; `S` is printed in decimal by its caller's `number`.
unfoldable pub debug : List ℕ → PeerId → List ℕ
unfolding format_bytes
debug number id =
    codes "PeerID<" ++ number ++ codes ">" ++ codes "(" ++ format_bytes (visible id) ++ codes ")"

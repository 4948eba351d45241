-- ===== src/PeerId/Tests.antt =====
-- sf-peer-id: a concrete varint, and the theorems at concrete identifiers.
use sf_rs.Prelude.{
  bytes_eq, length-replicate, All-replicate, ℕ, zero, suc, ◌+◌, ◌-◌, ◌*◌, ◌/◌, ◌%◌, ◌≤◌, ◌<◌, List,
  [], ◌∷◌, ◌++◌, true, ◌≡◌, ◌≢◌, refl, arith, ap, lt→ltb, le→ltb_false, ltb, ◌==◌, if◌then◌else◌,
  codes, map, some, Outcome, ok, err, panic, all, ◌↔◌, IsByte, replicate,
}
use Prim.Native.Nat.{Ordering}
use sf_rs.PeerId.Errors.{
  ReadError, DecodeError, read_decode, read_io, read_unknown, insufficient, overflow, not_minimal,
  invalid_length, io, other, forget_message, error_eq, error_eq_iff,
}
use sf_rs.PeerId.Hex.{is_hex, hex_char_to_value, hex_digit}
use sf_rs.PeerId.Base.{
  PeerId, IsValid, canonical, peer_eq, compare_peers, compare_peers_iff, hash_input, hash_input_iff,
}
use sf_rs.PeerId.Text.{from_str, display}
use sf_rs.PeerId.RoundTrip.{from_str-display, from_str_ok, from_str_panic, Accepts}
use sf_rs.PeerId.Random.{random, random_total, random_too_small}
use sf_rs.PeerId.Binary.{read_size, Varint, VarintLaws, Writer, vec, write, from_bytes}
use sf_rs.PeerId.NoStd.{Decoder, DecoderLaws, read_u8_no_std, read_u8_no_std-encode}
use sf_rs.PeerId.Encoding.{from_bytes-write}
use sf_rs.PeerId.Serde.{serialize, visit_bytes, visit_seq, failed_to_serialize}
use sf_rs.PeerId.SerdeLaws.{serialize_round_trip, serialize_full_fails}

-- LEB128 for one or two bytes.
abbrev encode : ℕ → List ℕ
encode n = if ltb n 128 then n ∷ [] else (n % 128 + 128) ∷ n / 128 ∷ []

abbrev read : List ℕ → Outcome ReadError (ℕ × List ℕ)
read [] = err (read_decode insufficient)
read (b ∷ []) = if ltb b 128 then ok (b, []) else err (read_decode insufficient)
read (b ∷ c ∷ rest) =
    if ltb b 128
    then ok (b, c ∷ rest)
    else if c == 0
    then err (read_decode not_minimal)
    else if ltb c 2
    then (if ltb b 256 then ok (b - 128 + c * 128, rest) else err (read_decode overflow))
    else err (read_decode overflow)

abbrev leb128 : Varint
leb128 = record { encode_u8 = encode; read_u8 = read }

read-encode : (n : ℕ) (rest : List ℕ) → n < 256 → read (encode n ++ rest) ≡ ok (n, rest)
read-encode n [] h = ground arith
read-encode n (r ∷ rest) h = ground arith

read_returns : (bs : List ℕ) → read bs ≢ panic
read_returns [] e = cc
read_returns (b ∷ []) e = ground arith
read_returns (b ∷ c ∷ bs) e = ground arith

leb128_laws : VarintLaws leb128
leb128_laws = record {
  read_encode = read-encode;
  read_returns = read_returns;
  encode_short = λ n h. ground arith;
  encode_long = λ n h k. ground arith;
}

abbrev deadbeef : PeerId
deadbeef = record { size = 4; bytes = 222 ∷ 173 ∷ 190 ∷ 239 ∷ 7 ∷ [] }

deadbeef-IsValid : IsValid 5 deadbeef
deadbeef-IsValid = omega arith

display_test : display deadbeef ≡ codes "deadbeef"
unfolding display hex_digit
display_test = refl

from_str_test :
    from_str 4 (codes "DEADbeef") ≡ ok (record deadbeef { bytes = 222 ∷ 173 ∷ 190 ∷ 239 ∷ [] })
unfolding from_str hex_char_to_value
from_str_test = refl

from_str-display_example : from_str 5 (display deadbeef) ≡ ok (canonical 5 deadbeef)
from_str-display_example = from_str-display 5 deadbeef deadbeef-IsValid

from_str_ok_example :
    Accepts 4 (codes "DEADbeef") (record { size = 4; bytes = 222 ∷ 173 ∷ 190 ∷ 239 ∷ [] })
from_str_ok_example = from_str_ok 4 (codes "DEADbeef") _ (omega arith) from_str_test

from_str_panic_example :
    (from_str 4 (codes "abc") ≡ panic)
    ↔ ((3 ≤ 8) × (◌≡◌ {A = ℕ} (3 % 2) 1) × (all is_hex (codes "abc") ≡ true))
from_str_panic_example = from_str_panic 4 (codes "abc")

from_str_panic_test : from_str 4 (codes "abc") ≡ panic
unfolding from_str hex_char_to_value
from_str_panic_test = refl

random_total_example : (id : PeerId) × (random 32 (ok 7) ≡ ok id) × (id.size ≡ 32) × IsValid 32 id
random_total_example = random_total 32 7 (omega arith) (omega arith)

random_too_small_example : random 16 (ok 7) ≡ err (invalid_length 32 64)
random_too_small_example = random_too_small 16 7 (omega arith)

hidden : PeerId
hidden = record deadbeef { bytes = 222 ∷ 173 ∷ 190 ∷ 239 ∷ 9 ∷ [] }

error_eq_iff_example :
    (error_eq
        (io (record { kind = other; message = codes "a" }))
        (io (record { kind = other; message = codes "b" }))
      ≡ true)
    ↔ (forget_message (io (record { kind = other; message = codes "a" }))
        ≡ forget_message (io (record { kind = other; message = codes "b" })))
error_eq_iff_example =
    error_eq_iff (io (record { kind = other; message = codes "a" }))
      (io (record { kind = other; message = codes "b" }))

hash_input_iff_example :
    (peer_eq deadbeef hidden ≡ true) ↔ (hash_input deadbeef ≡ hash_input hidden)
hash_input_iff_example = hash_input_iff deadbeef hidden

compare_peers_iff_example :
    (compare_peers deadbeef hidden ≡ Ordering.eq) ↔ (◌≡◌ {A = List ℕ} (7 ∷ []) (9 ∷ []))
unfolding hidden bytes_eq
compare_peers_iff_example = compare_peers_iff deadbeef hidden (unfold peer_eq in refl)

from_bytes-write_example :
    (n : ℕ) × (w : Writer) × (write leb128 deadbeef vec ≡ ok (n, w))
    × (from_bytes leb128 5 w.written ≡ ok (canonical 5 deadbeef))
from_bytes-write_example =
    from_bytes-write leb128 leb128_laws 5 deadbeef (omega arith) deadbeef-IsValid

serialize_round_trip_example :
    (bs : List ℕ) × (serialize leb128 5 deadbeef ≡ ok bs)
    × (visit_bytes leb128 5 bs ≡ ok (canonical 5 deadbeef))
    × (visit_seq leb128 5 (map some bs) ≡ ok (canonical 5 deadbeef))
serialize_round_trip_example =
    serialize_round_trip leb128 leb128_laws 5 deadbeef (omega arith) deadbeef-IsValid

long_id : PeerId
long_id = record { size = 128; bytes = replicate 128 1 }

long_id-IsValid : IsValid 128 long_id
unfolding long_id
long_id-IsValid = record {
  array = length-replicate 128 (suc zero);
  within = omega arith;
  size_byte = omega arith;
  all_bytes = All-replicate IsByte 128 1 (omega arith);
}

serialize_full_fails_example : serialize leb128 128 long_id ≡ err failed_to_serialize
unfolding long_id
serialize_full_fails_example =
    serialize_full_fails leb128 leb128_laws 128 long_id (omega arith) (omega arith) long_id-IsValid
      refl

abbrev decode_result : Outcome ReadError (ℕ × List ℕ) → Outcome DecodeError (ℕ × List ℕ)
decode_result (ok r) = ok r
decode_result (err (read_decode e)) = err e
decode_result (err (read_io e)) = err insufficient
decode_result (err read_unknown) = err insufficient
decode_result panic = panic

abbrev leb128_decoder : Decoder
leb128_decoder = record { is_last = λ b. ltb b 128; decode_u8 = λ bs. decode_result (read bs) }

leb128_decoder_laws : DecoderLaws leb128 leb128_decoder
leb128_decoder_laws = record {
  last_below = λ b. refl;
  encode_one = λ n h. rw (lt→ltb n 128 h) refl;
  encode_two = λ n long h.
      (n % 128 + 128, n / 128, rw (le→ltb_false n 128 long) refl, omega arith, omega (arith, h));
  decode_encode = λ n rest h. ap decode_result (read-encode n rest h);
}

read_u8_no_std-encode_example :
    (read_u8_no_std leb128_decoder (172 ∷ 1 ∷ 9 ∷ []) ≡ ok (172, 9 ∷ []))
    × (read_size leb128 (172 ∷ 1 ∷ 9 ∷ []) ≡ ok (172, 9 ∷ []))
read_u8_no_std-encode_example =
    read_u8_no_std-encode leb128 leb128_laws leb128_decoder leb128_decoder_laws 172 (9 ∷ [])
      (omega arith)

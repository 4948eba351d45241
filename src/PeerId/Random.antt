-- ===== src/PeerId/Random.antt =====
-- sf-peer-id/src/peer_id.rs: `random`, from the seed that the clock gives.
use Prim.Native.Nat.{bit_or, bit_xor}
use sf_rs.Prelude.{
  ℕ, zero, suc, ◌+◌, ◌-◌, ◌*◌, ◌/◌, ◌%◌, ◌^◌, ◌≤◌, ◌<◌, List, [], ◌∷◌, true, ◌≡◌, refl, arith,
  length, leb, if◌then◌else◌, all, Outcome, ok, err, panic, ◌>>=◌, Option, none, some,
}
use sf_rs.PeerId.Errors.{Error, invalid_length}
use sf_rs.PeerId.Hex.{is_hex, between}
use sf_rs.PeerId.Base.{PeerId, IsValid}
use sf_rs.PeerId.Text.{from_str}
use sf_rs.PeerId.RoundTrip.{Accepts, from_str_ok, from_str_accepts, from_str_long}

-- The `match nibble`; its last arm is `unreachable!()`.
nibble_char : ℕ → Outcome Error ℕ
nibble_char nibble =
    if between 0 9 nibble
    then ok (b'0' + nibble)
    else if between 10 15 nibble
    then ok (b'a' + (nibble - 10))
    else panic

-- `u128::rotate_left(5)` and the next seed.
abbrev rotate_left_5 : ℕ → ℕ
rotate_left_5 x = bit_or (x * 2 ^ 5 % 2 ^ 128) (x / 2 ^ 123)

next_seed : ℕ → ℕ
next_seed seed = bit_xor (rotate_left_5 seed) (seed * 31 % 2 ^ 128)

-- The loop; `seed & 0xF` is `seed % 16`.
random_chars : ℕ → ℕ → Outcome Error (List ℕ)
unfolding nibble_char next_seed
random_chars zero seed = ok []
random_chars (suc rounds) seed = do
  hex_char ← nibble_char (seed % 16)
  rest ← random_chars rounds (next_seed seed)
  ok (hex_char ∷ rest)

-- `get_random_u128` outside a browser, from the time since the Unix epoch that the clock shows, if
-- it is not before it: `duration_since(UNIX_EPOCH).unwrap()`.
unfoldable pub get_random_u128 : Option ℕ → Outcome Error ℕ
get_random_u128 none = panic
get_random_u128 (some nanos) = ok (nanos % 2 ^ 128)

-- `random` at capacity `S`, from what `get_random_u128` returns.
unfoldable pub random : ℕ → Outcome Error ℕ → Outcome Error PeerId
unfolding random_chars
random S draw = do seed ← draw; s ← random_chars 64 seed; from_str S s

abbrev HexText : ℕ → Outcome Error (List ℕ) → Type 0
HexText n r = (s : List ℕ) × (r ≡ ok s) × (length s ≡ n) × (all is_hex s ≡ true)

nibble_char_hex : (n : ℕ) → n < 16 → (c : ℕ) × (nibble_char n ≡ ok c) × (is_hex c ≡ true)
unfolding nibble_char
nibble_char_hex n h = (if leb n 9 then b'0' + n else b'a' + (n - 10), ground arith, ground arith)

random_chars_hex : (rounds seed : ℕ) → HexText rounds (random_chars rounds seed)
unfolding random_chars
random_chars_hex zero seed = ([], refl, refl, refl)
random_chars_hex (suc rounds) seed =
    let (c, e, h) = nibble_char_hex (seed % 16) (omega arith) in
    let (s, f, len, digits) = random_chars_hex rounds (next_seed seed) in
    (c ∷ s, rw (e, f), omega (arith, len), rw (h, digits))

-- Whatever the seed, `random` reaches neither its `unreachable!()` nor a panic of the parser: at a
-- capacity of 32 to 255 bytes it returns a well-formed identifier of 32 bytes.
pub random_total :
    (S seed : ℕ)
    → 32 ≤ S
    → S < 256
    → (id : PeerId) × (random S (ok seed) ≡ ok id) × (id.size ≡ 32) × IsValid S id
unfolding random
random_total S seed lo hi =
    let (s, e, len, digits) = random_chars_hex 64 seed in
    let (id, f) = from_str_accepts S s (omega (arith, len)) (omega (arith, len)) digits in
    let a : Accepts S s id = from_str_ok S s id hi f in
    (id, rw e f, omega (arith, len, a.digit_count), a.valid)

-- At a smaller capacity it always fails: 64 digits do not fit.
pub random_too_small : (S seed : ℕ) → S < 32 → random S (ok seed) ≡ err (invalid_length (2 * S) 64)
unfolding random
random_too_small S seed h =
    let (s, e, len, digits) = random_chars_hex 64 seed in
    rw (e, from_str_long S s (omega (arith, len)), len)

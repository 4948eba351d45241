-- ===== src/PeerId/Hex.antt =====
-- sf-peer-id/src/hex.rs: the value of a hexadecimal digit; and the digits that `{:02x}` prints.
use sf_rs.Prelude.{
  ℕ, ◌+◌, ◌-◌, ◌*◌, ◌/◌, ◌%◌, ◌<◌, List, [], ◌∷◌, Bool, true, false, ◌&&◌, ◌||◌, ◌==◌, ltb, leb,
  ◌≡◌, refl, ap₂, ◌∙◌, arith, ==_iff, if◌then◌else◌, Outcome, ok, err, holds_below,
  holds_below_sound, join_nibbles,
}
use sf_rs.PeerId.Errors.{Error, invalid_hex_encoding}

-- `lo..=hi` as a pattern.
abbrev pub between : ℕ → ℕ → ℕ → Bool
between lo hi c = leb lo c && leb c hi

-- `hex_char_to_value(c, i)`; a byte read `as char` is the code point of the same number.
unfoldable pub hex_char_to_value : ℕ → ℕ → Outcome Error ℕ
hex_char_to_value c i =
    if between b'0' b'9' c
    then ok (c - b'0')
    else if between b'a' b'f' c
    then ok (c - b'a' + 10)
    else if between b'A' b'F' c
    then ok (c - b'A' + 10)
    else err (invalid_hex_encoding c i)

abbrev pub is_hex : ℕ → Bool
is_hex c = between b'0' b'9' c || (between b'a' b'f' c || between b'A' b'F' c)

-- The lower-case digit of a nibble.
unfoldable pub hex_digit : ℕ → ℕ
hex_digit n = if ltb n 10 then b'0' + n else b'a' + (n - 10)

-- `{byte:02x}`.
abbrev pub format_byte : ℕ → List ℕ
format_byte b = hex_digit (b / 16) ∷ hex_digit (b % 16) ∷ []

-- `u8::to_ascii_lowercase` on a hexadecimal digit.
abbrev pub lower : ℕ → ℕ
lower c = if between b'A' b'F' c then c + 32 else c

pub hex_char_to_value-hex_digit : (n i : ℕ) → n < 16 → hex_char_to_value (hex_digit n) i ≡ ok n
unfolding hex_char_to_value hex_digit
hex_char_to_value-hex_digit n i h = ground arith

-- The value of an accepted digit, and the digit back from its value.
pub hex_char_to_value_ok :
    (c i : ℕ) {n : ℕ}
    → hex_char_to_value c i ≡ ok n
    → (n < 16) × (is_hex c ≡ true) × (hex_digit n ≡ lower c)
unfolding hex_char_to_value hex_digit
hex_char_to_value_ok c i h = ground arith

-- A digit is accepted exactly when it is one, and what is refused is named with its place.
pub hex_char_to_value-is_hex :
    (c i : ℕ) → is_hex c ≡ true → (n : ℕ) × (hex_char_to_value c i ≡ ok n)
unfolding hex_char_to_value
hex_char_to_value-is_hex c i h = (
  if between b'0' b'9' c
      then c - b'0'
      else if between b'a' b'f' c
      then c - b'a' + 10
      else c - b'A' + 10,
  ground arith,
)

pub hex_char_to_value_refused :
    (c i : ℕ) → is_hex c ≡ false → hex_char_to_value c i ≡ err (invalid_hex_encoding c i)
unfolding hex_char_to_value
hex_char_to_value_refused c i h = ground arith

join_table : holds_below (λ b. join_nibbles (b / 16) (b % 16) == b) 256 ≡ true
unfolding holds_below
join_table = refl

pub join_nibbles_lem : (b : ℕ) → b < 256 → join_nibbles (b / 16) (b % 16) ≡ b
join_nibbles_lem b h =
    (==_iff _ b).0 (holds_below_sound (λ c. join_nibbles (c / 16) (c % 16) == c) join_table b h)

-- Two nibbles make one byte, from which both come back.
pub join_nibbles-sum : (hi lo : ℕ) → hi < 16 → lo < 16 → join_nibbles hi lo ≡ hi * 16 + lo
join_nibbles-sum hi lo h k =
    ap₂ join_nibbles {x = hi} (omega arith) (omega arith)
    ∙ join_nibbles_lem (hi * 16 + lo) (omega arith)

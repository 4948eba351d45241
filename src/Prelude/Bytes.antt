-- ===== src/Prelude/Bytes.antt =====
-- Bytes and byte strings. Rust's `&str` and `String` are modelled by their UTF-8 bytes.
use Prim.Native.Nat.{ℕ, ◌<◌, bit_or, ◌*◌, ◌%◌, zero, suc}
use Prim.Native.Char.{code}
use Prim.Native.String.{String}
use mathlib.Core.Path.{◌≡◌, refl, ap₂}
use mathlib.Core.Bool.{Bool, true, false, ◌&&◌}
use mathlib.Core.List.{List, [], ◌∷◌}
use native.Mathlib.Omega.{arith}
use sf_rs.Prelude.Tests.{◌==◌, ==_iff}

abbrev pub IsByte : ℕ → Type 0
IsByte b = b < 256

-- The bytes of a text literal (ASCII).
abbrev pub codes : String → List ℕ
codes String.[] = []
codes (String.◌∷◌ c s) = code c ∷ codes s

unfoldable pub bytes_eq : List ℕ → List ℕ → Bool
bytes_eq [] [] = true
bytes_eq [] (y ∷ ys) = false
bytes_eq (x ∷ xs) [] = false
bytes_eq (x ∷ xs) (y ∷ ys) = x == y && bytes_eq xs ys

pub bytes_eq_refl : (xs : List ℕ) → bytes_eq xs xs ≡ true
unfolding bytes_eq
bytes_eq_refl [] = refl
bytes_eq_refl (x ∷ xs) = ground (arith, bytes_eq_refl xs)

pub bytes_eq→eq : (xs ys : List ℕ) → bytes_eq xs ys ≡ true → xs ≡ ys
unfolding bytes_eq
bytes_eq→eq [] [] h = refl
bytes_eq→eq [] (y ∷ ys) h = cc
bytes_eq→eq (x ∷ xs) [] h = cc
bytes_eq→eq (x ∷ xs) (y ∷ ys) h =
    ap₂ ◌∷◌ ((==_iff x y).0 (ground arith)) (bytes_eq→eq xs ys (ground arith))

-- A property of small numbers is checked at each of them.
unfoldable pub holds_below : (ℕ → Bool) → ℕ → Bool
holds_below test zero = true
holds_below test (suc bound) = holds_below test bound && test bound

pub holds_below_sound :
    (test : ℕ → Bool) {bound : ℕ}
    → holds_below test bound ≡ true
    → (b : ℕ) → b < bound
    → test b ≡ true
unfolding holds_below
holds_below_sound test {bound = zero} all_hold b below = absurd (omega arith)
holds_below_sound test {bound = suc bound} all_hold b below =
    ground (arith, holds_below_sound test {bound = bound} (ground arith) b)

-- `(hi << 4) | lo` on `u8`.
abbrev pub join_nibbles : ℕ → ℕ → ℕ
join_nibbles hi lo = bit_or (hi * 16 % 256) lo

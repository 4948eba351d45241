-- ===== src/Prelude/Int.antt =====
-- Integers over the native numbers: the values of a gauge that counts, and scaled finite floats.
use Prim.Native.Nat.{ℕ, zero, suc, ◌+◌}
use mathlib.Core.Path.{◌≡◌, refl}
use native.Mathlib.Omega.{arith}

-- `negsuc n` is -(n + 1).
pub data ℤ : Type 0 where
  pos : ℕ → ℤ
  negsuc : ℕ → ℤ

-- z + 1 and z - 1.
unfoldable pub inc : ℤ → ℤ
inc (pos n) = pos (n + 1)
inc (negsuc zero) = pos 0
inc (negsuc (suc n)) = negsuc n

unfoldable pub dec : ℤ → ℤ
dec (pos zero) = negsuc 0
dec (pos (suc n)) = pos n
dec (negsuc n) = negsuc (n + 1)

pub dec-inc : (z : ℤ) → dec (inc z) ≡ z
unfolding dec inc
dec-inc (pos n) = ground arith
dec-inc (negsuc zero) = refl
dec-inc (negsuc (suc n)) = ground arith

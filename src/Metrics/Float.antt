-- ===== src/Metrics/Float.antt =====
-- The `f64` of the metrics: a finite one is an integer multiple of 2^-1074, and both zeroes are one.
-- Rounded addition and subtraction are given to the definitions that use them.
use Prim.Native.Nat.{Ordering, compare}
use sf_rs.Prelude.{Bool, true, false, ◌≡◌, refl, arith, Option, none, some}
use sf_rs.Prelude.Int.{ℤ, pos, negsuc}

pub data F64 : Type 0 where
  nan neg_inf pos_inf : F64
  fin : ℤ → F64

-- `Ord` of the scaled integers.
unfoldable pub compareℤ : ℤ → ℤ → Ordering
compareℤ (pos m) (pos n) = compare m n
compareℤ (pos m) (negsuc n) = Ordering.gt
compareℤ (negsuc m) (pos n) = Ordering.lt
compareℤ (negsuc m) (negsuc n) = compare n m

-- `is_finite`.
abbrev pub is_finite : F64 → Bool
is_finite (fin z) = true
is_finite nan = false
is_finite neg_inf = false
is_finite pos_inf = false

-- `partial_cmp`.
unfoldable pub partial_cmp : F64 → F64 → Option Ordering
unfolding compareℤ
partial_cmp nan b = none
partial_cmp neg_inf nan = none
partial_cmp neg_inf neg_inf = some Ordering.eq
partial_cmp neg_inf _ = some Ordering.lt
partial_cmp pos_inf nan = none
partial_cmp pos_inf pos_inf = some Ordering.eq
partial_cmp pos_inf _ = some Ordering.gt
partial_cmp (fin a) nan = none
partial_cmp (fin a) neg_inf = some Ordering.gt
partial_cmp (fin a) pos_inf = some Ordering.lt
partial_cmp (fin a) (fin b) = some (compareℤ a b)

abbrev pub unwrap_or_ordering : Ordering → Option Ordering → Ordering
unwrap_or_ordering d none = d
unwrap_or_ordering d (some o) = o

-- `a < b`.
abbrev pub lt_f64 : F64 → F64 → Bool
unfolding partial_cmp
lt_f64 a b = elim (unwrap_or_ordering Ordering.gt (partial_cmp a b)) [
  | Ordering.lt ↦ true
  | _ ↦ false
]

pub compareℤ-eq : (a b : ℤ) → compareℤ a b ≡ Ordering.eq → a ≡ b
unfolding compareℤ
compareℤ-eq (pos m) (pos n) e = ground arith
compareℤ-eq (pos m) (negsuc n) e = cc
compareℤ-eq (negsuc m) (pos n) e = cc
compareℤ-eq (negsuc m) (negsuc n) e = ground arith

pub compareℤ-gt : (a b : ℤ) → compareℤ a b ≡ Ordering.gt → compareℤ b a ≡ Ordering.lt
unfolding compareℤ
compareℤ-gt (pos m) (pos n) e = ground arith
compareℤ-gt (pos m) (negsuc n) e = refl
compareℤ-gt (negsuc m) (pos n) e = cc
compareℤ-gt (negsuc m) (negsuc n) e = ground arith

pub compareℤ-lt : (a b : ℤ) → compareℤ a b ≡ Ordering.lt → compareℤ b a ≡ Ordering.gt
unfolding compareℤ
compareℤ-lt (pos m) (pos n) e = ground arith
compareℤ-lt (pos m) (negsuc n) e = cc
compareℤ-lt (negsuc m) (pos n) e = refl
compareℤ-lt (negsuc m) (negsuc n) e = ground arith

pub compareℤ-trans :
    (a b c : ℤ)
    → compareℤ a b ≡ Ordering.lt
    → compareℤ b c ≡ Ordering.lt
    → compareℤ a c ≡ Ordering.lt
unfolding compareℤ
compareℤ-trans (pos l) (pos m) (pos n) e f = ground arith
compareℤ-trans (pos l) (pos m) (negsuc n) e f = cc
compareℤ-trans (pos l) (negsuc m) c e f = cc
compareℤ-trans (negsuc l) (pos m) (pos n) e f = refl
compareℤ-trans (negsuc l) (pos m) (negsuc n) e f = cc
compareℤ-trans (negsuc l) (negsuc m) (pos n) e f = refl
compareℤ-trans (negsuc l) (negsuc m) (negsuc n) e f = ground arith

-- ===== src/Metrics/Buckets.antt =====
-- sf-metrics/src/inmemory/histogram.rs: the boundaries of a histogram.
use Prim.Native.Nat.{Ordering}
use sf_rs.Prelude.{List, [], ◌∷◌, ◌≡◌, if◌then◌else◌, Option, none, some}
use sf_rs.Prelude.Int.{ℤ}
use sf_rs.Metrics.Float.{
  F64, nan, neg_inf, pos_inf, fin, is_finite, partial_cmp, unwrap_or_ordering, compareℤ,
}

-- The comparator of the sort; a NaN is `Equal` to everything.
abbrev pub sort_cmp : F64 → F64 → Ordering
unfolding partial_cmp
sort_cmp a b = unwrap_or_ordering Ordering.eq (partial_cmp a b)

-- `sort_unstable_by`. Its result is determined where the comparator is an order, so without NaN.
unfoldable pub insert_sorted : F64 → List F64 → List F64
insert_sorted a [] = a ∷ []
insert_sorted a (b ∷ bs) =
    let rest = insert_sorted a bs in elim (sort_cmp a b) [ Ordering.gt ↦ b ∷ rest | _ ↦ a ∷ b ∷ bs ]

unfoldable pub sort : List F64 → List F64
sort [] = []
sort (a ∷ bs) = insert_sorted a (sort bs)

-- `retain(|b| b.is_finite())`.
unfoldable pub retain_finite : List F64 → List F64
retain_finite [] = []
retain_finite (a ∷ bs) = let rest = retain_finite bs in if is_finite a then a ∷ rest else rest

-- `dedup`: each element equal to the last one kept goes. `a == b` is `partial_cmp` giving `Equal`.
abbrev pub equality : F64 → F64 → Ordering
unfolding partial_cmp
equality a b = unwrap_or_ordering Ordering.lt (partial_cmp a b)

unfoldable pub dedup_after : F64 → List F64 → List F64
dedup_after last [] = []
dedup_after last (a ∷ bs) = elim (equality a last) [
  | Ordering.eq ↦ dedup_after last bs
  | _ ↦ a ∷ dedup_after a bs
]

unfoldable pub dedup : List F64 → List F64
dedup [] = []
dedup (a ∷ bs) = a ∷ dedup_after a bs

-- `HistogramStorage::new`, from the list of the caller or the default one.
abbrev pub chosen : List F64 → Option (List F64) → List F64
chosen default_buckets none = default_buckets
chosen default_buckets (some input) = input

unfoldable pub new_buckets : List F64 → Option (List F64) → List F64
unfolding sort retain_finite dedup
new_buckets default_buckets input = dedup (retain_finite (sort (chosen default_buckets input)))

-- Finite boundaries, each greater than the one before it.
abbrev pub Above : ℤ → List F64 → Type 0
Above a [] = Unit
Above a (fin b ∷ bs) = (compareℤ a b ≡ Ordering.lt) × Above b bs
Above a (nan ∷ bs) = ⊥
Above a (neg_inf ∷ bs) = ⊥
Above a (pos_inf ∷ bs) = ⊥

abbrev pub Ascending : List F64 → Type 0
Ascending [] = Unit
Ascending (fin b ∷ bs) = Above b bs
Ascending (nan ∷ bs) = ⊥
Ascending (neg_inf ∷ bs) = ⊥
Ascending (pos_inf ∷ bs) = ⊥

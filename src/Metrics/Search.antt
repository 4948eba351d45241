-- ===== src/Metrics/Search.antt =====
-- sf-metrics/src/inmemory/histogram.rs: the binary search of `observe`, and the bucket it finds.
use Prim.Native.Nat.{Ordering}
use sf_rs.Prelude.{
  ℕ, zero, suc, ◌+◌, ◌-◌, ◌/◌, ◌≤◌, ◌<◌, List, [], ◌∷◌, true, false, Bool, ◌≡◌, ◌≢◌, refl, sym,
  arith, Option, none, some, length, get_elem?, ltb, if◌then◌else◌, ap, ◌∙◌,
}
use sf_rs.Prelude.Int.{ℤ}
use sf_rs.Metrics.Float.{
  F64, nan, neg_inf, pos_inf, fin, partial_cmp, unwrap_or_ordering, lt_f64, compareℤ, compareℤ-eq,
  compareℤ-gt, compareℤ-lt, compareℤ-trans,
}
use sf_rs.Metrics.Buckets.{Above}

-- The closure: how the probed boundary compares to `v`.
abbrev pub probe : F64 → F64 → Ordering
unfolding partial_cmp
probe v b = unwrap_or_ordering Ordering.lt (partial_cmp b v)

abbrev pub probe_at : F64 → Option F64 → Ordering
probe_at v none = Ordering.gt
probe_at v (some b) = probe v b

-- The loop of `binary_search_by`: the search halves `size` until it is 1. The fuel is the first size.
unfoldable pub narrow : ℕ → F64 → List F64 → ℕ → ℕ → ℕ
narrow zero v bs base size = base
narrow (suc fuel) v bs base size =
    let half = size / 2 in
    elim (ltb 1 size) [
      | true ↦ elim (probe_at v (get_elem? bs (base + half))) [
        | Ordering.gt ↦ narrow fuel v bs base (size - half)
        | _ ↦ narrow fuel v bs (base + half) (size - half)
      ]
      | false ↦ base
    ]

-- `binary_search_by(..).unwrap_or_else(|insertion_point| insertion_point)`.
unfoldable pub bucket_index : F64 → List F64 → ℕ
unfolding narrow
bucket_index v [] = 0
bucket_index v (b ∷ bs) =
    let base = narrow (length (b ∷ bs)) v (b ∷ bs) 0 (length (b ∷ bs)) in
    elim (probe_at v (get_elem? (b ∷ bs) base)) [ Ordering.lt ↦ base + 1 | _ ↦ base ]

-- How many boundaries are less than `v`: the specification of the search.
unfoldable pub count_below : F64 → List F64 → ℕ
count_below v [] = 0
count_below v (b ∷ bs) = let rest = count_below v bs in if lt_f64 b v then rest + 1 else rest

compareℤ-past :
    (b c v : ℤ)
    → compareℤ b c ≡ Ordering.lt
    → compareℤ b v ≢ Ordering.lt
    → compareℤ c v ≡ Ordering.gt
compareℤ-past b c v h n = go (compareℤ b v) refl
  where
    go : (o : Ordering) → compareℤ b v ≡ o → compareℤ c v ≡ Ordering.gt
    go Ordering.lt e = absurd (n e)
    go Ordering.eq e = ap (compareℤ c) (sym (compareℤ-eq b v e)) ∙ compareℤ-lt b c h
    go Ordering.gt e = compareℤ-lt v c (compareℤ-trans v b c (compareℤ-gt b v e) h)

-- Behind a boundary that is not below `v` every boundary is above it.
pub rest-Above :
    (b v : ℤ) (bs : List F64)
    → Above b bs
    → compareℤ b v ≢ Ordering.lt
    → ((i : ℕ) → i < length bs → probe_at (fin v) (get_elem? bs i) ≡ Ordering.gt)
      × (count_below (fin v) bs ≡ 0)
unfolding count_below partial_cmp
rest-Above b v [] h n = (λ i lt. absurd (omega (arith, lt)), refl)
rest-Above b v (fin c ∷ bs) h n =
    let past = compareℤ-past b c v h.0 n in
    let (all_above, none_below) = rest-Above c v bs h.1 (λ k. cc (past, k)) in
    (at_place past all_above, not_below past none_below)
  where
    not_below :
        compareℤ c v ≡ Ordering.gt
        → count_below (fin v) bs ≡ 0
        → count_below (fin v) (fin c ∷ bs) ≡ 0
    not_below past none_below = rw (lt_f64, partial_cmp, past, none_below) refl

    at_place :
        compareℤ c v ≡ Ordering.gt
        → ((i : ℕ) → i < length bs → probe_at (fin v) (get_elem? bs i) ≡ Ordering.gt)
        → (i : ℕ) → i < length (fin c ∷ bs)
        → probe_at (fin v) (get_elem? (fin c ∷ bs) i) ≡ Ordering.gt
    at_place past all_above zero lt = past
    at_place past all_above (suc i) lt = all_above i (omega (arith, lt))
rest-Above b v (nan ∷ bs) h n = absurd h
rest-Above b v (neg_inf ∷ bs) h n = absurd h
rest-Above b v (pos_inf ∷ bs) h n = absurd h

pub empty_count : (v : F64) → 0 ≡ count_below v []
unfolding count_below
empty_count v = refl

pub count_below-length : (v : ℤ) (bs : List F64) → count_below (fin v) bs ≤ 0 + length bs
unfolding count_below
count_below-length v [] = omega arith
count_below-length v (b ∷ bs) = go (lt_f64 b (fin v)) (count_below-length v bs)
  where
    go :
        (below : Bool)
        → count_below (fin v) bs ≤ 0 + length bs
        → (if below then count_below (fin v) bs + 1 else count_below (fin v) bs)
          ≤ 0 + length (b ∷ bs)
    go true h = omega (arith, h)
    go false h = omega (arith, h)

-- ===== src/Metrics/Locating.antt =====
-- sf-metrics/src/inmemory/histogram.rs: where the binary search of a value ends.
use Prim.Native.Nat.{Ordering}
use sf_rs.Prelude.{
  ℕ, zero, suc, ◌+◌, ◌-◌, ◌/◌, ◌≤◌, ◌<◌, List, [], ◌∷◌, ◌≡◌, ◌≢◌, refl, sym, arith, inl, inr,
  length, get_elem?, lt→ltb, le→ltb_false, le_or_lt, ◌∙◌,
}
use sf_rs.Prelude.Int.{ℤ}
use sf_rs.Metrics.Float.{F64, nan, neg_inf, pos_inf, fin, lt_f64, partial_cmp, compareℤ}
use sf_rs.Metrics.Buckets.{Above, Ascending}
use sf_rs.Metrics.Search.{
  probe_at, narrow, bucket_index, count_below, rest-Above, empty_count, count_below-length,
}

-- What the comparison at a place says of it, where `k` boundaries lie below.
abbrev Place : Ordering → ℕ → ℕ → Type 0
Place Ordering.lt i k = i < k
Place Ordering.eq i k = i ≡ k
Place Ordering.gt i k = k ≤ i

Place-suc : (o : Ordering) (i k : ℕ) → Place o i k → Place o (suc i) (k + 1)
Place-suc Ordering.lt i k h = omega (arith, h)
Place-suc Ordering.eq i k h = omega (arith, h)
Place-suc Ordering.gt i k h = omega (arith, h)

count_below_lt :
    (b v : ℤ) (bs : List F64)
    → compareℤ b v ≡ Ordering.lt
    → count_below (fin v) (fin b ∷ bs) ≡ count_below (fin v) bs + 1
unfolding count_below partial_cmp
count_below_lt b v bs e = rw (lt_f64, partial_cmp, e) refl

-- From a boundary on that is not below `v` none is.
count_below_rest :
    (b v : ℤ) (bs : List F64) (o : Ordering)
    → Above b bs
    → compareℤ b v ≡ o
    → o ≢ Ordering.lt
    → (count_below (fin v) (fin b ∷ bs) ≡ 0)
      × ((i : ℕ) → i < length bs → probe_at (fin v) (get_elem? bs i) ≡ Ordering.gt)
unfolding count_below partial_cmp
count_below_rest b v bs Ordering.lt h e n = absurd (n refl)
count_below_rest b v bs Ordering.eq h e n =
    let (all_above, none_below) = rest-Above b v bs h (λ k. n (sym e ∙ k)) in
    (rw (lt_f64, partial_cmp, e, none_below) refl, all_above)
count_below_rest b v bs Ordering.gt h e n =
    let (all_above, none_below) = rest-Above b v bs h (λ k. n (sym e ∙ k)) in
    (rw (lt_f64, partial_cmp, e, none_below) refl, all_above)

first-Place :
    (b v : ℤ) (bs : List F64)
    → Above b bs
    → Place (compareℤ b v) 0 (count_below (fin v) (fin b ∷ bs))
first-Place b v bs h = go (compareℤ b v) refl
  where
    go : (o : Ordering) → compareℤ b v ≡ o → Place o 0 (count_below (fin v) (fin b ∷ bs))
    go Ordering.lt e = rw (count_below_lt b v bs e) (omega arith)
    go Ordering.eq e = sym (count_below_rest b v bs Ordering.eq h e (λ k. cc)).0
    go Ordering.gt e = rw ((count_below_rest b v bs Ordering.gt h e (λ k. cc)).0) (omega arith)

later-Place :
    (b v : ℤ) (bs : List F64) (i : ℕ)
    → Above b bs
    → i < length bs
    → Place (probe_at (fin v) (get_elem? bs i)) i (count_below (fin v) bs)
    → Place (probe_at (fin v) (get_elem? bs i)) (suc i) (count_below (fin v) (fin b ∷ bs))
later-Place b v bs i h lt ih = go (compareℤ b v) refl
  where
    past :
        (o : Ordering)
        → compareℤ b v ≡ o
        → o ≢ Ordering.lt
        → Place (probe_at (fin v) (get_elem? bs i)) (suc i) (count_below (fin v) (fin b ∷ bs))
    past o e n =
        let (none_below, all_above) = count_below_rest b v bs o h e n in
        rw (none_below, all_above i lt) (omega arith)

    go :
        (o : Ordering)
        → compareℤ b v ≡ o
        → Place (probe_at (fin v) (get_elem? bs i)) (suc i) (count_below (fin v) (fin b ∷ bs))
    go Ordering.lt e = rw (count_below_lt b v bs e) (Place-suc _ i _ ih)
    go Ordering.eq e = past Ordering.eq e (λ k. cc)
    go Ordering.gt e = past Ordering.gt e (λ k. cc)

Above-Ascending : (b : ℤ) (bs : List F64) → Above b bs → Ascending bs
Above-Ascending b [] h = tt
Above-Ascending b (fin c ∷ bs) h = h.1
Above-Ascending b (nan ∷ bs) h = absurd h
Above-Ascending b (neg_inf ∷ bs) h = absurd h
Above-Ascending b (pos_inf ∷ bs) h = absurd h

-- Among ascending boundaries a probe tells on which side of the boundaries below `v` it is.
place :
    (v : ℤ) (bs : List F64) (i : ℕ)
    → Ascending bs
    → i < length bs
    → Place (probe_at (fin v) (get_elem? bs i)) i (count_below (fin v) bs)
unfolding partial_cmp
place v [] i h lt = absurd (omega (arith, lt))
place v (fin b ∷ bs) zero h lt = first-Place b v bs h
place v (fin b ∷ bs) (suc i) h lt =
    later-Place b v bs i h (omega (arith, lt))
      (place v bs i (Above-Ascending b bs h) (omega (arith, lt)))
place v (nan ∷ bs) i h lt = absurd h
place v (neg_inf ∷ bs) i h lt = absurd h
place v (pos_inf ∷ bs) i h lt = absurd h

-- The search keeps the place that it looks for between `base` and `base + size`.
narrow-bounds :
    (fuel base size : ℕ) (v : ℤ) (bs : List F64)
    → Ascending bs
    → size ≤ fuel
    → 1 ≤ size
    → base + size ≤ length bs
    → base ≤ count_below (fin v) bs
    → count_below (fin v) bs ≤ base + size
    → let r = narrow fuel (fin v) bs base size in
      (r < length bs) × (r ≤ count_below (fin v) bs) × (count_below (fin v) bs ≤ r + 1)
unfolding narrow
narrow-bounds zero base size v bs h f one fits lo hi = absurd (omega (arith, f, one))
narrow-bounds (suc fuel) base size v bs h f one fits lo hi = elim (le_or_lt size 1) [
  | inl small ↦
      rw (narrow, le→ltb_false 1 size small)
        (omega (arith, one, fits), lo, omega (arith, small, hi))
  | inr big ↦
      let mid = base + size / 2 in
      step big (probe_at (fin v) (get_elem? bs mid)) refl
        (place v bs mid h (omega (arith, fits, big)))
        (narrow-bounds fuel base (size - size / 2) v bs h (omega (arith, f, big))
          (omega (arith, big)) (omega (arith, fits)) lo)
        λ lo'.
          narrow-bounds fuel mid (size - size / 2) v bs h (omega (arith, f, big))
            (omega (arith, big)) (omega (arith, fits)) lo' (omega (arith, hi))
]
  where
    Found : ℕ → Type 0
    Found r = (r < length bs) × (r ≤ count_below (fin v) bs) × (count_below (fin v) bs ≤ r + 1)

    step :
        1 < size
        → (o : Ordering) → probe_at (fin v) (get_elem? bs (base + size / 2)) ≡ o
        → Place o (base + size / 2) (count_below (fin v) bs)
        → (count_below (fin v) bs ≤ base + (size - size / 2)
            → Found (narrow fuel (fin v) bs base (size - size / 2)))
        → (base + size / 2 ≤ count_below (fin v) bs
            → Found (narrow fuel (fin v) bs (base + size / 2) (size - size / 2)))
        → Found (narrow (suc fuel) (fin v) bs base size)
    step big Ordering.gt e at_mid left right =
        rw (narrow, lt→ltb 1 size big, e) (left (omega (arith, at_mid)))
    step big Ordering.lt e at_mid left right =
        rw (narrow, lt→ltb 1 size big, e) (right (omega (arith, at_mid)))
    step big Ordering.eq e at_mid left right =
        rw (narrow, lt→ltb 1 size big, e) (right (omega (arith, at_mid)))

-- The bucket of a finite value is the number of boundaries less than it, whatever the number of
-- boundaries: the binary search neither leaves the boundaries nor misses the place.
pub bucket_index-count_below :
    (v : ℤ) (bs : List F64) → Ascending bs → bucket_index (fin v) bs ≡ count_below (fin v) bs
unfolding bucket_index
bucket_index-count_below v [] h = empty_count (fin v)
bucket_index-count_below v (b ∷ bs) h =
    let base = narrow (length (b ∷ bs)) (fin v) (b ∷ bs) 0 (length (b ∷ bs)) in
    let (inside, lo, hi) =
      narrow-bounds (length (b ∷ bs)) 0 (length (b ∷ bs)) v (b ∷ bs) h (omega arith) (omega arith)
        (omega arith) (omega arith) (count_below-length v (b ∷ bs)) in
    last (probe_at (fin v) (get_elem? (b ∷ bs) base)) (place v (b ∷ bs) base h inside) lo hi
  where
    last :
        {base k : ℕ} (o : Ordering)
        → Place o base k
        → base ≤ k
        → k ≤ base + 1
        → elim o as (λ _. ℕ) [ Ordering.lt ↦ base + 1 | _ ↦ base ] ≡ k
    last Ordering.lt at_base lo hi = omega (arith, at_base, hi)
    last Ordering.eq at_base lo hi = at_base
    last Ordering.gt at_base lo hi = omega (arith, at_base, lo)

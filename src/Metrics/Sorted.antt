-- ===== src/Metrics/Sorted.antt =====
-- sf-metrics/src/inmemory/histogram.rs: the boundaries that a histogram keeps are in strict order.
use Prim.Native.Nat.{Ordering}
use sf_rs.Prelude.{List, [], ◌∷◌, true, ◌≡◌, ◌≢◌, refl, arith, Option, ◌⊎◌, inl, inr, All}
use sf_rs.Prelude.Int.{ℤ, pos, negsuc}
use sf_rs.Metrics.Float.{
  F64, nan, neg_inf, pos_inf, fin, is_finite, partial_cmp, compareℤ, compareℤ-gt, compareℤ-lt,
}
use sf_rs.Metrics.Buckets.{
  sort_cmp, insert_sorted, sort, retain_finite, dedup_after, dedup, new_buckets, chosen, Above,
  Ascending,
}

abbrev pub IsNumber : F64 → Type 0
IsNumber nan = ⊥
IsNumber neg_inf = Unit
IsNumber pos_inf = Unit
IsNumber (fin z) = Unit

abbrev le : F64 → F64 → Type 0
le a b = sort_cmp a b ≢ Ordering.gt

leℤ_trans :
    (a b c : ℤ)
    → compareℤ a b ≢ Ordering.gt
    → compareℤ b c ≢ Ordering.gt
    → compareℤ a c ≢ Ordering.gt
unfolding compareℤ
leℤ_trans (pos l) (pos m) (pos n) e f = ground arith
leℤ_trans (pos l) (pos m) (negsuc n) e f = absurd (f refl)
leℤ_trans (pos l) (negsuc m) c e f = absurd (e refl)
leℤ_trans (negsuc l) (pos m) (pos n) e f = λ h. cc
leℤ_trans (negsuc l) (pos m) (negsuc n) e f = absurd (f refl)
leℤ_trans (negsuc l) (negsuc m) (pos n) e f = λ h. cc
leℤ_trans (negsuc l) (negsuc m) (negsuc n) e f = ground arith

le_trans : (a b c : F64) → IsNumber b → le a b → le b c → le a c
unfolding partial_cmp
le_trans nan b c h e f = λ k. cc
le_trans neg_inf b nan h e f = λ k. cc
le_trans neg_inf b neg_inf h e f = λ k. cc
le_trans neg_inf b pos_inf h e f = λ k. cc
le_trans neg_inf b (fin c) h e f = λ k. cc
le_trans pos_inf pos_inf c h e f = f
le_trans pos_inf neg_inf c h e f = absurd (e refl)
le_trans pos_inf (fin b) c h e f = absurd (e refl)
le_trans pos_inf nan c h e f = absurd h
le_trans (fin a) nan c h e f = absurd h
le_trans (fin a) neg_inf c h e f = absurd (e refl)
le_trans (fin a) b nan h e f = λ k. cc
le_trans (fin a) b pos_inf h e f = λ k. cc
le_trans (fin a) pos_inf neg_inf h e f = absurd (f refl)
le_trans (fin a) pos_inf (fin c) h e f = absurd (f refl)
le_trans (fin a) (fin b) neg_inf h e f = absurd (f refl)
le_trans (fin a) (fin b) (fin c) h e f = leℤ_trans a b c e f

le_flip : (a b : F64) → sort_cmp a b ≡ Ordering.gt → le b a
unfolding partial_cmp
le_flip (fin a) (fin b) h = λ k. cc (compareℤ-gt a b h)
le_flip nan b h = cc
le_flip neg_inf nan h = cc
le_flip neg_inf neg_inf h = cc
le_flip neg_inf pos_inf h = cc
le_flip neg_inf (fin b) h = cc
le_flip pos_inf nan h = cc
le_flip pos_inf pos_inf h = cc
le_flip (fin a) nan h = cc
le_flip (fin a) pos_inf h = cc
le_flip pos_inf neg_inf h = λ k. cc
le_flip pos_inf (fin b) h = λ k. cc
le_flip (fin a) neg_inf h = λ k. cc

order_cases : (o : Ordering) → (o ≡ Ordering.gt) ⊎ (o ≢ Ordering.gt)
order_cases Ordering.gt = inl refl
order_cases Ordering.lt = inr λ k. cc
order_cases Ordering.eq = inr λ k. cc

-- Each element is at most every later one.
abbrev Weak : List F64 → Type 0
Weak [] = Unit
Weak (a ∷ bs) = All (le a) bs × Weak bs

All-insert_sorted :
    (P : F64 → Type 0) (a : F64) (bs : List F64) → P a → All P bs → All P (insert_sorted a bs)
unfolding insert_sorted
All-insert_sorted P a [] h k = (h, tt)
All-insert_sorted P a (b ∷ bs) h k = go (sort_cmp a b) (All-insert_sorted P a bs h k.1)
  where
    go :
        (o : Ordering)
        → All P (insert_sorted a bs)
        → All P (elim o [ Ordering.gt ↦ b ∷ insert_sorted a bs | _ ↦ a ∷ b ∷ bs ])
    go Ordering.gt rest = (k.0, rest)
    go Ordering.lt rest = (h, k)
    go Ordering.eq rest = (h, k)

All-le : (a b : F64) (bs : List F64) → IsNumber b → le a b → All (le b) bs → All (le a) bs
All-le a b [] n h k = tt
All-le a b (c ∷ bs) n h k = (le_trans a b c n h k.0, All-le a b bs n h k.1)

insert_sorted-Weak :
    (a : F64) (bs : List F64) → IsNumber a → All IsNumber bs → Weak bs → Weak (insert_sorted a bs)
unfolding insert_sorted
insert_sorted-Weak a [] n ns w = (tt, tt)
insert_sorted-Weak a (b ∷ bs) n ns w = go (sort_cmp a b) refl (insert_sorted-Weak a bs n ns.1 w.1)
  where
    go :
        (o : Ordering)
        → sort_cmp a b ≡ o
        → Weak (insert_sorted a bs)
        → Weak (elim o [ Ordering.gt ↦ b ∷ insert_sorted a bs | _ ↦ a ∷ b ∷ bs ])
    go Ordering.gt e rest = (All-insert_sorted (le b) a bs (le_flip a b e) w.0, rest)
    go Ordering.lt e rest = let h : le a b = λ k. cc (e, k) in ((h, All-le a b bs ns.0 h w.0), w)
    go Ordering.eq e rest = let h : le a b = λ k. cc (e, k) in ((h, All-le a b bs ns.0 h w.0), w)

sort-Weak : (bs : List F64) → All IsNumber bs → All IsNumber (sort bs) × Weak (sort bs)
unfolding sort
sort-Weak [] ns = (tt, tt)
sort-Weak (b ∷ bs) ns =
    let (numbers, weak) = sort-Weak bs ns.1 in
    (
      All-insert_sorted IsNumber b (sort bs) ns.0 numbers,
      insert_sorted-Weak b (sort bs) ns.0 numbers weak,
    )

abbrev IsFinite : F64 → Type 0
IsFinite b = is_finite b ≡ true

All-retain_finite : (P : F64 → Type 0) (bs : List F64) → All P bs → All P (retain_finite bs)
unfolding retain_finite
All-retain_finite P [] h = tt
All-retain_finite P (nan ∷ bs) h = All-retain_finite P bs h.1
All-retain_finite P (neg_inf ∷ bs) h = All-retain_finite P bs h.1
All-retain_finite P (pos_inf ∷ bs) h = All-retain_finite P bs h.1
All-retain_finite P (fin z ∷ bs) h = (h.0, All-retain_finite P bs h.1)

retain_finite-Weak :
    (bs : List F64) → Weak bs → All IsFinite (retain_finite bs) × Weak (retain_finite bs)
unfolding retain_finite
retain_finite-Weak [] w = (tt, tt)
retain_finite-Weak (nan ∷ bs) w = retain_finite-Weak bs w.1
retain_finite-Weak (neg_inf ∷ bs) w = retain_finite-Weak bs w.1
retain_finite-Weak (pos_inf ∷ bs) w = retain_finite-Weak bs w.1
retain_finite-Weak (fin z ∷ bs) w =
    let (finite, weak) = retain_finite-Weak bs w.1 in
    ((refl, finite), (All-retain_finite (le (fin z)) bs w.0, weak))

dedup_after-Above :
    (a : ℤ) (bs : List F64)
    → All IsFinite bs
    → All (le (fin a)) bs
    → Weak bs
    → Above a (dedup_after (fin a) bs)
unfolding dedup_after partial_cmp
dedup_after-Above a [] fs l w = tt
dedup_after-Above a (nan ∷ bs) fs l w = absurd (ground (arith, fs.0))
dedup_after-Above a (neg_inf ∷ bs) fs l w = absurd (ground (arith, fs.0))
dedup_after-Above a (pos_inf ∷ bs) fs l w = absurd (ground (arith, fs.0))
dedup_after-Above a (fin b ∷ bs) fs l w =
    go (compareℤ b a) refl (dedup_after-Above a bs fs.1 l.1 w.1)
      (dedup_after-Above b bs fs.1 w.0 w.1)
  where
    kept : Ordering → List F64
    kept Ordering.eq = dedup_after (fin a) bs
    kept Ordering.lt = fin b ∷ dedup_after (fin b) bs
    kept Ordering.gt = fin b ∷ dedup_after (fin b) bs

    go :
        (o : Ordering)
        → compareℤ b a ≡ o
        → Above a (dedup_after (fin a) bs)
        → Above b (dedup_after (fin b) bs)
        → Above a (kept o)
    go Ordering.eq e same next = same
    go Ordering.gt e same next = (compareℤ-gt b a e, next)
    go Ordering.lt e same next = absurd (l.0 (compareℤ-lt b a e))

dedup-Ascending : (bs : List F64) → All IsFinite bs → Weak bs → Ascending (dedup bs)
unfolding dedup
dedup-Ascending [] fs w = tt
dedup-Ascending (nan ∷ bs) fs w = absurd (ground (arith, fs.0))
dedup-Ascending (neg_inf ∷ bs) fs w = absurd (ground (arith, fs.0))
dedup-Ascending (pos_inf ∷ bs) fs w = absurd (ground (arith, fs.0))
dedup-Ascending (fin b ∷ bs) fs w = dedup_after-Above b bs fs.1 w.0 w.1

-- Whatever boundaries a histogram is made with, as long as none is a NaN, those it keeps are finite
-- and each is greater than the one before.
pub new_buckets-Ascending :
    (default_buckets : List F64) (input : Option (List F64))
    → All IsNumber (chosen default_buckets input)
    → Ascending (new_buckets default_buckets input)
unfolding new_buckets
new_buckets-Ascending default_buckets input h =
    let given = chosen default_buckets input in
    let (finite, weak) = retain_finite-Weak (sort given) (sort-Weak given h).1 in
    dedup-Ascending (retain_finite (sort given)) finite weak

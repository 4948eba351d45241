-- ===== src/Metrics/Values.antt =====
-- sf-metrics/src/inmemory/{counter,gauge,histogram}.rs: what the operations do to a value. Rounded
-- addition and subtraction of `f64` are given.
use sf_rs.Prelude.{
  ℕ, zero, suc, ◌+◌, ◌%◌, ◌^◌, ◌<◌, List, [], ◌∷◌, Bool, true, false, ◌≡◌, refl, ap, ◌∙◌, arith,
  if◌then◌else◌, Option, none, some, length, set, get_elem?, replicate, length-set,
  length-replicate,
}
use sf_rs.Prelude.Int.{ℤ, pos}
use sf_rs.Metrics.Float.{F64, fin, is_finite, lt_f64}
use sf_rs.Metrics.Buckets.{Ascending}
use sf_rs.Metrics.Search.{bucket_index, count_below, count_below-length}
use sf_rs.Metrics.Locating.{bucket_index-count_below}

pub record Arithmetic : Type 0 where
  pub add : F64 → F64 → F64
  pub sub : F64 → F64 → F64
  pub one : F64

abbrev pub f64_zero : F64
f64_zero = fin (pos 0)

-- `fetch_add` on an `AtomicU64` wraps.
abbrev pub wrapping_inc : ℕ → ℕ
wrapping_inc n = (n + 1) % 2 ^ 64

-- `HistogramAtomics`.
pub record HistogramAtomics : Type 0 where
  pub bucket_counts : List ℕ
  pub sum : F64
  pub count : ℕ

unfoldable pub new_atomics : ℕ → HistogramAtomics
new_atomics num_buckets = record {
  bucket_counts = replicate (num_buckets + 1) 0;
  sum = f64_zero;
  count = 0;
}

module _ (f64 : Arithmetic) where
  -- `Counter::increment` and `Counter::increment_by`.
  unfoldable pub counter_increment : F64 → F64
  counter_increment value = f64.add value f64.one

  unfoldable pub counter_increment_by : F64 → F64 → F64
  counter_increment_by v value = if lt_f64 v f64_zero then value else f64.add value v

  -- `Gauge`.
  unfoldable pub gauge_increment : F64 → F64
  gauge_increment value = f64.add value f64.one

  unfoldable pub gauge_decrement : F64 → F64
  gauge_decrement value = f64.sub value f64.one

  unfoldable pub gauge_set : F64 → F64 → F64
  gauge_set v value = v

  unfoldable pub gauge_add : F64 → F64 → F64
  gauge_add v value = f64.add value v

  unfoldable pub gauge_subtract : F64 → F64 → F64
  gauge_subtract v value = f64.sub value v

  -- Where the index is out of range the last bucket counts.
  abbrev bump_last : List ℕ → List ℕ
  bump_last [] = []
  bump_last (n ∷ []) = wrapping_inc n ∷ []
  bump_last (n ∷ m ∷ ns) = n ∷ bump_last (m ∷ ns)

  abbrev count_at : List ℕ → ℕ → Option ℕ → List ℕ
  count_at counts i (some n) = set counts i (wrapping_inc n)
  count_at counts i none = bump_last counts

  -- `observe` of a histogram with these boundaries.
  unfoldable pub observe : List F64 → F64 → HistogramAtomics → HistogramAtomics
  unfolding bucket_index
  observe buckets v a =
      let i = bucket_index v buckets in
      if is_finite v
      then record {
        bucket_counts = count_at a.bucket_counts i (get_elem? a.bucket_counts i);
        sum = f64.add a.sum v;
        count = wrapping_inc a.count;
      }
      else a

  -- `InMemoryHistogramTimer`: whether it has observed, and the histogram's values. The elapsed time
  -- is given at each call.
  unfoldable pub do_observe : List F64 → F64 → Bool × HistogramAtomics → Bool × HistogramAtomics
  unfolding observe
  do_observe buckets elapsed (observed, a) =
      if observed then (observed, a) else (true, observe buckets elapsed a)

  -- Any calls of `observe_duration`, each with its elapsed time, and then `drop`.
  unfoldable pub run_timer :
      List F64 → List F64 → F64 → Bool × HistogramAtomics → Bool × HistogramAtomics
  unfolding do_observe
  run_timer buckets [] at_drop t = do_observe buckets at_drop t
  run_timer buckets (elapsed ∷ calls) at_drop t =
      run_timer buckets calls at_drop (do_observe buckets elapsed t)

-- The sum of the buckets.
abbrev pub total : List ℕ → ℕ
total [] = 0
total (n ∷ ns) = n + total ns

-- A histogram has one bucket more than it has boundaries, and `count` is the number of observations
-- in its buckets, both modulo 2^64.
pub record IsConsistent (buckets : List F64) (a : HistogramAtomics) : Type 0 where
  pub bucket_number : length a.bucket_counts ≡ length buckets + 1
  pub counted : total a.bucket_counts % 2 ^ 64 ≡ a.count % 2 ^ 64

pub get_elem?_below : (ns : List ℕ) (i : ℕ) → i < length ns → (n : ℕ) × (get_elem? ns i ≡ some n)
get_elem?_below [] i h = absurd (omega (arith, h))
get_elem?_below (n ∷ ns) zero h = (n, refl)
get_elem?_below (n ∷ ns) (suc i) h = get_elem?_below ns i (omega (arith, h))

total-set :
    (ns : List ℕ) (i n m : ℕ) → get_elem? ns i ≡ some n → total (set ns i m) + n ≡ total ns + m
total-set [] i n m e = cc
total-set (k ∷ ns) zero n m e = let same : k ≡ n = cc e in omega (arith, same)
total-set (k ∷ ns) (suc i) n m e = omega (arith, total-set ns i n m e)

total-replicate : (n : ℕ) → total (replicate n 0) ≡ 0
total-replicate zero = refl
total-replicate (suc n) = omega (arith, total-replicate n)

pub new_atomics-IsConsistent :
    (buckets : List F64) → IsConsistent buckets (new_atomics (length buckets))
unfolding new_atomics
new_atomics-IsConsistent buckets = record {
  bucket_number = length-replicate (length buckets + 1) zero;
  counted = ap (λ n. n % 2 ^ 64) (total-replicate (length buckets + 1));
}

-- Observing a finite value counts it in the bucket whose number is that of the boundaries below it,
-- adds it to the sum and counts it once, all buckets kept; what is not finite changes nothing.
pub observe_lem :
    (f64 : Arithmetic) (buckets : List F64) (v : ℤ) (a : HistogramAtomics)
    → Ascending buckets
    → IsConsistent buckets a
    → let a' = observe f64 buckets (fin v) a in
      let i = count_below (fin v) buckets in
      ((n : ℕ) × (get_elem? a.bucket_counts i ≡ some n)
        × (a'.bucket_counts ≡ set a.bucket_counts i (wrapping_inc n)))
      × (a'.sum ≡ f64.add a.sum (fin v))
      × (a'.count ≡ wrapping_inc a.count)
      × IsConsistent buckets a'
unfolding observe
observe_lem f64 buckets v a asc ok_ =
    let i = count_below (fin v) buckets in
    let (n, e) =
      get_elem?_below a.bucket_counts i
        (omega (arith, ok_.bucket_number, count_below-length v buckets)) in
    let at_i : count_at f64 a.bucket_counts (bucket_index (fin v) buckets)
          (get_elem? a.bucket_counts (bucket_index (fin v) buckets))
        ≡ set a.bucket_counts i (wrapping_inc n) =
      rw (bucket_index-count_below v buckets asc, e) refl in
    (
      (n, e, at_i),
      refl,
      refl,
      record {
        bucket_number =
            ap length at_i ∙ length-set a.bucket_counts i (wrapping_inc n) ∙ ok_.bucket_number;
        counted =
            ap (λ ns. total ns % 2 ^ 64) at_i
            ∙ omega (arith, total-set a.bucket_counts i n (wrapping_inc n) e, ok_.counted);
      },
    )

-- Values that are not finite are not observed.
pub observe_not_finite :
    (f64 : Arithmetic) (buckets : List F64) (v : F64) (a : HistogramAtomics)
    → is_finite v ≡ false
    → observe f64 buckets v a ≡ a
unfolding observe
observe_not_finite f64 buckets v a e = rw e refl

-- The elapsed time that counts.
abbrev pub first_or : F64 → List F64 → F64
first_or at_drop [] = at_drop
first_or at_drop (elapsed ∷ calls) = elapsed

run_timer_done :
    (f64 : Arithmetic) (buckets calls : List F64) (at_drop : F64) (a : HistogramAtomics)
    → run_timer f64 buckets calls at_drop (true, a) ≡ (true, a)
unfolding run_timer do_observe
run_timer_done f64 buckets [] at_drop a = refl
run_timer_done f64 buckets (elapsed ∷ calls) at_drop a = run_timer_done f64 buckets calls at_drop a

-- However often `observe_duration` is called before a timer is dropped, the timer makes exactly one
-- observation: that of the first call, or that of `drop` if there is no call.
pub run_timer_once :
    (f64 : Arithmetic) (buckets calls : List F64) (at_drop : F64) (a : HistogramAtomics)
    → run_timer f64 buckets calls at_drop (false, a)
      ≡ (true, observe f64 buckets (first_or at_drop calls) a)
unfolding run_timer do_observe
run_timer_once f64 buckets [] at_drop a = refl
run_timer_once f64 buckets (elapsed ∷ calls) at_drop a =
    run_timer_done f64 buckets calls at_drop (observe f64 buckets elapsed a)

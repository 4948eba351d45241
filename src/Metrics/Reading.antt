-- ===== src/Metrics/Reading.antt =====
-- sf-metrics/src/inmemory/{implementation,histogram}.rs: observing through the handle of a histogram,
-- and reading its buckets, counts and sum by name and labels.
use sf_rs.Prelude.{
  ℕ, List, ◌≡◌, refl, sym, subst, ap, ◌∙◌, Option, none, some, set, get_elem?, update_self,
}
use sf_rs.Prelude.Int.{ℤ}
use sf_rs.Prelude.Maps.{MapOps}
use sf_rs.Metrics.Float.{F64, fin}
use sf_rs.Metrics.Buckets.{Ascending}
use sf_rs.Metrics.Search.{count_below}
use sf_rs.Metrics.Labels.{Label, LabelKey, new}
use sf_rs.Metrics.Storage.{Store, Handle, IsHandle, modify}
use sf_rs.Metrics.Values.{
  Arithmetic, HistogramAtomics, observe, IsConsistent, observe_lem, wrapping_inc,
}

module _ {M N : Type 0} (nops : MapOps (List ℕ) ℕ N) (kops : MapOps LabelKey ℕ M)
    (fresh : List F64 → HistogramAtomics) where
  -- The storage of the histograms.
  abbrev pub Histograms : Type 0
  Histograms = Store HistogramAtomics (List F64) M N

  -- `observe` through a handle, over the boundaries of its metric.
  unfoldable pub observe_through : Arithmetic → Handle → F64 → Histograms → Histograms
  unfolding modify observe
  observe_through f64 h v s =
      modify nops kops fresh (observe f64 (s.families h.metrics).buckets v) h s

  abbrev pub Reading : Type 0
  Reading = List F64 × List ℕ × F64 × ℕ

  abbrev pub shown : List F64 → HistogramAtomics → Reading
  shown buckets a = (buckets, a.bucket_counts, a.sum, a.count)

  abbrev atomics : Histograms → ℕ → Option ℕ → Option Reading
  atomics s family none = none
  atomics s family (some c) = some (shown (s.families family).buckets (s.cells c))

  abbrev in_metric : Histograms → List Label → Option ℕ → Option Reading
  in_metric s labels none = none
  in_metric s labels (some family) =
      atomics s family (kops.get (new labels) (s.families family).cells_by_key)

  -- `get_histogram_values`: the boundaries, the counts, the sum and the number of observations.
  unfoldable pub get_histogram_values : List ℕ → List Label → Histograms → Option Reading
  get_histogram_values name labels s = in_metric s labels (nops.get name s.names)

  -- What `get_histogram_values` reads after a finite value was observed through a handle of that name
  -- and labels: the boundaries as before, one more in the bucket whose number is that of the boundaries
  -- less than the value, the value added to the sum, and one more observation. The counts stay consistent with the boundaries.
  pub observe_through-get_histogram_values :
      (f64 : Arithmetic) (h : Handle) (name : List ℕ) (labels : List Label) (v : ℤ) (s : Histograms)
      → IsHandle nops kops fresh h name (new labels) s
      → let buckets = (s.families h.metrics).buckets in
        Ascending buckets
        → IsConsistent buckets (s.cells h.value)
        → let a = s.cells h.value in
          let i = count_below (fin v) buckets in
          (get_histogram_values name labels s ≡ some (shown buckets a))
          × ((n : ℕ) × (get_elem? a.bucket_counts i ≡ some n)
              × (get_histogram_values name labels (observe_through f64 h (fin v) s)
                  ≡ some (
                    buckets,
                    set a.bucket_counts i (wrapping_inc n),
                    f64.add a.sum (fin v),
                    wrapping_inc a.count,
                  )))
          × IsConsistent buckets ((observe_through f64 h (fin v) s).cells h.value)
  unfolding observe_through modify get_histogram_values
  observe_through-get_histogram_values f64 h name labels v s (named, found) ascending consistent =
      let buckets = (s.families h.metrics).buckets in
      let a = s.cells h.value in
      let ((n, at_i, counts), sum, count, kept) =
        observe_lem f64 buckets v a ascending consistent in
      (
        rw (named, found) refl,
        (
          n,
          at_i,
          rw (named, found)
              (ap (λ d. some (shown buckets d))
                  (update_self s.cells h.value (observe f64 buckets (fin v) a))
                ∙ rw (counts, sum, count) refl),
        ),
        subst (IsConsistent buckets)
            (sym (update_self s.cells h.value (observe f64 buckets (fin v) a))) kept,
      )

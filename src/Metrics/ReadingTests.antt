-- ===== src/Metrics/ReadingTests.antt =====
-- sf-metrics: a histogram that is observed and read by name.
use sf_rs.Prelude.{ℕ, List, [], ◌≡◌, refl, sym, subst, some, codes, get_elem?, set, length}
use sf_rs.Prelude.Int.{pos}
use sf_rs.Prelude.Maps.{lookup_by}
use sf_rs.Metrics.Float.{F64, fin}
use sf_rs.Metrics.Buckets.{Ascending}
use sf_rs.Metrics.Search.{count_below}
use sf_rs.Metrics.Labels.{new}
use sf_rs.Metrics.Storage.{Store, Handle, initial, metric, IsValid, IsHandle}
use sf_rs.Metrics.Handles.{initial-IsValid, metric-IsHandle}
use sf_rs.Metrics.Values.{
  HistogramAtomics, new_atomics, IsConsistent, new_atomics-IsConsistent, wrapping_inc,
}
use sf_rs.Metrics.Reading.{
  observe_through, get_histogram_values, shown, observe_through-get_histogram_values,
}
use sf_rs.Metrics.Tests.{buckets, buckets-Ascending, NameMap, KeyMap, nops, kops, nlaws, klaws, f64}

abbrev new_histogram : List F64 → HistogramAtomics
new_histogram bounds = new_atomics (length bounds)

abbrev latency : Handle × Store HistogramAtomics (List F64) KeyMap NameMap
latency =
    metric nops kops new_histogram buckets (codes "latency")
      (initial nops kops new_histogram [] (new_atomics 0))

latency_found :
    IsValid nops kops new_histogram latency.1
    × IsHandle nops kops new_histogram latency.0 (codes "latency") (new []) latency.1
unfolding new
latency_found =
    metric-IsHandle nops kops nlaws klaws new_histogram buckets (codes "latency")
      (initial nops kops new_histogram [] (new_atomics 0))
      (initial-IsValid nops kops nlaws klaws new_histogram [] (new_atomics 0))

latency_buckets : (latency.1.families latency.0.metrics).buckets ≡ buckets
unfolding metric initial lookup_by
latency_buckets = refl

latency-Ascending : Ascending (latency.1.families latency.0.metrics).buckets
latency-Ascending = subst Ascending (sym latency_buckets) buckets-Ascending

latency-IsConsistent :
    IsConsistent (latency.1.families latency.0.metrics).buckets (latency.1.cells latency.0.value)
unfolding metric initial lookup_by new_atomics
latency-IsConsistent = new_atomics-IsConsistent buckets

observe_through-get_histogram_values_example :
    let bounds = (latency.1.families latency.0.metrics).buckets in
    let a = latency.1.cells latency.0.value in
    let i = count_below (fin (pos 7)) bounds in
    (get_histogram_values nops kops new_histogram (codes "latency") [] latency.1
      ≡ some (shown nops kops new_histogram bounds a))
    × ((n : ℕ) × (get_elem? a.bucket_counts i ≡ some n)
        × (get_histogram_values nops kops new_histogram
              (codes "latency")
              []
              (observe_through nops kops new_histogram f64 latency.0 (fin (pos 7)) latency.1)
            ≡ some (
              bounds,
              set a.bucket_counts i (wrapping_inc n),
              f64.add a.sum (fin (pos 7)),
              wrapping_inc a.count,
            )))
    × IsConsistent bounds (
        (observe_through nops kops new_histogram f64 latency.0 (fin (pos 7)) latency.1).cells
          latency.0.value)
observe_through-get_histogram_values_example =
    observe_through-get_histogram_values nops kops new_histogram f64 latency.0 (codes "latency") []
      (pos 7) latency.1 latency_found.1 latency-Ascending latency-IsConsistent

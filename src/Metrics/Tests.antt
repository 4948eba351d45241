-- ===== src/Metrics/Tests.antt =====
-- sf-metrics: the theorems at concrete values.
use sf_rs.Prelude.{
  ℕ, ◌+◌, List, [], ◌∷◌, ◌++◌, true, false, ◌≡◌, ◌⊎◌, refl, some, codes, bytes_eq, get_elem?, set,
  length, ok,
}
use sf_rs.Prelude.Int.{pos, negsuc}
use sf_rs.Prelude.Maps.{MapOps, MapLaws, AssocMap, assoc_map, assoc_map-MapLaws}
use sf_rs.Metrics.Float.{F64, fin, pos_inf, nan, compareℤ}
use sf_rs.Metrics.Buckets.{new_buckets, Ascending}
use sf_rs.Metrics.Sorted.{new_buckets-Ascending}
use sf_rs.Metrics.Search.{bucket_index, count_below}
use sf_rs.Metrics.Locating.{bucket_index-count_below}
use sf_rs.Metrics.Labels.{Label, LabelKey, empty, new, key_eq, key_eq-Equivalence}
use sf_rs.Metrics.LabelOrder.{swap, Distinct, new-Reordered}
use sf_rs.Metrics.Storage.{
  Store, Handle, initial, metric, with_labels, modify, get_value, IsValid, IsHandle,
}
use sf_rs.Metrics.Handles.{
  bytes_eq-Equivalence, initial-IsValid, metric-IsHandle, with_labels-IsHandle, modify-get_value,
}
use sf_rs.Metrics.Values.{
  Arithmetic, new_atomics, observe, run_timer, IsConsistent, new_atomics-IsConsistent, observe_lem,
  wrapping_inc, run_timer_once, f64_zero,
}
use sf_rs.Metrics.Export.{
  quoted, read_quoted, read_quoted-quoted, gather_histogram, gather_histogram_total,
}

abbrev pub buckets : List F64
buckets = fin (negsuc 0) ∷ fin (pos 5) ∷ fin (pos 10) ∷ []

pub buckets-Ascending : Ascending buckets
unfolding compareℤ
buckets-Ascending = (refl, (refl, tt))

new_buckets-Ascending_example :
    Ascending (new_buckets [] (some (fin (pos 5) ∷ pos_inf ∷ fin (pos 1) ∷ fin (pos 5) ∷ [])))
new_buckets-Ascending_example =
    new_buckets-Ascending [] (some (fin (pos 5) ∷ pos_inf ∷ fin (pos 1) ∷ fin (pos 5) ∷ []))
      (tt, (tt, (tt, (tt, tt))))

bucket_index-count_below_example :
    bucket_index (fin (pos 7)) buckets ≡ count_below (fin (pos 7)) buckets
bucket_index-count_below_example = bucket_index-count_below (pos 7) buckets buckets-Ascending

abbrev get_label : Label
get_label = (codes "method", codes "GET")

abbrev home_label : Label
home_label = (codes "path", codes "/")

labels_apart : Distinct (get_label ∷ home_label ∷ [])
labels_apart = (((λ e. cc), tt), (tt, tt))

new-Reordered_example : new (get_label ∷ home_label ∷ []) ≡ new (home_label ∷ get_label ∷ [])
new-Reordered_example = new-Reordered swap labels_apart

abbrev pub NameMap : Type 0
NameMap = AssocMap (List ℕ) ℕ bytes_eq

abbrev pub KeyMap : Type 0
KeyMap = AssocMap LabelKey ℕ key_eq

abbrev pub nops : MapOps (List ℕ) ℕ NameMap
nops = assoc_map (List ℕ) ℕ bytes_eq bytes_eq-Equivalence

abbrev pub kops : MapOps LabelKey ℕ KeyMap
kops = assoc_map LabelKey ℕ key_eq key_eq-Equivalence

abbrev pub nlaws : MapLaws bytes_eq nops
nlaws = assoc_map-MapLaws (List ℕ) ℕ bytes_eq bytes_eq-Equivalence

abbrev pub klaws : MapLaws key_eq kops
klaws = assoc_map-MapLaws LabelKey ℕ key_eq key_eq-Equivalence

abbrev fresh : Unit {0} → F64
fresh u = f64_zero

abbrev start : Store F64 (Unit {0}) KeyMap NameMap
start = initial nops kops fresh tt f64_zero

abbrev requests : Handle × Store F64 (Unit {0}) KeyMap NameMap
requests = metric nops kops fresh tt (codes "requests") start

requests_found :
    IsValid nops kops fresh requests.1
    × IsHandle nops kops fresh requests.0 (codes "requests") empty requests.1
requests_found =
    metric-IsHandle nops kops nlaws klaws fresh tt (codes "requests") start
      (initial-IsValid nops kops nlaws klaws fresh tt f64_zero)

abbrev gets : Handle × Store F64 (Unit {0}) KeyMap NameMap
gets = with_labels nops kops fresh requests.0 (get_label ∷ []) requests.1

with_labels-IsHandle_example :
    IsValid nops kops fresh gets.1
    × IsHandle nops kops fresh gets.0 (codes "requests") (new (get_label ∷ [])) gets.1
with_labels-IsHandle_example =
    with_labels-IsHandle nops kops nlaws klaws fresh requests.0 (codes "requests") empty
      (get_label ∷ []) requests.1 requests_found.0 requests_found.1

gets_found :
    IsValid nops kops fresh gets.1
    × IsHandle nops kops fresh gets.0 (codes "requests") (new (get_label ∷ [])) gets.1
gets_found =
    with_labels-IsHandle nops kops nlaws klaws fresh requests.0 (codes "requests") empty
      (get_label ∷ []) requests.1 requests_found.0 requests_found.1

abbrev one_more : F64 → F64
one_more v = fin (pos 1)

modify-get_value_example :
    let s' = modify nops kops fresh one_more gets.0 gets.1 in
    IsValid nops kops fresh s'
    × (get_value nops kops fresh (codes "requests") (get_label ∷ []) gets.1
        ≡ some (gets.1.cells gets.0.value))
    × (get_value nops kops fresh (codes "requests") (get_label ∷ []) s' ≡ some (fin (pos 1)))
    × ((other : List ℕ) (others : List Label)
        → ((bytes_eq other (codes "requests") ≡ false)
            ⊎ (key_eq (new others) (new (get_label ∷ [])) ≡ false))
        → get_value nops kops fresh other others s' ≡ get_value nops kops fresh other others gets.1)
modify-get_value_example =
    modify-get_value nops kops nlaws klaws fresh one_more gets.0 (codes "requests") (get_label ∷ [])
      gets.1 gets_found.0 gets_found.1

-- Addition that is exact on non-negative integers is enough for a test.
abbrev add_test : F64 → F64 → F64
add_test (fin (pos m)) (fin (pos n)) = fin (pos (m + n))
add_test a b = nan

abbrev pub f64 : Arithmetic
f64 = record { add = add_test; sub = add_test; one = fin (pos 1) }

observe_lem_example :
    let a = new_atomics 3 in
    let a' = observe f64 buckets (fin (pos 7)) a in
    let i = count_below (fin (pos 7)) buckets in
    ((n : ℕ) × (get_elem? a.bucket_counts i ≡ some n)
      × (a'.bucket_counts ≡ set a.bucket_counts i (wrapping_inc n)))
    × (a'.sum ≡ add_test a.sum (fin (pos 7)))
    × (a'.count ≡ wrapping_inc a.count)
    × IsConsistent buckets a'
observe_lem_example =
    observe_lem f64 buckets (pos 7) (new_atomics 3) buckets-Ascending
      (new_atomics-IsConsistent buckets)

run_timer_once_example :
    run_timer f64 buckets (fin (pos 1) ∷ fin (pos 2) ∷ []) (fin (pos 3)) (false, new_atomics 3)
    ≡ (true, observe f64 buckets (fin (pos 1)) (new_atomics 3))
run_timer_once_example =
    run_timer_once f64 buckets (fin (pos 1) ∷ fin (pos 2) ∷ []) (fin (pos 3)) (new_atomics 3)

read_quoted-quoted_example :
    read_quoted (quoted (codes "a\"b") ++ codes "\",x") ≡ some (codes "a\"b", codes ",x")
read_quoted-quoted_example = read_quoted-quoted (codes "a\"b") (codes ",x")

gather_histogram_total_example :
    (lines : List (List ℕ)) × (gather_histogram
        (λ v. codes "1")
        (λ n. codes "0")
        (codes "h")
        buckets
        empty
        (new_atomics 3)
      ≡ ok lines)
    × (length lines ≡ 6)
gather_histogram_total_example =
    gather_histogram_total (λ v. codes "1") (λ n. codes "0") (codes "h") buckets empty
      (new_atomics 3) (new_atomics-IsConsistent buckets)

-- ===== src/Prelude/Maps/Interface.antt =====
-- The operations of a hash map, and their documented behaviour.
use Prim.Native.Nat.{ℕ, suc}
use mathlib.Core.Path.{◌≡◌, refl}
use mathlib.Core.Bool.{Bool, true}
use mathlib.Core.Option.{Option, none, some}
use mathlib.Core.List.{List, [], ◌∷◌}
use native.Mathlib.Omega.{arith}
use sf_rs.Prelude.Tests.{if◌then◌else◌, is_some}
use sf_rs.Prelude.Lists.{All}

-- `Eq`, as Rust asks of the keys.
pub record Equivalence {K : Type 0} (eq : K → K → Bool) : Type 0 where
  pub eq_refl : (k : K) → eq k k ≡ true
  pub eq_sym : (j k : K) → eq j k ≡ true → eq k j ≡ true
  pub eq_trans : (i j k : K) → eq i j ≡ true → eq j k ≡ true → eq i k ≡ true

-- `remove` returns the value that it took out; `entries` is `iter()`, in an order of its own.
pub record MapOps (K V M : Type 0) : Type 0 where
  pub empty : M
  pub get : K → M → Option V
  pub insert : K → V → M → M
  pub remove : K → M → Option V × M
  pub entries : M → List (K × V)
  pub len : M → ℕ

module _ {K V : Type 0} (eq : K → K → Bool) where
  -- The first entry under a key equal to `k`.
  unfoldable pub lookup_by : K → List (K × V) → Option V
  lookup_by k [] = none
  lookup_by k ((j, v) ∷ es) = if eq j k then some v else lookup_by k es

  -- No two entries have equal keys.
  abbrev pub DistinctKeys : List (K × V) → Type 0
  DistinctKeys [] = Unit
  DistinctKeys ((k, v) ∷ es) = (lookup_by k es ≡ none) × DistinctKeys es

pub record MapLaws {K V M : Type 0} (eq : K → K → Bool) (ops : MapOps K V M) : Type 0 where
  pub get-empty : (k : K) → ops.get k ops.empty ≡ none
  pub get-insert :
      (j k : K) (v : V) (m : M)
      → ops.get j (ops.insert k v m) ≡ (if eq k j then some v else ops.get j m)
  pub get-remove :
      (j k : K) (m : M) → ops.get j (ops.remove k m).1 ≡ (if eq k j then none else ops.get j m)
  pub removed : (k : K) (m : M) → (ops.remove k m).0 ≡ ops.get k m
  pub get-entries : (k : K) (m : M) → lookup_by eq k (ops.entries m) ≡ ops.get k m
  pub distinct : (m : M) → DistinctKeys eq (ops.entries m)
  pub len-empty : ops.len ops.empty ≡ 0
  pub len-insert :
      (k : K) (v : V) (m : M)
      → ops.len (ops.insert k v m) ≡ (if is_some (ops.get k m) then ops.len m else suc (ops.len m))
  pub len-remove :
      (k : K) (m : M)
      → ops.len m ≡ (
          if is_some (ops.get k m)
          then suc (ops.len (ops.remove k m).1)
          else ops.len (ops.remove k m).1)

module _ {K V : Type 0} (eq : K → K → Bool) (equiv : Equivalence eq) where
  pub lookup_by-congr :
      (j k : K) (es : List (K × V)) → eq j k ≡ true → lookup_by eq j es ≡ lookup_by eq k es
  unfolding lookup_by
  lookup_by-congr j k [] e = refl
  lookup_by-congr j k ((i, v) ∷ es) e = ground (
    arith,
    lookup_by-congr j k es e,
    equiv.eq_trans i j k,
    equiv.eq_trans i k j,
    equiv.eq_sym j k,
  )

  -- Where keys are distinct, every entry is what its key looks up.
  pub distinct-lookup :
      (es : List (K × V)) → DistinctKeys eq es → All (λ e. lookup_by eq e.0 es ≡ some e.1) es
  unfolding lookup_by
  distinct-lookup [] d = tt
  distinct-lookup ((k, v) ∷ es) d =
      (ground (arith, equiv.eq_refl k), behind es (distinct-lookup es d.1))
    where
      behind :
          (rest : List (K × V))
          → All (λ e. lookup_by eq e.0 es ≡ some e.1) rest
          → All (λ e. lookup_by eq e.0 ((k, v) ∷ es) ≡ some e.1) rest
      behind [] h = tt
      behind ((j, w) ∷ rest) h = (ground (arith, h.0, d.0, lookup_by-congr k j es), behind rest h.1)

-- ===== src/Prelude/Maps/Assoc.antt =====
-- An association list meets the laws of a hash map.
use Prim.Native.Nat.{suc}
use mathlib.Core.Path.{◌≡◌, refl, sym, ◌∙◌}
use mathlib.Core.Bool.{Bool}
use mathlib.Core.Option.{none, some}
use mathlib.Core.List.{List, [], ◌∷◌}
use mathlib.Core.Logic.{inl, inr}
use native.Mathlib.Omega.{arith}
use sf_rs.Prelude.Tests.{if◌then◌else◌, is_some, Bool-cases}
use sf_rs.Prelude.Lists.{length}
use sf_rs.Prelude.Maps.Interface.{
  Equivalence, MapOps, MapLaws, lookup_by, lookup_by-congr, DistinctKeys,
}

module _ {K V : Type 0} (eq : K → K → Bool) where
  unfoldable pub put : K → V → List (K × V) → List (K × V)
  put k v [] = (k, v) ∷ []
  put k v ((j, w) ∷ es) = if eq j k then (k, v) ∷ es else (j, w) ∷ put k v es

  unfoldable pub delete : K → List (K × V) → List (K × V)
  delete k [] = []
  delete k ((j, w) ∷ es) = if eq j k then es else (j, w) ∷ delete k es

module _ {K V : Type 0} (eq : K → K → Bool) (equiv : Equivalence eq) where
  lookup-put :
      (j k : K) (v : V) (es : List (K × V))
      → lookup_by eq j (put eq k v es) ≡ (if eq k j then some v else lookup_by eq j es)
  unfolding lookup_by put
  lookup-put j k v [] = refl
  lookup-put j k v ((i, w) ∷ es) = ground (
    arith,
    lookup-put j k v es,
    equiv.eq_trans k i j,
    equiv.eq_trans i k j,
    equiv.eq_sym i k,
    equiv.eq_sym k i,
    equiv.eq_trans i j k,
    equiv.eq_sym k j,
  )

  lookup-delete :
      (j k : K) (es : List (K × V))
      → DistinctKeys eq es
      → lookup_by eq j (delete eq k es) ≡ (if eq k j then none else lookup_by eq j es)
  unfolding lookup_by delete
  lookup-delete j k [] d = ground arith
  lookup-delete j k ((i, w) ∷ es) d = ground (
    arith,
    lookup-delete j k es d.1,
    lookup_by-congr eq equiv i j es,
    equiv.eq_trans k i j,
    equiv.eq_trans i k j,
    equiv.eq_sym i k,
    equiv.eq_sym k i,
    equiv.eq_trans i j k,
    equiv.eq_sym k j,
    d.0,
  )

  pub put-DistinctKeys :
      (k : K) (v : V) (es : List (K × V)) → DistinctKeys eq es → DistinctKeys eq (put eq k v es)
  unfolding put
  put-DistinctKeys k v [] d = (unfold lookup_by in refl, tt)
  put-DistinctKeys k v ((i, w) ∷ es) d = elim (Bool-cases (eq i k)) [
    | inl hit ↦ rw hit (sym (lookup_by-congr eq equiv i k es hit) ∙ d.0, d.1)
    | inr miss ↦ rw miss (
      ground (arith, miss, lookup-put i k v es, equiv.eq_sym k i, d.0),
      put-DistinctKeys k v es d.1,
    )
  ]

  pub delete-DistinctKeys :
      (k : K) (es : List (K × V)) → DistinctKeys eq es → DistinctKeys eq (delete eq k es)
  unfolding delete
  delete-DistinctKeys k [] d = tt
  delete-DistinctKeys k ((i, w) ∷ es) d = elim (Bool-cases (eq i k)) [
    | inl hit ↦ rw hit d.1
    | inr miss ↦
        rw miss (ground (arith, lookup-delete i k es d.1, d.0), delete-DistinctKeys k es d.1)
  ]

  length-put :
      (k : K) (v : V) (es : List (K × V))
      → length (put eq k v es)
        ≡ (if is_some (lookup_by eq k es) then length es else suc (length es))
  unfolding put lookup_by
  length-put k v [] = refl
  length-put k v ((i, w) ∷ es) = ground (arith, length-put k v es)

  length-delete :
      (k : K) (es : List (K × V))
      → length es ≡ (
          if is_some (lookup_by eq k es)
          then suc (length (delete eq k es))
          else length (delete eq k es))
  unfolding delete lookup_by
  length-delete k [] = refl
  length-delete k ((i, w) ∷ es) = ground (arith, length-delete k es)

module _ (K V : Type 0) (eq : K → K → Bool) where
  -- Lists of entries with distinct keys.
  abbrev pub AssocMap : Type 0
  AssocMap = (es : List (K × V)) × DistinctKeys eq es

module _ (K V : Type 0) (eq : K → K → Bool) (equiv : Equivalence eq) where
  abbrev pub assoc_map : MapOps K V (AssocMap K V eq)
  assoc_map = record {
    empty = ([], tt);
    get = λ k m. lookup_by eq k m.0;
    insert = λ k v m. (put eq k v m.0, put-DistinctKeys eq equiv k v m.0 m.1);
    remove = λ k m. (lookup_by eq k m.0, (delete eq k m.0, delete-DistinctKeys eq equiv k m.0 m.1));
    entries = λ m. m.0;
    len = λ m. length m.0;
  }

  pub assoc_map-MapLaws : MapLaws eq assoc_map
  unfolding lookup_by
  assoc_map-MapLaws = record {
    get-empty = λ k. refl;
    get-insert = λ j k v m. lookup-put eq equiv j k v m.0;
    get-remove = λ j k m. lookup-delete eq equiv j k m.0 m.1;
    removed = λ k m. refl;
    get-entries = λ k m. refl;
    distinct = λ m. m.1;
    len-empty = refl;
    len-insert = λ k v m. length-put eq equiv k v m.0;
    len-remove = λ k m. length-delete eq equiv k m.0;
  }

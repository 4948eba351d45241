-- ===== src/Metrics/Labels.antt =====
-- sf-metrics/src/inmemory/common.rs: label sets as keys.
use Prim.Native.Nat.{Ordering, compare}
use sf_rs.Prelude.Maps.{Equivalence}
use sf_rs.Prelude.{
  ℕ, List, [], ◌∷◌, Bool, true, false, ◌&&◌, ◌≡◌, refl, sym, ap, ◌∙◌, arith, bytes_eq,
  bytes_eq_refl, bytes_eq→eq,
}

abbrev pub Label : Type 0
Label = List ℕ × List ℕ

-- `LabelKey`: the labels sorted by key.
abbrev pub LabelKey : Type 0
LabelKey = List Label

-- `str::cmp`, byte by byte.
unfoldable pub compare_text : List ℕ → List ℕ → Ordering
compare_text [] [] = Ordering.eq
compare_text [] (d ∷ ds) = Ordering.lt
compare_text (c ∷ cs) [] = Ordering.gt
compare_text (c ∷ cs) (d ∷ ds) =
    let rest = compare_text cs ds in elim (compare c d) [ Ordering.eq ↦ rest | o ↦ o ]

-- `sort_unstable_by(|a, b| a.0.cmp(&b.0))`. Its result is determined where no two keys are equal.
unfoldable pub insert_label : Label → List Label → List Label
insert_label a [] = a ∷ []
insert_label a (b ∷ bs) =
    let rest = insert_label a bs in
    elim (compare_text a.0 b.0) [ Ordering.gt ↦ b ∷ rest | _ ↦ a ∷ b ∷ bs ]

unfoldable pub sort_labels : List Label → List Label
sort_labels [] = []
sort_labels (a ∷ bs) = insert_label a (sort_labels bs)

-- `LabelKey::empty` and `LabelKey::new`.
abbrev pub empty : LabelKey
empty = []

unfoldable pub new : List Label → LabelKey
unfolding sort_labels
new [] = empty
new (l ∷ ls) = sort_labels (l ∷ ls)

-- `PartialEq`.
abbrev label_eq : Label → Label → Bool
label_eq (k, v) (j, w) = bytes_eq k j && bytes_eq v w

unfoldable pub key_eq : LabelKey → LabelKey → Bool
key_eq [] [] = true
key_eq [] (b ∷ bs) = false
key_eq (a ∷ as') [] = false
key_eq (a ∷ as') (b ∷ bs) = label_eq a b && key_eq as' bs

key_eq_refl : (a : LabelKey) → key_eq a a ≡ true
unfolding key_eq
key_eq_refl [] = refl
key_eq_refl ((k, v) ∷ ls) = rw (bytes_eq_refl k, bytes_eq_refl v, key_eq_refl ls)

pub key_eq→eq : (a b : LabelKey) → key_eq a b ≡ true → a ≡ b
unfolding key_eq
key_eq→eq [] [] h = refl
key_eq→eq [] (l ∷ b) h = cc
key_eq→eq (l ∷ a) [] h = cc
key_eq→eq ((k, v) ∷ a) ((j, w) ∷ b) h =
    let k_eq : k ≡ j = bytes_eq→eq k j (ground arith) in
    let v_eq : v ≡ w = bytes_eq→eq v w (ground arith) in
    cc (k_eq, v_eq, key_eq→eq a b (ground arith))

pub key_eq-Equivalence : Equivalence key_eq
key_eq-Equivalence = record {
  eq_refl = key_eq_refl;
  eq_sym = λ a b h. ap (λ c. key_eq c a) (sym (key_eq→eq a b h)) ∙ key_eq_refl a;
  eq_trans = λ a b c h k. ap (key_eq a) (sym (key_eq→eq b c k)) ∙ h;
}

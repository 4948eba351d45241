-- ===== src/Metrics/LabelOrder.antt =====
-- sf-metrics/src/inmemory/common.rs: the order in which labels are written does not matter.
use Prim.Native.Nat.{Ordering, compare}
use sf_rs.Prelude.{ℕ, List, [], ◌∷◌, ◌≡◌, ◌≢◌, refl, sym, ap, ap₂, ◌∙◌, arith, All, ◌⊎◌, inl, inr}
use sf_rs.Metrics.Labels.{Label, compare_text, insert_label, sort_labels, new}

-- One list is the other with its labels in another order.
pub data Reordered : List Label → List Label → Type 0 where
  same : {ls : List Label} → Reordered ls ls
  cons : {a : Label} {ls ms : List Label} → Reordered ls ms → Reordered (a ∷ ls) (a ∷ ms)
  swap : {a b : Label} {ls : List Label} → Reordered (a ∷ b ∷ ls) (b ∷ a ∷ ls)
  trans : {ls ms ns : List Label} → Reordered ls ms → Reordered ms ns → Reordered ls ns

-- No two labels have the same key.
abbrev pub Distinct : List Label → Type 0
Distinct [] = Unit
Distinct (a ∷ bs) = All (λ (b : Label). a.0 ≢ b.0) bs × Distinct bs

compare_eq : (c d : ℕ) → compare c d ≡ Ordering.eq → c ≡ d
compare_eq c d h = ground arith

compare_text-eq : (a b : List ℕ) → compare_text a b ≡ Ordering.eq → a ≡ b
unfolding compare_text
compare_text-eq [] [] h = refl
compare_text-eq [] (d ∷ ds) h = cc
compare_text-eq (c ∷ cs) [] h = cc
compare_text-eq (c ∷ cs) (d ∷ ds) h =
    ap₂ ◌∷◌ (compare_eq c d (ground arith)) (compare_text-eq cs ds (ground arith))

compare_text_flip : (a b : List ℕ) → compare_text a b ≡ Ordering.gt → compare_text b a ≡ Ordering.lt
unfolding compare_text
compare_text_flip [] [] h = cc
compare_text_flip [] (d ∷ ds) h = cc
compare_text_flip (c ∷ cs) [] h = refl
compare_text_flip (c ∷ cs) (d ∷ ds) h = ground (arith, compare_text_flip cs ds)

compare_text_turn : (a b : List ℕ) → compare_text a b ≡ Ordering.lt → compare_text b a ≡ Ordering.gt
unfolding compare_text
compare_text_turn [] [] h = cc
compare_text_turn [] (d ∷ ds) h = refl
compare_text_turn (c ∷ cs) [] h = cc
compare_text_turn (c ∷ cs) (d ∷ ds) h = ground (arith, compare_text_turn cs ds)

compare_text_trans :
    (a b c : List ℕ)
    → compare_text a b ≡ Ordering.lt
    → compare_text b c ≡ Ordering.lt
    → compare_text a c ≡ Ordering.lt
unfolding compare_text
compare_text_trans [] (y ∷ b) (z ∷ c) h k = refl
compare_text_trans (x ∷ a) (y ∷ b) (z ∷ c) h k = ground (arith, compare_text_trans a b c)
compare_text_trans [] [] c h k = cc
compare_text_trans (x ∷ a) [] c h k = cc
compare_text_trans a (y ∷ b) [] h k = cc

-- Where a label is inserted before another one, and where behind it.
insert_nil : (a : Label) → insert_label a [] ≡ a ∷ []
unfolding insert_label
insert_nil a = refl

insert_behind :
    (a b : Label) (ls : List Label)
    → compare_text a.0 b.0 ≡ Ordering.gt
    → insert_label a (b ∷ ls) ≡ b ∷ insert_label a ls
unfolding insert_label
insert_behind a b ls e = rw (insert_label, e) refl

insert_before :
    (a b : Label) (ls : List Label) (o : Ordering)
    → compare_text a.0 b.0 ≡ o
    → o ≢ Ordering.gt
    → insert_label a (b ∷ ls) ≡ a ∷ b ∷ ls
unfolding insert_label
insert_before a b ls Ordering.gt e n = absurd (n refl)
insert_before a b ls Ordering.lt e n = rw (insert_label, e) refl
insert_before a b ls Ordering.eq e n = rw (insert_label, e) refl

text_le_trans :
    (a b c : List ℕ) (o : Ordering)
    → compare_text a b ≡ Ordering.lt
    → compare_text b c ≡ o
    → o ≢ Ordering.gt
    → compare_text a c ≡ Ordering.lt
text_le_trans a b c Ordering.lt h e n = compare_text_trans a b c h e
text_le_trans a b c Ordering.eq h e n = ap (compare_text a) (sym (compare_text-eq b c e)) ∙ h
text_le_trans a b c Ordering.gt h e n = absurd (n refl)

insert_comm_lt :
    (a b : Label) (ls : List Label)
    → compare_text a.0 b.0 ≡ Ordering.lt
    → insert_label a (insert_label b ls) ≡ insert_label b (insert_label a ls)
insert_comm_lt a b [] h =
    let turned : compare_text b.0 a.0 ≡ Ordering.gt = compare_text_turn a.0 b.0 h in
    rw (
      insert_nil a,
      insert_nil b,
      insert_before a b [] Ordering.lt h (λ k. cc),
      insert_behind b a [] turned,
      insert_nil b,
    )
insert_comm_lt a b (c ∷ ls) h =
    go (compare_text a.0 c.0) refl (compare_text b.0 c.0) refl (insert_comm_lt a b ls h)
  where
    turned : compare_text b.0 a.0 ≡ Ordering.gt
    turned = compare_text_turn a.0 b.0 h

    both_before :
        (p : Ordering)
        → compare_text b.0 c.0 ≡ p
        → p ≢ Ordering.gt
        → insert_label a (insert_label b (c ∷ ls)) ≡ insert_label b (insert_label a (c ∷ ls))
    both_before p f n = rw (
      insert_before b c ls p f n,
      insert_before a b (c ∷ ls) Ordering.lt h (λ k. cc),
      insert_before a c ls Ordering.lt (text_le_trans a.0 b.0 c.0 p h f n) (λ k. cc),
      insert_behind b a (c ∷ ls) turned,
      insert_before b c ls p f n,
    )

    around :
        (o : Ordering)
        → compare_text a.0 c.0 ≡ o
        → o ≢ Ordering.gt
        → compare_text b.0 c.0 ≡ Ordering.gt
        → insert_label a (insert_label b (c ∷ ls)) ≡ insert_label b (insert_label a (c ∷ ls))
    around o e n f = rw (
      insert_behind b c ls f,
      insert_before a c (insert_label b ls) o e n,
      insert_before a c ls o e n,
      insert_behind b a (c ∷ ls) turned,
      insert_behind b c ls f,
    )

    go :
        (o : Ordering)
        → compare_text a.0 c.0 ≡ o
        → (p : Ordering) → compare_text b.0 c.0 ≡ p
        → insert_label a (insert_label b ls) ≡ insert_label b (insert_label a ls)
        → insert_label a (insert_label b (c ∷ ls)) ≡ insert_label b (insert_label a (c ∷ ls))
    go o e Ordering.lt f ih = both_before Ordering.lt f (λ k. cc)
    go o e Ordering.eq f ih = both_before Ordering.eq f (λ k. cc)
    go Ordering.lt e Ordering.gt f ih = around Ordering.lt e (λ k. cc) f
    go Ordering.eq e Ordering.gt f ih = around Ordering.eq e (λ k. cc) f
    go Ordering.gt e Ordering.gt f ih =
        rw
          (
            insert_behind b c ls f,
            insert_behind a c (insert_label b ls) e,
            insert_behind a c ls e,
            insert_behind b c (insert_label a ls) f,
          )
          (ap (λ ms. c ∷ ms) ih)

compare_cases : (o : Ordering) → o ≢ Ordering.eq → (o ≡ Ordering.lt) ⊎ (o ≡ Ordering.gt)
compare_cases Ordering.lt n = inl refl
compare_cases Ordering.gt n = inr refl
compare_cases Ordering.eq n = absurd (n refl)

insert_comm :
    (a b : Label) (ls : List Label)
    → a.0 ≢ b.0
    → insert_label a (insert_label b ls) ≡ insert_label b (insert_label a ls)
insert_comm a b ls n =
    elim (compare_cases (compare_text a.0 b.0) λ e. n (compare_text-eq a.0 b.0 e)) [
      | inl h ↦ insert_comm_lt a b ls h
      | inr h ↦ sym (insert_comm_lt b a ls (compare_text_flip a.0 b.0 h))
    ]

All-Reordered : (P : Label → Type 0) {ls ms : List Label} → Reordered ls ms → All P ls → All P ms
All-Reordered P same h = h
All-Reordered P (cons r) h = (h.0, All-Reordered P r h.1)
All-Reordered P swap h = (h.1.0, (h.0, h.1.1))
All-Reordered P (trans r q) h = All-Reordered P q (All-Reordered P r h)

Distinct-Reordered : {ls ms : List Label} → Reordered ls ms → Distinct ls → Distinct ms
Distinct-Reordered same h = h
Distinct-Reordered (cons {a} r) h =
    (All-Reordered (λ (b : Label). a.0 ≢ b.0) r h.0, Distinct-Reordered r h.1)
Distinct-Reordered swap h = (((λ e. h.0.0 (sym e)), h.1.0), (h.0.1, h.1.1))
Distinct-Reordered (trans r q) h = Distinct-Reordered q (Distinct-Reordered r h)

sort_labels-Reordered :
    {ls ms : List Label} → Reordered ls ms → Distinct ls → sort_labels ls ≡ sort_labels ms
unfolding sort_labels
sort_labels-Reordered same h = refl
sort_labels-Reordered (cons {a} r) h = ap (insert_label a) (sort_labels-Reordered r h.1)
sort_labels-Reordered (swap {a} {b} {ls}) h = insert_comm a b (sort_labels ls) h.0.0
sort_labels-Reordered (trans r q) h =
    sort_labels-Reordered r h ∙ sort_labels-Reordered q (Distinct-Reordered r h)

new_sorts : (ls : List Label) → new ls ≡ sort_labels ls
unfolding new sort_labels
new_sorts [] = refl
new_sorts (l ∷ ls) = refl

-- Labels with different keys give the same `LabelKey` in whatever order they are written, so they
-- name the same counter, gauge or histogram.
pub new-Reordered : {ls ms : List Label} → Reordered ls ms → Distinct ls → new ls ≡ new ms
new-Reordered {ls} {ms} r h = new_sorts ls ∙ sort_labels-Reordered r h ∙ sym (new_sorts ms)

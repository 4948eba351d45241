-- ===== src/Metrics/Handles.antt =====
-- sf-metrics/src/inmemory: what a handle reads and writes.
use sf_rs.Prelude.{
  ℕ, List, Bool, true, false, ◌≡◌, ◌≢◌, ◌⊎◌, inl, inr, refl, sym, ap, ◌∙◌, arith, Option, none,
  some, bytes_eq, bytes_eq_refl, bytes_eq→eq, update, update_self, update_ne, ==_iff, ◌==◌,
  Bool-cases, Option-cases,
}
use sf_rs.Prelude.Maps.{MapOps, MapLaws, Equivalence}
use sf_rs.Metrics.Labels.{Label, LabelKey, empty, new, key_eq, key_eq-Equivalence}
use sf_rs.Metrics.Storage.{
  Family, Store, Handle, initial, add_family, family_at, entry_family, add_cell, cell_at,
  get_or_create, new_handle, metric, with_labels, modify, get_value, IsValid, IsHandle,
}

pub bytes_eq-Equivalence : Equivalence bytes_eq
bytes_eq-Equivalence = record {
  eq_refl = bytes_eq_refl;
  eq_sym = λ a b h. ap (λ c. bytes_eq c a) (sym (bytes_eq→eq a b h)) ∙ bytes_eq_refl a;
  eq_trans = λ a b c h k. ap (bytes_eq a) (sym (bytes_eq→eq b c k)) ∙ h;
}

-- Two keys equal to a third one are equal.
joined :
    {K : Type 0} {eq : K → K → Bool} (equiv : Equivalence eq) (i j k : K)
    → eq i j ≡ true
    → eq i k ≡ true
    → eq j k ≡ true
joined equiv i j k h l = equiv.eq_trans j i k (equiv.eq_sym i j h) l

update_cases {ℓ} :
    {A : Type ℓ} (f : ℕ → A) (i : ℕ) (a : A) (j : ℕ)
    → ((j ≡ i) × (update f i a j ≡ a)) ⊎ (update f i a j ≡ f j)
update_cases f i a j = elim (Bool-cases (i == j)) [
  | inl e ↦ inl (sym ((==_iff i j).0 e), rw e refl)
  | inr e ↦ inr (rw e refl)
]

insert_cases :
    {K M : Type 0} {eq : K → K → Bool} {ops : MapOps K ℕ M} (laws : MapLaws eq ops) (j k : K)
    (v c : ℕ) (m : M)
    → ops.get j (ops.insert k v m) ≡ some c
    → ((eq k j ≡ true) × (c ≡ v)) ⊎ (ops.get j m ≡ some c)
insert_cases {eq = eq} laws j k v c m h = elim (Bool-cases (eq k j)) [
  | inl e ↦ let g = sym (rw e at (laws.get-insert j k v m)) ∙ h in inl (e, cc g)
  | inr e ↦ inr (sym (rw e at (laws.get-insert j k v m)) ∙ h)
]

module _ {V B M N : Type 0} (nops : MapOps (List ℕ) ℕ N) (kops : MapOps LabelKey ℕ M)
    (nlaws : MapLaws bytes_eq nops) (klaws : MapLaws key_eq kops) (fresh : B → V) where
  abbrev Valid : Store V B M N → Type 0
  Valid s = IsValid nops kops fresh s

  pub initial-IsValid : (b : B) (v : V) → Valid (initial nops kops fresh b v)
  unfolding initial
  initial-IsValid b v = record {
    names_below = λ name a h. absurd (cc (h, nlaws.get-empty name));
    names_apart = λ name other a h g. absurd (cc (h, nlaws.get-empty name));
    cells_below = λ a key c h. absurd (cc (h, klaws.get-empty key));
    cells_apart = λ a b' key other c h g. absurd (cc (h, klaws.get-empty key));
  }

  add_cell-cases :
      (a : ℕ) (key : LabelKey) (s : Store V B M N) (x : ℕ) (k : LabelKey) (c : ℕ)
      → kops.get k ((add_cell nops kops fresh a key s).1.families x).cells_by_key ≡ some c
      → ((x ≡ a) × (key_eq key k ≡ true) × (c ≡ s.next_cell))
        ⊎ (kops.get k (s.families x).cells_by_key ≡ some c)
  add_cell-cases a key s x k c h =
      let fam' : Family B M = record (s.families a) {
        cells_by_key = kops.insert key s.next_cell (s.families a).cells_by_key;
      } in
      elim (update_cases s.families a fam' x) [
        | inl (at_a, e) ↦
            let g = sym (ap (λ (f : Family B M). kops.get k f.cells_by_key) e) ∙ h in
            elim (insert_cases klaws k key s.next_cell c (s.families a).cells_by_key g) [
              | inl (same, new_) ↦ inl (at_a, same, new_)
              | inr old ↦ inr (rw at_a old)
            ]
        | inr e ↦ inr (sym (ap (λ (f : Family B M). kops.get k f.cells_by_key) e) ∙ h)
      ]

  add_cell-IsValid :
      (a : ℕ) (key : LabelKey) (s : Store V B M N)
      → Valid s
      → Valid (add_cell nops kops fresh a key s).1
  add_cell-IsValid a key s v = record {
    names_below = v.names_below;
    names_apart = v.names_apart;
    cells_below = λ x k c h. elim (add_cell-cases a key s x k c h) [
      | inl (_, _, e) ↦ omega (arith, e)
      | inr old ↦ omega (arith, v.cells_below x k c old)
    ];
    cells_apart = λ x y k l c h g. elim (add_cell-cases a key s x k c h) [
      | inl (at_a, same, e) ↦ elim (add_cell-cases a key s y l c g) [
        | inl (at_a', same', _) ↦ (at_a ∙ sym at_a', joined key_eq-Equivalence key k l same same')
        | inr old ↦ absurd (omega (arith, e, v.cells_below y l c old))
      ]
      | inr old ↦ elim (add_cell-cases a key s y l c g) [
        | inl (_, _, e) ↦ absurd (omega (arith, e, v.cells_below x k c old))
        | inr old' ↦ v.cells_apart x y k l c old old'
      ]
    ];
  }

  add_family-cases :
      (b : B) (name : List ℕ) (s : Store V B M N) (x : ℕ) (k : LabelKey) (c : ℕ)
      → kops.get k ((add_family nops kops fresh b name s).1.families x).cells_by_key ≡ some c
      → kops.get k (s.families x).cells_by_key ≡ some c
  add_family-cases b name s x k c h =
      let fam' : Family B M = record { buckets = b; cells_by_key = kops.empty } in
      elim (update_cases s.families s.next_family fam' x) [
        | inl (_, e) ↦
            let g = sym (ap (λ (f : Family B M). kops.get k f.cells_by_key) e) ∙ h in
            absurd (cc (g, klaws.get-empty k))
        | inr e ↦ sym (ap (λ (f : Family B M). kops.get k f.cells_by_key) e) ∙ h
      ]

  add_family-IsValid :
      (b : B) (name : List ℕ) (s : Store V B M N)
      → Valid s
      → Valid (add_family nops kops fresh b name s).1
  add_family-IsValid b name s v = record {
    names_below = λ n a h. elim (insert_cases nlaws n name s.next_family a s.names h) [
      | inl (_, e) ↦ omega (arith, e)
      | inr old ↦ omega (arith, v.names_below n a old)
    ];
    names_apart = λ n m a h g. elim (insert_cases nlaws n name s.next_family a s.names h) [
      | inl (same, e) ↦ elim (insert_cases nlaws m name s.next_family a s.names g) [
        | inl (same', _) ↦ joined bytes_eq-Equivalence name n m same same'
        | inr old ↦ absurd (omega (arith, e, v.names_below m a old))
      ]
      | inr old ↦ elim (insert_cases nlaws m name s.next_family a s.names g) [
        | inl (_, e) ↦ absurd (omega (arith, e, v.names_below n a old))
        | inr old' ↦ v.names_apart n m a old old'
      ]
    ];
    cells_below = λ x k c h. v.cells_below x k c (add_family-cases b name s x k c h);
    cells_apart = λ x y k l c h g.
        v.cells_apart x y k l c (add_family-cases b name s x k c h)
          (add_family-cases b name s y l c g);
  }

  entry_family_lem :
      (b : B) (name : List ℕ) (s : Store V B M N)
      → Valid s
      → let (a, s') = entry_family nops kops fresh b name s in
        Valid s' × (nops.get name s'.names ≡ some a)
  unfolding entry_family
  entry_family_lem b name s v = go (nops.get name s.names) refl
    where
      go :
          (o : Option ℕ)
          → nops.get name s.names ≡ o
          → let (a, s') = family_at nops kops fresh b name s o in
            Valid s' × (nops.get name s'.names ≡ some a)
      go (some a) e = (v, e)
      go none e = (
        add_family-IsValid b name s v,
        nlaws.get-insert name name s.next_family s.names ∙ rw (bytes_eq_refl name) refl,
      )

  get_or_create_lem :
      (a : ℕ) (key : LabelKey) (s : Store V B M N)
      → Valid s
      → let (c, s') = get_or_create nops kops fresh a key s in
        Valid s' × (kops.get key (s'.families a).cells_by_key ≡ some c) × (s'.names ≡ s.names)
  unfolding get_or_create
  get_or_create_lem a key s v = go (kops.get key (s.families a).cells_by_key) refl
    where
      go :
          (o : Option ℕ)
          → kops.get key (s.families a).cells_by_key ≡ o
          → let (c, s') = cell_at nops kops fresh a key s o in
            Valid s' × (kops.get key (s'.families a).cells_by_key ≡ some c) × (s'.names ≡ s.names)
      go (some c) e = (v, e, refl)
      go none e =
          let fam' : Family B M = record (s.families a) {
            cells_by_key = kops.insert key s.next_cell (s.families a).cells_by_key;
          } in
          (
            add_cell-IsValid a key s v,
            ap (λ (f : Family B M). kops.get key f.cells_by_key) (update_self s.families a fam')
                ∙ klaws.get-insert key key s.next_cell (s.families a).cells_by_key
                ∙ rw (key_eq-Equivalence.eq_refl key) refl,
            refl,
          )

  -- `counter`, `gauge` and `histogram` give the handle of the metric of that name without labels,
  -- whether or not it is there already, and keep the storages apart.
  pub metric-IsHandle :
      (b : B) (name : List ℕ) (s : Store V B M N)
      → Valid s
      → let (h, s') = metric nops kops fresh b name s in
        Valid s' × IsHandle nops kops fresh h name empty s'
  unfolding metric new_handle
  metric-IsHandle b name s v =
      let (a, s1) = entry_family nops kops fresh b name s in
      let (v1, named) = entry_family_lem b name s v in
      let (v2, found, same) = get_or_create_lem a empty s1 v1 in (v2, (rw same named, found))

  -- `with_labels` gives the handle of the same metric under the new labels.
  pub with_labels-IsHandle :
      (h : Handle) (name : List ℕ) (key : LabelKey) (labels : List Label) (s : Store V B M N)
      → Valid s
      → IsHandle nops kops fresh h name key s
      → let (h', s') = with_labels nops kops fresh h labels s in
        Valid s' × IsHandle nops kops fresh h' name (new labels) s'
  unfolding with_labels new_handle
  with_labels-IsHandle h name key labels s v (named, _) =
      let (v2, found, same) = get_or_create_lem h.metrics (new labels) s v in
      (v2, (rw same named, found))

  -- A value read under another name or other labels is another value.
  values_apart :
      (h : Handle) (name other : List ℕ) (key others : LabelKey) (s : Store V B M N) (b c : ℕ)
      → Valid s
      → IsHandle nops kops fresh h name key s
      → (bytes_eq other name ≡ false) ⊎ (key_eq others key ≡ false)
      → nops.get other s.names ≡ some b
      → kops.get others (s.families b).cells_by_key ≡ some c
      → c ≢ h.value
  values_apart h name other key others s b c v (named, found) apart e g same =
      let (same_family, same_key) =
        v.cells_apart b h.metrics others key c g (found ∙ ap (λ d. some d) (sym same)) in
      let same_name = v.names_apart other name b e (named ∙ ap (λ d. some d) (sym same_family)) in
      elim apart [ inl n ↦ cc (n, same_name) | inr n ↦ cc (n, same_key) ]

  -- An operation through a handle changes exactly the value that is read under the handle's name and
  -- labels, in whatever order the labels are written; what is read under another name, or under
  -- labels with another key, stays.
  pub modify-get_value :
      (f : V → V) (h : Handle) (name : List ℕ) (labels : List Label) (s : Store V B M N)
      → Valid s
      → IsHandle nops kops fresh h name (new labels) s
      → let s' = modify nops kops fresh f h s in
        Valid s'
        × (get_value nops kops fresh name labels s ≡ some (s.cells h.value))
        × (get_value nops kops fresh name labels s' ≡ some (f (s.cells h.value)))
        × ((other : List ℕ) (others : List Label)
            → ((bytes_eq other name ≡ false) ⊎ (key_eq (new others) (new labels) ≡ false))
            → get_value nops kops fresh other others s' ≡ get_value nops kops fresh other others s)
  unfolding modify get_value
  modify-get_value f h name labels s v (named, found) = (
    record {
      names_below = v.names_below;
      names_apart = v.names_apart;
      cells_below = v.cells_below;
      cells_apart = v.cells_apart;
    },
    rw (named, found) refl,
    rw (named, found) (ap (λ d. some d) (update_self s.cells h.value (f (s.cells h.value)))),
    λ other others apart. elim (Option-cases (nops.get other s.names)) [
      | inl e ↦ rw e refl
      | inr (b, e) ↦ elim (Option-cases (kops.get (new others) (s.families b).cells_by_key)) [
        | inl g ↦ rw (e, g) refl
        | inr (c, g) ↦
            let ne =
              values_apart h name other (new labels) (new others) s b c v (named, found) apart e
                g in
            rw (e, g) (ap (λ d. some d) (update_ne s.cells h.value c (f (s.cells h.value)) ne))
      ]
    ],
  )

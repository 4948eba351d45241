-- ===== src/Metrics/Storage.antt =====
-- sf-metrics/src/inmemory/{common,counter,gauge,implementation}.rs: the storages behind the handles.
-- An `Arc` is a number: that of a storage (`families`) or of a value (`cells`), so handles share.
use sf_rs.Prelude.{ℕ, ◌+◌, ◌<◌, List, true, ◌≡◌, Option, none, some, bytes_eq, update}
use sf_rs.Prelude.Maps.{MapOps}
use sf_rs.Metrics.Labels.{Label, LabelKey, empty, new, key_eq}

-- `MetricStorage`, with the boundaries that a `HistogramStorage` adds.
pub record Family (B M : Type 0) : Type 0 where
  pub buckets : B
  pub cells_by_key : M

-- One of the three maps of `InMemoryMetrics`, and what is behind its `Arc`s.
pub record Store (V B M N : Type 0) : Type 0 where
  pub names : N
  pub families : ℕ → Family B M
  pub next_family : ℕ
  pub cells : ℕ → V
  pub next_cell : ℕ

-- `InMemoryCounter`, `InMemoryGauge` and `InMemoryHistogram`.
pub record Handle : Type 0 where
  pub metrics : ℕ
  pub value : ℕ

module _ {V B M N : Type 0} (nops : MapOps (List ℕ) ℕ N) (kops : MapOps LabelKey ℕ M)
    (fresh : B → V) where
  -- The maps of `InMemoryMetrics::new`; no storage is allocated, whatever stands at its number.
  unfoldable pub initial : B → V → Store V B M N
  initial b v = record {
    names = nops.empty;
    families = λ a. record { buckets = b; cells_by_key = kops.empty };
    next_family = 0;
    cells = λ c. v;
    next_cell = 0;
  }

  abbrev pub add_family : B → List ℕ → Store V B M N → ℕ × Store V B M N
  add_family b name s = (
    s.next_family,
    record s {
      names = nops.insert name s.next_family s.names;
      families =
          update s.families s.next_family (record { buckets = b; cells_by_key = kops.empty });
      next_family = s.next_family + 1;
    },
  )

  -- `.entry(name).or_insert_with(..).clone()`.
  abbrev pub family_at : B → List ℕ → Store V B M N → Option ℕ → ℕ × Store V B M N
  family_at b name s none = add_family b name s
  family_at b name s (some a) = (a, s)

  unfoldable pub entry_family : B → List ℕ → Store V B M N → ℕ × Store V B M N
  entry_family b name s = family_at b name s (nops.get name s.names)

  abbrev pub add_cell : ℕ → LabelKey → Store V B M N → ℕ × Store V B M N
  add_cell a key s =
      let fam = s.families a in
      (
        s.next_cell,
        record s {
          families =
              update s.families a
                (record fam { cells_by_key = kops.insert key s.next_cell fam.cells_by_key });
          cells = update s.cells s.next_cell (fresh fam.buckets);
          next_cell = s.next_cell + 1;
        },
      )

  abbrev pub cell_at : ℕ → LabelKey → Store V B M N → Option ℕ → ℕ × Store V B M N
  cell_at a key s none = add_cell a key s
  cell_at a key s (some c) = (c, s)

  -- `get_or_create_default` and `get_or_create`.
  unfoldable pub get_or_create : ℕ → LabelKey → Store V B M N → ℕ × Store V B M N
  get_or_create a key s = cell_at a key s (kops.get key (s.families a).cells_by_key)

  -- `InMemoryCounter::new`, and the same of the others.
  unfoldable pub new_handle : ℕ → LabelKey → Store V B M N → Handle × Store V B M N
  unfolding get_or_create
  new_handle a key s =
      let (c, s') = get_or_create a key s in (record { metrics = a; value = c }, s')

  -- `counter`, `gauge` and `histogram`.
  unfoldable pub metric : B → List ℕ → Store V B M N → Handle × Store V B M N
  unfolding entry_family new_handle
  metric b name s = let (a, s') = entry_family b name s in new_handle a empty s'

  -- `with_labels` and `without_labels`.
  unfoldable pub with_labels : Handle → List Label → Store V B M N → Handle × Store V B M N
  unfolding new_handle
  with_labels h labels s = new_handle h.metrics (new labels) s

  unfoldable pub without_labels : Handle → Store V B M N → Handle × Store V B M N
  unfolding new_handle
  without_labels h s = new_handle h.metrics empty s

  -- An atomic operation on the value of a handle.
  unfoldable pub modify : (V → V) → Handle → Store V B M N → Store V B M N
  modify f h s = record s { cells = update s.cells h.value (f (s.cells h.value)) }

  -- `get_counter_value` and `get_gauge_value`.
  abbrev pub load : Store V B M N → Option ℕ → Option V
  load s none = none
  load s (some c) = some (s.cells c)

  abbrev pub value_in : List Label → Store V B M N → Option ℕ → Option V
  value_in labels s none = none
  value_in labels s (some a) = load s (kops.get (new labels) (s.families a).cells_by_key)

  unfoldable pub get_value : List ℕ → List Label → Store V B M N → Option V
  get_value name labels s = value_in labels s (nops.get name s.names)

  -- Different names have different storages, and different names or labels different values.
  pub record IsValid (s : Store V B M N) : Type 0 where
    pub names_below : (name : List ℕ) (a : ℕ) → nops.get name s.names ≡ some a → a < s.next_family
    pub names_apart :
        (name other : List ℕ) (a : ℕ)
        → nops.get name s.names ≡ some a
        → nops.get other s.names ≡ some a
        → bytes_eq name other ≡ true
    pub cells_below :
        (a : ℕ) (key : LabelKey) (c : ℕ)
        → kops.get key (s.families a).cells_by_key ≡ some c
        → c < s.next_cell
    pub cells_apart :
        (a b : ℕ) (key other : LabelKey) (c : ℕ)
        → kops.get key (s.families a).cells_by_key ≡ some c
        → kops.get other (s.families b).cells_by_key ≡ some c
        → (a ≡ b) × (key_eq key other ≡ true)

  -- A handle of the metric `name` with these labels.
  abbrev pub IsHandle : Handle → List ℕ → LabelKey → Store V B M N → Type 0
  IsHandle h name key s =
      (nops.get name s.names ≡ some h.metrics)
      × (kops.get key (s.families h.metrics).cells_by_key ≡ some h.value)

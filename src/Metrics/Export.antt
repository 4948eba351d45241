-- ===== src/Metrics/Export.antt =====
-- sf-metrics/src/inmemory/common.rs and implementation.rs: labels and values as text. What `{}` prints
-- of an `f64` and of a `u64` is given.
use sf_rs.Prelude.{
  ℕ, ◌+◌, ◌<◌, List, [], ◌∷◌, ◌++◌, true, false, ◌≡◌, refl, ap, ◌∙◌, arith, if◌then◌else◌, Option,
  none, some, ◌==◌, ==_iff, Bool-cases, inl, inr, codes, length, map, length-append, get_elem?,
  Outcome, ok, panic, ◌>>=◌,
}
use sf_rs.Metrics.Float.{F64}
use sf_rs.Metrics.Labels.{Label, LabelKey}
use sf_rs.Metrics.Values.{HistogramAtomics, IsConsistent, get_elem?_below}

-- `replace(c, ..)`, which puts a backslash before each `c`.
unfoldable pub with_backslash : ℕ → List ℕ → List ℕ
with_backslash c [] = []
with_backslash c (d ∷ ds) =
    let rest = with_backslash c ds in if d == c then b'\\' ∷ d ∷ rest else d ∷ rest

abbrev pub quoted : List ℕ → List ℕ
unfolding with_backslash
quoted v = with_backslash b'"' (with_backslash b'\\' v)

abbrev pub format_label : Label → List ℕ
unfolding with_backslash
format_label (k, v) = k ++ codes "=\"" ++ quoted v ++ codes "\""

-- `format_labels`, with `join(",")`.
unfoldable pub format_labels : List Label → List ℕ
unfolding with_backslash
format_labels [] = []
format_labels (l ∷ []) = format_label l
format_labels (l ∷ m ∷ ls) = format_label l ++ b',' ∷ format_labels (m ∷ ls)

-- The value of a label as a reader of the format takes it: up to the first quotation mark that no
-- backslash escapes.
abbrev pub put_first : ℕ → Option (List ℕ × List ℕ) → Option (List ℕ × List ℕ)
put_first c none = none
put_first c (some (v, rest)) = some (c ∷ v, rest)

unfoldable pub read_quoted : List ℕ → Option (List ℕ × List ℕ)
read_quoted [] = none
read_quoted (c ∷ []) = if c == b'"' then some ([], []) else none
read_quoted (c ∷ d ∷ cs) = elim (c == b'"') [
  | true ↦ some ([], d ∷ cs)
  | false ↦ elim (c == b'\\') [
    | true ↦ put_first d (read_quoted cs)
    | false ↦ put_first c (read_quoted (d ∷ cs))
  ]
]

read_end : (rest : List ℕ) → read_quoted (b'"' ∷ rest) ≡ some ([], rest)
unfolding read_quoted
read_end [] = refl
read_end (c ∷ rest) = refl

read_escaped : (d : ℕ) (cs : List ℕ) → read_quoted (b'\\' ∷ d ∷ cs) ≡ put_first d (read_quoted cs)
unfolding read_quoted
read_escaped d cs = refl

quoted_escape :
    (c : ℕ) (v : List ℕ) → (c == b'\\') ≡ true → quoted (c ∷ v) ≡ b'\\' ∷ b'\\' ∷ quoted v
unfolding with_backslash
quoted_escape c v e = let same : c ≡ b'\\' = (==_iff c b'\\').0 e in rw same refl

quoted_quote : (c : ℕ) (v : List ℕ) → (c == b'"') ≡ true → quoted (c ∷ v) ≡ b'\\' ∷ b'"' ∷ quoted v
unfolding with_backslash
quoted_quote c v e = let same : c ≡ b'"' = (==_iff c b'"').0 e in rw same refl

quoted_plain :
    (c : ℕ) (v : List ℕ)
    → (c == b'\\') ≡ false
    → (c == b'"') ≡ false
    → quoted (c ∷ v) ≡ c ∷ quoted v
unfolding with_backslash
quoted_plain c v e f = rw (e, with_backslash, f) refl

read_quoted_plain :
    (c : ℕ) (cs : List ℕ)
    → (c == b'\\') ≡ false
    → (c == b'"') ≡ false
    → read_quoted (c ∷ cs) ≡ put_first c (read_quoted cs)
unfolding read_quoted
read_quoted_plain c [] e f = rw (read_quoted, f) refl
read_quoted_plain c (d ∷ cs) e f = rw (read_quoted, f, e) refl

-- The value of a label is read back from its quoted form, whatever bytes it has and whatever follows
-- the closing quotation mark.
pub read_quoted-quoted : (v rest : List ℕ) → read_quoted (quoted v ++ b'"' ∷ rest) ≡ some (v, rest)
unfolding quoted
read_quoted-quoted [] rest = read_end rest
read_quoted-quoted (c ∷ v) rest = elim (Bool-cases (c == b'\\')) [
  | inl e ↦
      let same : c ≡ b'\\' = (==_iff c b'\\').0 e in
      rw (quoted_escape c v e, same)
        (read_escaped b'\\' _ ∙ ap (put_first b'\\') (read_quoted-quoted v rest))
  | inr e ↦ elim (Bool-cases (c == b'"')) [
    | inl f ↦
        let same : c ≡ b'"' = (==_iff c b'"').0 f in
        rw (quoted_quote c v f, same)
          (read_escaped b'"' _ ∙ ap (put_first b'"') (read_quoted-quoted v rest))
    | inr f ↦
        rw
          (
            quoted_plain c v e f,
            read_quoted_plain c (quoted v ++ b'"' ∷ rest) e f,
            read_quoted-quoted v rest,
          )
          refl
  ]
]

-- What `gather_metrics_string` prints of the labeled values of one counter or gauge, in the order of
-- the map's iterator.
module _ (show_f64 : F64 → List ℕ) (show_u64 : ℕ → List ℕ) where
  abbrev value_line : List ℕ → LabelKey × F64 → List ℕ
  unfolding format_labels
  value_line name (labels, value) =
      name ++ codes "{" ++ format_labels labels ++ codes "} " ++ show_f64 value ++ codes "\n"

  unfoldable pub gather_values : List (List ℕ × List (LabelKey × F64)) → List (List ℕ)
  unfolding format_labels
  gather_values [] = []
  gather_values ((name, entries) ∷ metrics) = map (value_line name) entries ++ gather_values metrics

  -- The part of a bucket's labels behind `le`.
  abbrev label_part : List ℕ → List ℕ
  label_part [] = []
  label_part (c ∷ cs) = b',' ∷ c ∷ cs

  abbrev bucket_line : List ℕ → List ℕ → List ℕ → ℕ → List ℕ
  bucket_line name labels boundary n =
      name
      ++ codes "_bucket{le=\""
      ++ boundary
      ++ codes "\""
      ++ label_part labels
      ++ codes "} "
      ++ show_u64 n
      ++ codes "\n"

  -- The loop over the boundaries; `bucket_counts[i]` may be out of range.
  abbrev indexed : Option ℕ → Outcome (Unit {0}) ℕ
  indexed none = panic
  indexed (some n) = ok n

  unfoldable pub bucket_lines :
      List ℕ → List ℕ → List F64 → List ℕ → ℕ → Outcome (Unit {0}) (List (List ℕ))
  bucket_lines name labels [] counts i = ok []
  bucket_lines name labels (boundary ∷ boundaries) counts i = do
    n ← indexed (get_elem? counts i)
    lines ← bucket_lines name labels boundaries counts (i + 1)
    ok (bucket_line name labels (show_f64 boundary) n ∷ lines)

  abbrev last_or_zero : List ℕ → ℕ
  last_or_zero [] = 0
  last_or_zero (n ∷ []) = n
  last_or_zero (n ∷ m ∷ ns) = last_or_zero (m ∷ ns)

  -- The lines of a labeled histogram around those of its boundaries.
  abbrev framed : List ℕ → List ℕ → HistogramAtomics → List (List ℕ) → List (List ℕ)
  framed name labels a lines =
      let braced : List ℕ = codes "{" ++ labels ++ codes "} " in
      (name ++ codes "_count" ++ braced ++ show_u64 a.count ++ codes "\n")
        ∷ (name ++ codes "_sum" ++ braced ++ show_f64 a.sum ++ codes "\n")
        ∷ lines
      ++ bucket_line name labels (codes "+Inf") (last_or_zero a.bucket_counts) ∷ []

  -- What it prints of one labeled histogram.
  unfoldable pub gather_histogram :
      List ℕ → List F64 → LabelKey → HistogramAtomics → Outcome (Unit {0}) (List (List ℕ))
  unfolding format_labels bucket_lines
  gather_histogram name buckets key a = do
    lines ← bucket_lines name (format_labels key) buckets a.bucket_counts 0
    ok (framed name (format_labels key) a lines)

  bucket_lines_total :
      (name labels : List ℕ) (boundaries : List F64) (counts : List ℕ) (i : ℕ)
      → i + length boundaries < length counts
      → (lines : List (List ℕ)) × (bucket_lines name labels boundaries counts i ≡ ok lines)
        × (length lines ≡ length boundaries)
  unfolding bucket_lines
  bucket_lines_total name labels [] counts i h = ([], refl, refl)
  bucket_lines_total name labels (boundary ∷ boundaries) counts i h =
      let (n, e) = get_elem?_below counts i (omega (arith, h)) in
      let (lines, f, len) =
        bucket_lines_total name labels boundaries counts (i + 1) (omega (arith, h)) in
      (bucket_line name labels (show_f64 boundary) n ∷ lines, rw (e, f) refl, omega (arith, len))

  -- Printing a histogram never indexes out of its buckets: it gives one line for each boundary and
  -- three more, for the count, the sum and the bucket without a boundary.
  pub gather_histogram_total :
      (name : List ℕ) (buckets : List F64) (key : LabelKey) (a : HistogramAtomics)
      → IsConsistent buckets a
      → (lines : List (List ℕ)) × (gather_histogram name buckets key a ≡ ok lines)
        × (length lines ≡ length buckets + 3)
  unfolding gather_histogram
  gather_histogram_total name buckets key a c =
      let (lines, e, len) =
        bucket_lines_total name (format_labels key) buckets a.bucket_counts 0
          (omega (arith, c.bucket_number)) in
      let last =
        bucket_line name (format_labels key) (codes "+Inf") (last_or_zero a.bucket_counts) in
      (
        framed name (format_labels key) a lines,
        rw e refl,
        omega (arith, len, length-append lines (last ∷ [])),
      )

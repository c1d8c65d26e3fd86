-- ===== src/Metrics/Labels.antt =====
-- internal/broker/metrics/collector.go: which labels a series has.
use Prim.Native.String.{◌++◌ as cat}
use edge_q.Prelude.{
  String, ◌||◌, ◌≡◌, refl, ap, sym, ◌∙◌, inl, inr, Bool-cases, Bool, true, false, Option, none,
  some, List, [], ◌∷◌, arith, ◌==◌, eq_iff, if◌then◌else◌, is_some, Option-cases,
}
use edge_q.Maps.{Map, lookup, insert, contains, lookup-insert, IsRange}
use edge_q.Metrics.{
  Label, LabelNames, Runtime, Floats, Metric, set_from, add_labels, text_of, labels_of, make_labels,
  label_name, is_skipped, add_metric_labels,
}
use edge_q.Metrics.Request.{make_labels_map}

abbrev pub or_else : Option String → Option String → Option String
or_else none other = other
or_else (some v) other = some v

-- The value of the first label with the name.
abbrev pub label_value : String → List Label → Option String
label_value k [] = none
label_value k (l ∷ ls) = if l.name == k then some l.value else label_value k ls

label_value-labels_of :
    (k : String) (names : List String) (m : Map String)
    → label_value k (labels_of names m)
      ≡ (if contains k names then some (text_of (lookup k m)) else none)
unfolding labels_of
label_value-labels_of k [] m = refl
label_value-labels_of k (name ∷ names) m = elim (Bool-cases (name == k)) [
  | inl same ↦ rw same (ap (λ i. some (text_of (lookup i m))) ((eq_iff name k).0 same))
  | inr other ↦ rw other (label_value-labels_of k names m)
]

-- A series has the labels of its map, each with its value, and no other.
pub label_value-make_labels :
    (r : Runtime) (m : Map String) (k : String) → label_value k (make_labels r m) ≡ lookup k m
unfolding make_labels
label_value-make_labels r m k =
    label_value-labels_of k (r.sort_strings (r.range m)) m
    ∙ rw (r.sort_keeps k (r.range m) ∙ (r.range-IsRange m).visits k) (known (lookup k m))
  where
    known : (o : Option String) → (if is_some o then some (text_of o) else none) ≡ o
    known none = refl
    known (some v) = refl

lookup-set_from :
    (key : String) (from into : Map String) (k : String)
    → lookup k (set_from key from into)
      ≡ (if key == k then or_else (lookup k from) (lookup k into) else lookup k into)
lookup-set_from key from into k = elim (Option-cases (lookup key from)) [
  | inl e ↦
      rw (set_from, e)
        (elim (Bool-cases (key == k)) [
          | inl same ↦ rw (same, at_key same ∙ e) refl
          | inr other ↦ rw other refl
        ])
  | inr (value, e) ↦
      rw (set_from, e)
        (lookup-insert key k value into ∙ elim (Bool-cases (key == k)) [
          | inl same ↦ rw (same, at_key same ∙ e) refl
          | inr other ↦ rw other refl
        ])
]
  where
    at_key : (key == k) ≡ true → lookup k from ≡ lookup key from
    at_key same = ap (λ i. lookup i from) (sym ((eq_iff key k).0 same))

lookup-add_labels :
    (keys : List String) (from into : Map String) (k : String)
    → lookup k (add_labels keys from into)
      ≡ (if contains k keys then or_else (lookup k from) (lookup k into) else lookup k into)
unfolding add_labels
lookup-add_labels [] from into k = refl
lookup-add_labels (key ∷ keys) from into k =
    lookup-add_labels keys from (set_from key from into) k
    ∙ rw (lookup-set_from key from into k)
        (twice (key == k) (contains k keys) (lookup k from) (lookup k into))
  where
    twice :
        (a b : Bool) (o p : Option String)
        → (if b then or_else o (if a then or_else o p else p) else (if a then or_else o p else p))
          ≡ (if a || b then or_else o p else p)
    twice a b o p = ground arith

-- Every entry of a map that is copied is there, and wins over one that was there before.
pub lookup-range :
    (order : List String) (from into : Map String) (k : String)
    → IsRange order from
    → lookup k (add_labels order from into) ≡ or_else (lookup k from) (lookup k into)
lookup-range order from into k range =
    lookup-add_labels order from into k ∙ rw (range.visits k) (all (lookup k from) (lookup k into))
  where
    all : (o p : Option String) → (if is_some o then or_else o p else p) ≡ or_else o p
    all none p = refl
    all (some v) p = refl

-- The name that a label of a metric has in the series: `job` is the name of the scrape's own label.
abbrev pub exported : LabelNames → String → String
exported n name = if name == n.job then cat n.exported_prefix name else name

-- The value that the labels of a metric give to a name: that of the last one with the name, where
-- a label with an empty name or value counts for nothing.
abbrev pub last_label : LabelNames → String → List Label → Option String
last_label n k [] = none
last_label n k (l ∷ ls) = or_else (last_label n k ls) (
    if l.value == "" || exported n l.name == ""
    then none
    else if exported n l.name == k
    then some l.value
    else none)

lookup-add_metric_labels :
    (n : LabelNames) (ls : List Label) (m : Map String) (k : String)
    → lookup k (add_metric_labels n ls m) ≡ or_else (last_label n k ls) (lookup k m)
unfolding add_metric_labels
lookup-add_metric_labels n [] m k = refl
lookup-add_metric_labels n (l ∷ ls) m k =
    lookup-add_metric_labels n ls _ k
    ∙ ap (or_else (last_label n k ls)) (elim (Bool-cases (is_skipped n l)) [
      | inl skipped ↦ rw skipped refl
      | inr kept ↦ rw kept (
          lookup-insert (label_name n l.name) k l.value m
          ∙ or_else_if (label_name n l.name == k) _ _)
    ])
    ∙ or_else_assoc (last_label n k ls) _ _
  where
    or_else_if :
        (b : Bool) (v : String) (o : Option String)
        → (if b then some v else o) ≡ or_else (if b then some v else none) o
    or_else_if true v o = refl
    or_else_if false v o = refl

    or_else_assoc : (a b c : Option String) → or_else a (or_else b c) ≡ or_else (or_else a b) c
    or_else_assoc none b c = refl
    or_else_assoc (some v) b c = refl

abbrev pub if_named : String → String → String → Option String
if_named at value k = if at == k then some value else none

-- The labels of a metric, as the value of each name: those that the metric gives win over the extra
-- ones, and those over the name of the metric.
abbrev pub metric_labels : LabelNames → List Label → String → Map String → String → Option String
metric_labels n ls name extra_labels k =
    or_else (last_label n k ls) (or_else (lookup k extra_labels) (if_named n.metric_name name k))

pub lookup-make_labels_map :
    (r : Runtime) (n : LabelNames) (fs : Floats) (m : Metric fs) (name : String)
    (extra_labels : Map String) (k : String)
    → lookup k (make_labels_map r n fs m name extra_labels)
      ≡ metric_labels n m.label name extra_labels k
unfolding make_labels_map lookup insert
lookup-make_labels_map r n fs m name extra_labels k =
    lookup-add_metric_labels n m.label _ k
    ∙ ap (or_else (last_label n k m.label))
        (lookup-range (r.range extra_labels) extra_labels _ k (r.range-IsRange extra_labels))

-- The labels that a series of a metric gets: the labels of the metric win over the extra ones, and
-- those over the name of the metric; of two labels of a metric with one name the last wins, where
-- `job` counts as `exported_job` and a label with an empty name or value counts for nothing.
pub label_value-make_labels_map :
    (r : Runtime) (n : LabelNames) (fs : Floats) (m : Metric fs) (name : String)
    (extra_labels : Map String) (k : String)
    → label_value k (make_labels r (make_labels_map r n fs m name extra_labels))
      ≡ metric_labels n m.label name extra_labels k
label_value-make_labels_map r n fs m name extra_labels k =
    label_value-make_labels r _ k ∙ lookup-make_labels_map r n fs m name extra_labels k

-- ===== src/Metrics.antt =====
-- internal/broker/metrics/collector.go: the families of metrics of a process, turned into a request
-- to write time series. A value of a metric is of the type V, Go's float64.
pub mod Request
pub mod Labels
pub mod Series
pub mod Collector
use Prim.Native.String.{◌++◌ as cat}
use edge_q.Prelude.{
  ℕ, String, Bool, false, ◌||◌, ◌≡◌, ◌==◌, Option, none, some, List, [], ◌∷◌, ◌++◌, length,
  if◌then◌else◌,
}
use edge_q.Prelude.Int.{ℤ, pos, eqb_ℤ}
use edge_q.Outcome.{Outcome, ok, or_panic, ◌>>=◌}
use edge_q.Maps.{Map, lookup, insert, contains, IsRange}

pub record Label : Type 0 where
  pub name : String
  pub value : String

-- The names of labels that the package prometheus/common/model fixes.
pub record LabelNames : Type 0 where
  pub metric_name : String
  pub quantile : String
  pub bucket : String
  pub job : String
  pub exported_prefix : String
  pub quantile_differs : (quantile == metric_name) ≡ false
  pub bucket_differs : (bucket == metric_name) ≡ false

-- The order in which `range` visits a map of labels, and `sort.Strings`.
pub record Runtime : Type 0 where
  pub range : Map String → List String
  pub sort_strings : List String → List String
  pub range-IsRange : (m : Map String) → IsRange (range m) m
  pub sort_keeps : (k : String) (ks : List String) → contains k (sort_strings ks) ≡ contains k ks

-- float64 as the program uses it: `float64(n)` of a counter and `fmt.Sprint`.
pub record Floats : Type 1 where
  pub Float : Type 0
  pub of_count : ℕ → Float
  pub sprint : Float → String

-- `for key, value := range from { into[key] = value }`
abbrev pub set_from : String → Map String → Map String → Map String
set_from key from into = elim (lookup key from) [ none ↦ into | some value ↦ insert key value into ]

unfoldable pub add_labels : List String → Map String → Map String → Map String
add_labels [] from into = into
add_labels (key ∷ keys) from into = add_labels keys from (set_from key from into)

-- A key that a map of strings does not have reads as the empty string.
abbrev pub text_of : Option String → String
text_of none = ""
text_of (some s) = s

unfoldable pub labels_of : List String → Map String → List Label
labels_of [] labels_map = []
labels_of (label ∷ names) labels_map =
    record { name = label; value = text_of (lookup label labels_map) } ∷ labels_of names labels_map

unfoldable pub make_labels : Runtime → Map String → List Label
unfolding labels_of
make_labels r labels_map = labels_of (r.sort_strings (r.range labels_map)) labels_map

module _ (n : LabelNames) where
  abbrev pub label_name : String → String
  label_name name = if name == n.job then cat n.exported_prefix name else name

  abbrev pub is_skipped : Label → Bool
  is_skipped label = label.value == "" || label_name label.name == ""

  unfoldable pub add_metric_labels : List Label → Map String → Map String
  add_metric_labels [] labels = labels
  add_metric_labels (label ∷ rest) labels =
      add_metric_labels rest
        (if is_skipped label then labels else insert (label_name label.name) label.value labels)

module _ (fs : Floats) where
  pub record Quantile : Type 0 where
    pub quantile : fs.Float
    pub value : fs.Float

  pub record Bucket : Type 0 where
    pub upper_bound : fs.Float
    pub cumulative_count : ℕ

  pub record Summary : Type 0 where
    pub quantile : List Quantile
    pub sample_sum : fs.Float
    pub sample_count : ℕ

  pub record Histogram : Type 0 where
    pub bucket : List Bucket
    pub sample_sum : fs.Float
    pub sample_count : ℕ

  pub record Metric : Type 0 where
    pub label : List Label
    pub gauge : Option fs.Float
    pub counter : Option fs.Float
    pub summary : Option Summary
    pub histogram : Option Histogram
    pub untyped : Option fs.Float
    pub timestamp_ms : ℤ

  -- `type` is the text of the type, none where the pointer is nil.
  pub record MetricFamily : Type 0 where
    pub name : String
    pub help : String
    pub type : Option String
    pub metric : List Metric

  pub record Sample : Type 0 where
    pub timestamp : ℤ
    pub value : fs.Float

  pub record TimeSeries : Type 0 where
    pub labels : List Label
    pub samples : List Sample

  pub record MetricMetadata : Type 0 where
    pub metric_family_name : String
    pub type : ℕ
    pub help : String

  pub record WriteRequest : Type 0 where
    pub timeseries : List TimeSeries
    pub metadata : List MetricMetadata

-- MetricMetadataTypeValue: a text that it does not have gives 0.
unfoldable pub metric_metadata_type_value : String → ℕ
metric_metadata_type_value t =
    if t == "COUNTER"
    then 1
    else if t == "GAUGE"
    then 2
    else if t == "HISTOGRAM"
    then 3
    else if t == "GAUGEHISTOGRAM"
    then 4
    else if t == "SUMMARY"
    then 5
    else if t == "INFO"
    then 6
    else if t == "STATESET"
    then 7
    else 0

abbrev pub metadata_of : (fs : Floats) → MetricFamily fs → String → MetricMetadata fs
metadata_of fs f type = record {
  metric_family_name = f.name;
  type = metric_metadata_type_value type;
  help = f.help;
}

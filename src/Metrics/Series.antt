-- ===== src/Metrics/Series.antt =====
-- internal/broker/metrics/collector.go, `makeTimeseries`: which series a metric is written as.
pub mod Writes
pub mod Whole
pub mod Families
use Prim.Native.String.{◌++◌ as cat}
use edge_q.Prelude.{
  ℕ, String, ◌≡◌, refl, ap, sym, ◌∙◌, ◌⊎◌, inl, inr, Bool, Bool-cases, true, false, Option,
  Option-cases, none, some, List, [], ◌∷◌, ◌++◌, map, length, arith, ◌==◌, eq_iff, if◌then◌else◌,
}
use edge_q.Prelude.Int.{ℤ, pos, eqb_ℤ}
use edge_q.Maps.{Map, lookup, insert, lookup-insert}
use edge_q.Metrics.{
  LabelNames, Runtime, Floats, Quantile, Bucket, Summary, Histogram, Metric, Sample, TimeSeries,
  WriteRequest, add_labels, text_of, make_labels,
}
use edge_q.Metrics.Request.{
  to_timeseries, add_quantiles, add_buckets, add_totals, copy, timestamp_of, make_timeseries,
}
use edge_q.Metrics.Labels.{label_value, label_value-make_labels, lookup-range}

-- The labels of a series, as the value of each name.
abbrev pub Labels : Type 0
Labels = String → Option String

abbrev pub with_label : String → String → Labels → Labels
with_label name value labels k = if name == k then some value else labels k

module _ (n : LabelNames) (fs : Floats) where
  -- What a series says: its labels and the value of its one sample.
  pub record Point : Type 0 where
    pub labels : Labels
    pub value : fs.Float

  abbrev pub totals : Labels → String → fs.Float → ℕ → List Point
  totals labels name sum total =
      record { labels = with_label n.metric_name (cat name "_sum") labels; value = sum }
      ∷ record {
        labels = with_label n.metric_name (cat name "_count") labels;
        value = fs.of_count total;
      }
      ∷ []

  abbrev pub quantile_point : Labels → Quantile fs → Point
  quantile_point labels q = record {
    labels = with_label n.quantile (fs.sprint q.quantile) labels;
    value = q.value;
  }

  abbrev pub bucket_point : Labels → String → Bucket fs → Point
  bucket_point labels name b = record {
    labels =
        with_label n.bucket (fs.sprint b.upper_bound)
          (with_label n.metric_name (cat name "_bucket") labels);
    value = fs.of_count b.cumulative_count;
  }

  -- The series of a metric with the given labels, none where it is of no type that is supported.
  abbrev pub points_of : Labels → Metric fs → Option (List Point)
  points_of labels m = elim m.gauge [
    | some v ↦ some (record { labels = labels; value = v } ∷ [])
    | none ↦ elim m.counter [
      | some v ↦ some (record { labels = labels; value = v } ∷ [])
      | none ↦ elim m.summary [
        | some s ↦ some (
            map (quantile_point labels) s.quantile
            ++ totals labels (text_of (labels n.metric_name)) s.sample_sum s.sample_count)
        | none ↦ elim m.histogram [
          | some h ↦ some (
              map (bucket_point labels (text_of (labels n.metric_name))) h.bucket
              ++ totals labels (text_of (labels n.metric_name)) h.sample_sum h.sample_count)
          | none ↦ elim m.untyped [
            | some v ↦ some (record { labels = labels; value = v } ∷ [])
            | none ↦ none
          ]
        ]
      ]
    ]
  ]

  pub record Shows (t : ℤ) (p : Point) (ts : TimeSeries fs) : Type 0 where
    pub labelled : (k : String) → label_value k ts.labels ≡ p.labels k
    pub sampled : ts.samples ≡ record { timestamp = t; value = p.value } ∷ []

  abbrev pub ShowAll : ℤ → List Point → List (TimeSeries fs) → Type 0
  ShowAll t [] [] = Unit {0}
  ShowAll t [] (ts ∷ series) = ⊥
  ShowAll t (p ∷ ps) [] = ⊥
  ShowAll t (p ∷ ps) (ts ∷ series) = Shows t p ts × ShowAll t ps series

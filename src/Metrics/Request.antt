-- ===== src/Metrics/Request.antt =====
-- internal/broker/metrics/collector.go, `MetricFamiliesToWriteRequest` and `makeTimeseries`.
use Prim.Native.String.{◌++◌ as cat}
use edge_q.Prelude.{ℕ, String, Option, none, some, List, [], ◌∷◌, ◌++◌, length, if◌then◌else◌}
use edge_q.Prelude.Int.{ℤ, pos, eqb_ℤ}
use edge_q.Outcome.{Outcome, ok, or_panic, ◌>>=◌}
use edge_q.Maps.{Map, lookup, insert}
use edge_q.Metrics.{
  LabelNames, Runtime, Floats, Quantile, Bucket, Metric, MetricFamily, WriteRequest, add_labels,
  text_of, make_labels, add_metric_labels, metadata_of,
}

module _ (r : Runtime) (n : LabelNames) (fs : Floats) where
  unfoldable pub make_labels_map : Metric fs → String → Map String → Map String
  make_labels_map m name extra_labels =
      add_metric_labels n m.label
        (add_labels (r.range extra_labels) extra_labels (insert n.metric_name name []))

  unfoldable pub to_timeseries : WriteRequest fs → Map String → ℤ → fs.Float → WriteRequest fs
  to_timeseries wr labels timestamp value = record wr {
    timeseries =
        wr.timeseries
        ++ record {
          labels = make_labels r labels;
          samples = record { timestamp = timestamp; value = value } ∷ [];
        }
          ∷ [];
  }

  unfoldable pub add_quantiles :
      List (Quantile fs) → WriteRequest fs → Map String → ℤ → WriteRequest fs
  add_quantiles [] wr labels timestamp = wr
  add_quantiles (q ∷ qs) wr labels timestamp =
      let quantile_labels : Map String = insert n.quantile (fs.sprint q.quantile) labels in
      add_quantiles qs (to_timeseries wr quantile_labels timestamp q.value) quantile_labels
        timestamp

  unfoldable pub add_buckets :
      List (Bucket fs) → String → WriteRequest fs → Map String → ℤ → WriteRequest fs
  add_buckets [] name wr labels timestamp = wr
  add_buckets (b ∷ bs) name wr labels timestamp =
      let bucket_labels : Map String =
        insert n.bucket (fs.sprint b.upper_bound)
          (insert n.metric_name (cat name "_bucket") labels) in
      add_buckets bs name
        (to_timeseries wr bucket_labels timestamp (fs.of_count b.cumulative_count)) bucket_labels
        timestamp

  -- The series of the sum and of the count: the second name is written over the first.
  unfoldable pub add_totals :
      String → fs.Float → ℕ → WriteRequest fs → Map String → ℤ → WriteRequest fs
  add_totals name sum total wr labels timestamp =
      let sum_labels : Map String = insert n.metric_name (cat name "_sum") labels in
      to_timeseries (to_timeseries wr sum_labels timestamp sum)
        (insert n.metric_name (cat name "_count") sum_labels) timestamp (fs.of_count total)

  abbrev pub name_of : Map String → String
  name_of labels = text_of (lookup n.metric_name labels)

  -- `make(map[string]string)`, filled from `labels`
  abbrev pub copy : Map String → Map String
  copy labels = add_labels (r.range labels) labels []

  -- `clock n` is the time that is read when n time series have been made.
  module _ (clock : ℕ → ℤ) where
    unfoldable pub timestamp_of : WriteRequest fs → ℤ → ℤ
    timestamp_of wr given = if eqb_ℤ given (pos 0) then clock (length wr.timeseries) else given

    -- The request as it is left, and the error if there is one.
    unfoldable pub make_timeseries :
        WriteRequest fs → Map String → Metric fs → WriteRequest fs × Option String
    make_timeseries wr labels m =
        let timestamp : ℤ = timestamp_of wr m.timestamp_ms in
        elim m.gauge [
          | some v ↦ (to_timeseries wr labels timestamp v, none)
          | none ↦ elim m.counter [
            | some v ↦ (to_timeseries wr labels timestamp v, none)
            | none ↦ elim m.summary [
              | some s ↦ (
                add_totals (name_of labels) s.sample_sum s.sample_count
                    (add_quantiles s.quantile wr (copy labels) timestamp) labels timestamp,
                none,
              )
              | none ↦ elim m.histogram [
                | some h ↦ (
                  add_totals (name_of labels) h.sample_sum h.sample_count
                      (add_buckets h.bucket (name_of labels) wr (copy labels) timestamp) labels
                      timestamp,
                  none,
                )
                | none ↦ elim m.untyped [
                  | some v ↦ (to_timeseries wr labels timestamp v, none)
                  | none ↦ (wr, some "unsupported metric type")
                ]
              ]
            ]
          ]
        ]

    unfoldable pub add_metrics :
        List (Metric fs) → String → Map String → WriteRequest fs → WriteRequest fs × Option String
    add_metrics [] name extra_labels wr = (wr, none)
    add_metrics (m ∷ ms) name extra_labels wr =
        let (wr', failure) = make_timeseries wr (make_labels_map m name extra_labels) m in
        elim failure [ none ↦ add_metrics ms name extra_labels wr' | some e ↦ (wr', some e) ]

    unfoldable pub add_families :
        List String
        → Map (MetricFamily fs)
        → Map String
        → WriteRequest fs
        → Outcome String (WriteRequest fs × Option String)
    add_families [] mf extra_labels wr = ok (wr, none)
    add_families (name ∷ names) mf extra_labels wr = or_panic (lookup name mf) >>= λ f.
        or_panic f.type >>= λ type.
        let (wr', failure) =
          add_metrics f.metric name extra_labels
            (record wr { metadata = wr.metadata ++ metadata_of fs f type ∷ [] }) in
        elim failure [ none ↦ add_families names mf extra_labels wr' | some e ↦ ok (wr', some e) ]

    -- `order` is the order in which the map of the families is visited.
    unfoldable pub metric_families_to_write_request :
        List String
        → Map (MetricFamily fs)
        → Map String
        → Outcome String (WriteRequest fs × Option String)
    metric_families_to_write_request order mf extra_labels =
        add_families (r.sort_strings order) mf extra_labels
          (record { timeseries = []; metadata = [] })

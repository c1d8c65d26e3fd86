-- ===== src/Metrics/Series/Families.antt =====
-- internal/broker/metrics/collector.go, `MetricFamiliesToWriteRequest`: the loop over the families.
use mathlib.Core.Path.{fun_ext, subst}
use mathlib.Core.List.{append-nil}
use edge_q.Prelude.{
  ℕ, String, ◌≡◌, refl, ap, sym, ◌∙◌, Bool-cases, true, Option, none, some, List, [], ◌∷◌, ◌++◌,
  length, arith, ◌==◌, eq_refl, is_some,
}
use edge_q.Prelude.Int.{ℤ}
use edge_q.Outcome.{ok}
use edge_q.Maps.{Map, lookup, contains, IsRange}
use edge_q.Metrics.{LabelNames, Runtime, Floats, Metric, MetricFamily, WriteRequest, metadata_of}
use edge_q.Metrics.Request.{
  timestamp_of, make_timeseries, make_labels_map, add_metrics, add_families,
  metric_families_to_write_request,
}
use edge_q.Metrics.Labels.{metric_labels, lookup-make_labels_map}
use edge_q.Metrics.Series.{Labels, Point, points_of}
use edge_q.Metrics.Series.Writes.{Written, make_timeseries-Written}
use edge_q.Metrics.Series.Whole.{
  group_of, metric_groups, family_groups, family_metadata, Adds, Adds-then, Adds-family,
}

module _ (n : LabelNames) (fs : Floats) (clock : ℕ → ℤ) (r : Runtime)
    (extra_labels : Map String) where
  points_at :
      (m : Metric fs) (name : String)
      → points_of n fs (λ k. lookup k (make_labels_map r n fs m name extra_labels)) m
        ≡ points_of n fs (metric_labels n m.label name extra_labels) m
  points_at m name =
      ap (λ (l : Labels). points_of n fs l m)
        (fun_ext (lookup-make_labels_map r n fs m name extra_labels))

  Written-Adds :
      (wr : WriteRequest fs) (given : ℤ) (o : Option (List (Point n fs)))
      (res : WriteRequest fs × Option String)
      → Written n fs r (timestamp_of r n fs clock wr given) o wr res
      → Adds n fs clock wr (group_of n fs given o) [] res
  unfolding Adds Written timestamp_of
  Written-Adds wr given none res (same, failed) = failed
  Written-Adds wr given (some ps) (b, failure) (g, fine) = (
    fine,
    g.added,
    g.series,
    g.metadata ∙ sym (append-nil wr.metadata),
    (g.added, [], _, sym (append-nil g.added), (length wr.timeseries, refl), g.shown, refl),
  )

  add_metrics-Adds :
      (ms : List (Metric fs)) (name : String) (wr : WriteRequest fs)
      → Adds n fs clock wr
          (metric_groups n fs ms name extra_labels)
          []
          (add_metrics r n fs clock ms name extra_labels wr)
  unfolding add_metrics Adds
  add_metrics-Adds [] name wr = (refl, [], sym (append-nil _), sym (append-nil _), refl)
  add_metrics-Adds (m ∷ ms) name wr =
      Adds-then n fs clock
        (group_of n fs m.timestamp_ms
          (points_of n fs (metric_labels n m.label name extra_labels) m))
        (metric_groups n fs ms name extra_labels) [] wr _ _ _
        (Written-Adds wr m.timestamp_ms _ _ (
          subst
            (λ o.
              Written n fs r (timestamp_of r n fs clock wr m.timestamp_ms) o wr
                (make_timeseries r n fs clock wr (make_labels_map r n fs m name extra_labels) m))
            (points_at m name)
            (make_timeseries-Written n fs r clock wr (make_labels_map r n fs m name extra_labels)
              m)))
        (λ w. add_metrics-Adds ms name w)

  -- Every family with one of the names is there and has a type.
  abbrev pub IsTyped : List String → Map (MetricFamily fs) → Type 0
  IsTyped names mf =
      (k : String)
      → contains k names ≡ true
      → (f : MetricFamily fs) × (type : String) × (lookup k mf ≡ some f) × (f.type ≡ some type)

  add_families-Adds :
      (names : List String) (mf : Map (MetricFamily fs)) (wr : WriteRequest fs)
      → IsTyped names mf
      → (res : WriteRequest fs × Option String) × (add_families r n fs clock names mf extra_labels
            wr
          ≡ ok res)
        × Adds n fs clock wr
            (family_groups n fs names mf extra_labels)
            (family_metadata n fs names mf)
            res
  unfolding add_families Adds
  add_families-Adds [] mf wr typed =
      ((wr, none), refl, (refl, [], sym (append-nil _), sym (append-nil _), refl))
  add_families-Adds (name ∷ names) mf wr typed =
      let (f, type, found, has_type) = typed name (ground (arith, eq_refl name)) in
      rw (family_groups, family_metadata, found, has_type)
        (Adds-family n fs clock (metric_groups n fs f.metric name extra_labels)
          (family_groups n fs names mf extra_labels) (metadata_of fs f type)
          (family_metadata n fs names mf) wr _ _
          (λ w. add_families r n fs clock names mf extra_labels w)
          (add_metrics-Adds f.metric name
            (record wr { metadata = wr.metadata ++ metadata_of fs f type ∷ [] }))
          (λ w.
            add_families-Adds names mf w
              (λ k h. typed k (ground (arith, Bool-cases (name == k), h)))))

  -- Where every family has a type and the order visits all of them: the request has the series of every
  -- metric of every family, in the order of the sorted names, each with its labels and value, and the
  -- meta data of every family; with a metric of no supported type there is an error.
  pub metric_families_to_write_request-Adds :
      (order : List String) (mf : Map (MetricFamily fs))
      → IsRange order mf
      → ((k : String) (f : MetricFamily fs)
          → lookup k mf ≡ some f
          → (type : String) × (f.type ≡ some type))
      → (res : WriteRequest fs × Option String) × (metric_families_to_write_request r n fs clock
            order mf extra_labels
          ≡ ok res)
        × Adds n fs clock
            (record { timeseries = []; metadata = [] })
            (family_groups n fs (r.sort_strings order) mf extra_labels)
            (family_metadata n fs (r.sort_strings order) mf)
            res
  unfolding metric_families_to_write_request
  metric_families_to_write_request-Adds order mf range typed =
      add_families-Adds (r.sort_strings order) mf (record { timeseries = []; metadata = [] })
        (λ k h. there k (lookup k mf) (sym (range.visits k) ∙ sym (r.sort_keeps k order) ∙ h) refl)
    where
      there :
          (k : String) (o : Option (MetricFamily fs))
          → is_some o ≡ true
          → lookup k mf ≡ o
          → (f : MetricFamily fs) × (type : String) × (lookup k mf ≡ some f) × (f.type ≡ some type)
      there k none h e = absurd (ground (arith, h))
      there k (some f) h e = let (type, t) = typed k f e in (f, type, e, t)

-- ===== src/Metrics/Series/Writes.antt =====
-- internal/broker/metrics/collector.go, `makeTimeseries`: the series of one metric, as they are added.
use Prim.Native.String.{◌++◌ as cat}
use mathlib.Core.List.{append_assoc, append-nil}
use edge_q.Prelude.{
  ℕ, String, ◌≡◌, refl, ap, sym, ◌∙◌, inl, inr, Bool-cases, false, Option, Option-cases, none, some,
  List, [], ◌∷◌, ◌++◌, map, ◌==◌,
}
use edge_q.Prelude.Int.{ℤ}
use edge_q.Maps.{Map, lookup, insert, lookup-insert}
use edge_q.Metrics.{LabelNames, Runtime, Floats, Quantile, Bucket, Metric, TimeSeries, WriteRequest}
use edge_q.Metrics.Request.{
  to_timeseries, add_quantiles, add_buckets, add_totals, copy, timestamp_of, make_timeseries,
}
use edge_q.Metrics.Labels.{or_else, label_value-make_labels, lookup-range}
use edge_q.Metrics.Series.{
  Labels, with_label, Point, totals, quantile_point, bucket_point, points_of, ShowAll,
}

-- A label that is set, over labels that agree with the others.
lookup-with_label :
    (key v : String) (labels : Map String) (base : Labels) (k : String)
    → ((key == k) ≡ false → lookup k labels ≡ base k)
    → lookup k (insert key v labels) ≡ with_label key v base k
lookup-with_label key v labels base k agrees =
    lookup-insert key k v labels
    ∙ elim (Bool-cases (key == k)) [ inl same ↦ rw same refl | inr other ↦ rw other (agrees other) ]

-- A label that is set leaves the others.
lookup-differs :
    (key v : String) (labels : Map String) (k : String)
    → (key == k) ≡ false
    → lookup k (insert key v labels) ≡ lookup k labels
lookup-differs key v labels k other = lookup-insert key k v labels ∙ rw other refl

module _ (n : LabelNames) (fs : Floats) where
  -- The second request is the first with series that show the points.
  pub record Grows (t : ℤ) (ps : List (Point n fs)) (a b : WriteRequest fs) : Type 0 where
    pub added : List (TimeSeries fs)
    pub series : b.timeseries ≡ a.timeseries ++ added
    pub metadata : b.metadata ≡ a.metadata
    pub shown : ShowAll n fs t ps added

  ShowAll-append :
      (t : ℤ) (ps qs : List (Point n fs)) (xs ys : List (TimeSeries fs))
      → ShowAll n fs t ps xs
      → ShowAll n fs t qs ys
      → ShowAll n fs t (ps ++ qs) (xs ++ ys)
  ShowAll-append t [] qs [] ys a b = b
  ShowAll-append t [] qs (x ∷ xs) ys a b = absurd a
  ShowAll-append t (p ∷ ps) qs [] ys a b = absurd a
  ShowAll-append t (p ∷ ps) qs (x ∷ xs) ys (now, a) b = (now, ShowAll-append t ps qs xs ys a b)

  Grows-next :
      (t : ℤ) (ps qs : List (Point n fs)) (a b c : WriteRequest fs)
      → Grows t ps a b
      → Grows t qs b c
      → Grows t (ps ++ qs) a c
  Grows-next t ps qs a b c g h = record {
    added = g.added ++ h.added;
    series =
        h.series ∙ ap (λ xs. xs ++ h.added) g.series ∙ append_assoc a.timeseries g.added h.added;
    metadata = h.metadata ∙ g.metadata;
    shown = ShowAll-append t ps qs g.added h.added g.shown h.shown;
  }

  module _ (r : Runtime) where
    to_timeseries-Grows :
        (wr : WriteRequest fs) (labels : Map String) (t : ℤ) (p : Point n fs)
        → ((k : String) → lookup k labels ≡ p.labels k)
        → Grows t (p ∷ []) wr (to_timeseries r n fs wr labels t p.value)
    unfolding to_timeseries
    to_timeseries-Grows wr labels t p agrees = record {
      added = _;
      series = refl;
      metadata = refl;
      shown = (
        record { labelled = λ k. label_value-make_labels r labels k ∙ agrees k; sampled = refl },
        tt,
      );
    }

    add_quantiles-Grows :
        (qs : List (Quantile fs)) (wr : WriteRequest fs) (labels : Map String) (t : ℤ)
        (base : Labels)
        → ((k : String) → (n.quantile == k) ≡ false → lookup k labels ≡ base k)
        → Grows t (map (quantile_point n fs base) qs) wr (add_quantiles r n fs qs wr labels t)
    unfolding add_quantiles
    add_quantiles-Grows [] wr labels t base agrees = record {
      added = [];
      series = sym (append-nil wr.timeseries);
      metadata = refl;
      shown = tt;
    }
    add_quantiles-Grows (q ∷ qs) wr labels t base agrees =
        Grows-next t (quantile_point n fs base q ∷ []) (map (quantile_point n fs base) qs) wr _ _
          (to_timeseries-Grows wr _ t _
            (λ k. lookup-with_label n.quantile (fs.sprint q.quantile) labels base k (agrees k)))
          (add_quantiles-Grows qs _ _ t base
            (λ k differs. lookup-differs n.quantile _ labels k differs ∙ agrees k differs))

    add_buckets-Grows :
        (bs : List (Bucket fs)) (name : String) (wr : WriteRequest fs) (labels : Map String) (t : ℤ)
        (base : Labels)
        → ((k : String)
            → (n.bucket == k) ≡ false
            → (n.metric_name == k) ≡ false
            → lookup k labels ≡ base k)
        → Grows t (map (bucket_point n fs base name) bs) wr (add_buckets r n fs bs name wr labels t)
    unfolding add_buckets
    add_buckets-Grows [] name wr labels t base agrees = record {
      added = [];
      series = sym (append-nil wr.timeseries);
      metadata = refl;
      shown = tt;
    }
    add_buckets-Grows (b ∷ bs) name wr labels t base agrees =
        Grows-next t (bucket_point n fs base name b ∷ []) (map (bucket_point n fs base name) bs) wr
          _ _
          (to_timeseries-Grows wr _ t _ (λ k.
            lookup-with_label n.bucket _ _ (with_label n.metric_name (cat name "_bucket") base) k
              (λ other. lookup-with_label n.metric_name _ labels base k (agrees k other))))
          (add_buckets-Grows bs name _ _ t base (λ k other differs.
            lookup-differs n.bucket _ _ k other
            ∙ lookup-differs n.metric_name _ labels k differs
            ∙ agrees k other differs))

    add_totals-Grows :
        (name : String) (sum : fs.Float) (total : ℕ) (wr : WriteRequest fs) (labels : Map String)
        (t : ℤ)
        → Grows t
            (totals n fs (λ k. lookup k labels) name sum total)
            wr
            (add_totals r n fs name sum total wr labels t)
    unfolding add_totals
    add_totals-Grows name sum total wr labels t =
        Grows-next t (_ ∷ []) (_ ∷ []) wr _ _
          (to_timeseries-Grows wr _ t _ (λ k.
            lookup-with_label n.metric_name _ labels (λ k. lookup k labels) k (λ other. refl)))
          (to_timeseries-Grows _ _ t _ (λ k.
            lookup-with_label n.metric_name _ _ (λ k. lookup k labels) k
              (λ other. lookup-differs n.metric_name _ labels k other)))

    -- The result of writing a metric: its series are added, or the request is left as it was.
    unfoldable pub Written :
        ℤ → Option (List (Point n fs)) → WriteRequest fs → WriteRequest fs × Option String → Type 0
    Written t none wr (wr', failure) = (wr' ≡ wr) × (failure ≡ some "unsupported metric type")
    Written t (some ps) wr (wr', failure) = Grows t ps wr wr' × (failure ≡ none)

    copied : (labels : Map String) (k : String) → lookup k (copy r n fs labels) ≡ lookup k labels
    unfolding lookup
    copied labels k =
        lookup-range (r.range labels) labels [] k (r.range-IsRange labels)
        ∙ or_none (lookup k labels)
      where
        or_none : (o : Option String) → or_else o none ≡ o
        or_none none = refl
        or_none (some v) = refl

    -- A metric is written as its series, in order and with its labels, or not at all.
    pub make_timeseries-Written :
        (clock : ℕ → ℤ) (wr : WriteRequest fs) (labels : Map String) (m : Metric fs)
        → Written
            (timestamp_of r n fs clock wr m.timestamp_ms)
            (points_of n fs (λ k. lookup k labels) m)
            wr
            (make_timeseries r n fs clock wr labels m)
    unfolding make_timeseries Written
    make_timeseries-Written clock wr labels m = elim (Option-cases m.gauge) [
      | inr (v, e) ↦ rw e (plain v)
      | inl e ↦ rw e (elim (Option-cases m.counter) [
        | inr (v, f) ↦ rw f (plain v)
        | inl f ↦ rw f (elim (Option-cases m.summary) [
          | inr (s, g) ↦ rw g (
            Grows-next (stamp) (map (quantile_point n fs base) s.quantile) _ wr _ _
                (add_quantiles-Grows s.quantile wr (copy r n fs labels) stamp base
                  (λ k differs. copied labels k))
                (add_totals-Grows _ s.sample_sum s.sample_count _ labels stamp),
            refl,
          )
          | inl g ↦ rw g (elim (Option-cases m.histogram) [
            | inr (h, i) ↦ rw i (
              Grows-next (stamp) (map (bucket_point n fs base _) h.bucket) _ wr _ _
                  (add_buckets-Grows h.bucket _ wr (copy r n fs labels) stamp base
                    (λ k other differs. copied labels k))
                  (add_totals-Grows _ h.sample_sum h.sample_count _ labels stamp),
              refl,
            )
            | inl i ↦ rw i (elim (Option-cases m.untyped) [
              | inr (v, j) ↦ rw j (plain v)
              | inl j ↦ rw j (refl, refl)
            ])
          ])
        ])
      ])
    ]
      where
        base : Labels
        base k = lookup k labels

        stamp : ℤ
        stamp = timestamp_of r n fs clock wr m.timestamp_ms

        plain :
            (v : fs.Float)
            → Written stamp
                (some (record { labels = base; value = v } ∷ []))
                wr
                (to_timeseries r n fs wr labels stamp v, none)
        plain v = (
          to_timeseries-Grows wr labels stamp (record { labels = base; value = v }) (λ k. refl),
          refl,
        )

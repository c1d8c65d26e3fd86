-- ===== src/Metrics/Series/Whole.antt =====
-- internal/broker/metrics/collector.go, `MetricFamiliesToWriteRequest`: the whole request.
use mathlib.Core.List.{append_assoc, append-nil}
use edge_q.Prelude.{
  ℕ, String, ◌≡◌, refl, ap, ◌∙◌, Option, none, some, List, [], ◌∷◌, ◌++◌, arith, if◌then◌else◌,
}
use edge_q.Prelude.Int.{ℤ, pos, eqb_ℤ}
use edge_q.Outcome.{Outcome, ok}
use edge_q.Maps.{Map, lookup}
use edge_q.Metrics.{
  LabelNames, Floats, Metric, MetricFamily, MetricMetadata, TimeSeries, WriteRequest, metadata_of,
}
use edge_q.Metrics.Labels.{metric_labels}
use edge_q.Metrics.Series.{Point, points_of, ShowAll}

-- Two lists in a row, where both are there.
abbrev pub join {ℓ} : {A : Type ℓ} → Option (List A) → Option (List A) → Option (List A)
join none others = none
join (some xs) none = none
join (some xs) (some ys) = some (xs ++ ys)

module _ (n : LabelNames) (fs : Floats) where
  -- The points of one metric, with the time that the metric gives.
  pub record Group : Type 0 where
    pub given : ℤ
    pub points : List (Point n fs)

  abbrev pub group_of : ℤ → Option (List (Point n fs)) → Option (List Group)
  group_of given none = none
  group_of given (some ps) = some (record { given = given; points = ps } ∷ [])

  abbrev pub metric_groups : List (Metric fs) → String → Map String → Option (List Group)
  metric_groups [] name extra_labels = some []
  metric_groups (m ∷ ms) name extra_labels =
      join (group_of m.timestamp_ms (points_of n fs (metric_labels n m.label name extra_labels) m))
        (metric_groups ms name extra_labels)

  -- The groups of the families with these names, none where a metric is of no supported type.
  abbrev pub family_groups : List String → Map (MetricFamily fs) → Map String → Option (List Group)
  family_groups [] mf extra_labels = some []
  family_groups (name ∷ names) mf extra_labels = elim (lookup name mf) [
    | none ↦ none
    | some f ↦ join (metric_groups f.metric name extra_labels) (family_groups names mf extra_labels)
  ]

  -- One entry for each name whose family has a type.
  abbrev pub family_metadata : List String → Map (MetricFamily fs) → List (MetricMetadata fs)
  family_metadata [] mf = []
  family_metadata (name ∷ names) mf = elim (lookup name mf) [
    | none ↦ []
    | some f ↦ elim f.type [
      | none ↦ []
      | some type ↦ metadata_of fs f type ∷ family_metadata names mf
    ]
  ]

  module _ (clock : ℕ → ℤ) where
    -- A time that is given as 0 is read from the clock.
    abbrev pub IsTimeOf : ℤ → ℤ → Type 0
    IsTimeOf given t = (i : ℕ) × (t ≡ (if eqb_ℤ given (pos 0) then clock i else given))

    -- The series show the groups one after the other, each group at one time.
    abbrev pub ShowGroups : List Group → List (TimeSeries fs) → Type 0
    ShowGroups [] series = series ≡ []
    ShowGroups (g ∷ gs) series =
        (here : List (TimeSeries fs)) × (rest : List (TimeSeries fs)) × (t : ℤ) × (series
          ≡ here ++ rest)
        × IsTimeOf g.given t
        × ShowAll n fs t g.points here
        × ShowGroups gs rest

    -- A request with groups and meta data added, or the error.
    unfoldable pub Adds :
        WriteRequest fs
        → Option (List Group)
        → List (MetricMetadata fs)
        → WriteRequest fs × Option String
        → Type 0
    Adds a none md (b, failure) = failure ≡ some "unsupported metric type"
    Adds a (some gs) md (b, failure) =
        (failure ≡ none)
        × (added : List (TimeSeries fs)) × (b.timeseries ≡ a.timeseries ++ added)
        × (b.metadata ≡ a.metadata ++ md)
        × ShowGroups gs added

    ShowGroups-append :
        (gs hs : List Group) (xs ys : List (TimeSeries fs))
        → ShowGroups gs xs
        → ShowGroups hs ys
        → ShowGroups (gs ++ hs) (xs ++ ys)
    ShowGroups-append [] hs xs ys a b = rw a b
    ShowGroups-append (g ∷ gs) hs xs ys (here, rest, t, e, time, shown, a) b = (
      here,
      rest ++ ys,
      t,
      ap (λ s. s ++ ys) e ∙ append_assoc here rest ys,
      time,
      shown,
      ShowGroups-append gs hs rest ys a b,
    )

    Adds-next :
        (gs hs : Option (List Group)) (md me : List (MetricMetadata fs)) (a b : WriteRequest fs)
        (res : WriteRequest fs × Option String)
        → Adds a gs md (b, none)
        → Adds b hs me res
        → Adds a (join gs hs) (md ++ me) res
    unfolding Adds
    Adds-next none hs md me a b res g h = absurd (ground (arith, g))
    Adds-next (some gs) none md me a b res g h = h
    Adds-next (some gs) (some hs) md me a b (c, failure) (e, added, series, metadata, shown)
          (e', added', series', metadata', shown') =
        (
          e',
          added ++ added',
          series' ∙ ap (λ s. s ++ added') series ∙ append_assoc a.timeseries added added',
          metadata' ∙ ap (λ s. s ++ me) metadata ∙ append_assoc a.metadata md me,
          ShowGroups-append gs hs added added' shown shown',
        )

    Adds-stopped :
        (gs hs : Option (List Group)) (md me : List (MetricMetadata fs)) (a c b : WriteRequest fs)
        (e : String)
        → Adds a gs md (b, some e)
        → Adds c (join gs hs) me (b, some e)
    unfolding Adds
    Adds-stopped none hs md me a c b e g = g
    Adds-stopped (some gs) hs md me a c b e (wrong, _, _, _, _) = absurd (ground (arith, wrong))

    pub Adds-then :
        (gs hs : Option (List Group)) (md : List (MetricMetadata fs)) (a b : WriteRequest fs)
        (failure : Option String) (k : WriteRequest fs → WriteRequest fs × Option String)
        → Adds a gs [] (b, failure)
        → ((w : WriteRequest fs) → Adds w hs md (k w))
        → Adds a (join gs hs) md (elim failure [ none ↦ k b | some e ↦ (b, some e) ])
    Adds-then gs hs md a b none k g h = Adds-next gs hs [] md a b (k b) g (h b)
    Adds-then gs hs md a b (some e) k g h = Adds-stopped gs hs [] md a a b e g

    Adds-entry :
        (gs : Option (List Group)) (d : MetricMetadata fs) (a b : WriteRequest fs)
        → Adds (record a { metadata = a.metadata ++ d ∷ [] }) gs [] (b, none)
        → Adds a gs (d ∷ []) (b, none)
    unfolding Adds
    Adds-entry none d a b g = g
    Adds-entry (some gs) d a b (e, added, series, metadata, shown) =
        (e, added, series, metadata ∙ append-nil _, shown)

    pub Adds-family :
        (gs hs : Option (List Group)) (d : MetricMetadata fs) (md : List (MetricMetadata fs))
        (a b : WriteRequest fs) (failure : Option String)
        (k : WriteRequest fs → Outcome String (WriteRequest fs × Option String))
        → Adds (record a { metadata = a.metadata ++ d ∷ [] }) gs [] (b, failure)
        → ((w : WriteRequest fs)
            → (res : WriteRequest fs × Option String) × (k w ≡ ok res) × Adds w hs md res)
        → (res : WriteRequest fs × Option String) × (elim failure [
          | none ↦ k b
          | some e ↦ ok (b, some e)
        ]
            ≡ ok res)
          × Adds a (join gs hs) (d ∷ md) res
    Adds-family gs hs d md a b none k g h =
        let (res, e, rest) = h b in
        (res, e, Adds-next gs hs (d ∷ []) md a b res (Adds-entry gs d a b g) rest)
    Adds-family gs hs d md a b (some e) k g h =
        ((b, some e), refl, Adds-stopped gs hs [] (d ∷ md) _ a b e g)

-- ===== src/Examples/Metering.antt =====
-- Runs of the metrics collector.
use edge_q.Prelude.{
  ℕ, Option, String, ◌≡◌, refl, inl, inr, Bool-cases, none, some, List, [], ◌∷◌, arith, ◌==◌,
  if◌then◌else◌,
}
use edge_q.Prelude.Int.{pos}
use edge_q.Outcome.{ok}
use edge_q.Maps.{Map, lookup, insert, has_key, contains, IsRange}
use edge_q.Metrics.{
  LabelNames, Runtime, Floats, Metric, MetricFamily, WriteRequest, add_labels, add_metric_labels,
  labels_of, make_labels,
}
use edge_q.Metrics.Request.{
  add_families, add_metrics, make_timeseries, to_timeseries, timestamp_of, make_labels_map,
  metric_families_to_write_request,
}
use edge_q.Metrics.Labels.{label_value, metric_labels, label_value-make_labels_map}
use edge_q.Metrics.Series.Whole.{family_groups, family_metadata, Adds}
use edge_q.Metrics.Series.Families.{metric_families_to_write_request-Adds}
use edge_q.Metrics.Collector.{
  Network, Post, metric_text_to_write_request, send_answer, send_remote_write_request, Accepted,
  scrape, get_edge_proxy_address, scrape-Accepted,
}

abbrev names : LabelNames
names = record {
  metric_name = "__name__";
  quantile = "quantile";
  bucket = "le";
  job = "job";
  exported_prefix = "exported_";
  quantile_differs = refl;
  bucket_differs = refl;
}

abbrev keys : Map String → List String
keys [] = []
keys ((k, v) ∷ m) = k ∷ keys m

keys-visit : (m : Map String) (k : String) → contains k (keys m) ≡ has_key k m
unfolding lookup
keys-visit [] k = refl
keys-visit ((j, v) ∷ m) k = ground (arith, keys-visit m k, Bool-cases (j == k))

abbrev runtime : Runtime
runtime = record {
  range = keys;
  sort_strings = λ ks. ks;
  range-IsRange = λ m. record { visits = keys-visit m };
  sort_keeps = λ k ks. refl;
}

abbrev floats : Floats
floats = record { Float = ℕ; of_count = λ n. n; sprint = λ n. "1" }

abbrev up : Metric floats
up = record {
  label = record { name = "job"; value = "broker" } ∷ [];
  gauge = some 1;
  counter = none;
  summary = none;
  histogram = none;
  untyped = none;
  timestamp_ms = pos 0;
}

abbrev families : Map (MetricFamily floats)
families = ("up", record { name = "up"; help = ""; type = some "GAUGE"; metric = up ∷ [] }) ∷ []

only_up : IsRange ("up" ∷ []) families
unfolding lookup
only_up = record { visits = λ k. ground (arith, Bool-cases ("up" == k)) }

label_value-make_labels_map_example :
    label_value "exported_job"
      (make_labels runtime (make_labels_map runtime names floats up "up" []))
    ≡ metric_labels names up.label "up" [] "exported_job"
label_value-make_labels_map_example =
    label_value-make_labels_map runtime names floats up "up" [] "exported_job"

typed :
    (k : String) (f : MetricFamily floats)
    → lookup k families ≡ some f
    → (type : String) × (f.type ≡ some type)
unfolding lookup
typed k f h = elim (Bool-cases ("up" == k)) [
  | inl same ↦ ("GAUGE", type_of (rw same at h))
  | inr other ↦ absurd (none_not_some (rw other at h))
]
  where
    type_of :
        {g : MetricFamily floats}
        → some (record { name = "up"; help = ""; type = some "GAUGE"; metric = up ∷ [] }) ≡ some g
        → g.type ≡ some "GAUGE"
    type_of e = cc

    none_not_some :
        {g : MetricFamily floats} → ◌≡◌ {A = Option (MetricFamily floats)} none (some g) → ⊥
    none_not_some e = cc

metric_families_to_write_request-Adds_example :
    (res : WriteRequest floats × Option String) × (metric_families_to_write_request runtime names
        floats
        (λ i. pos 5)
        ("up" ∷ [])
        families
        []
      ≡ ok res)
    × Adds names floats
        (λ i. pos 5)
        (record { timeseries = []; metadata = [] })
        (family_groups names floats ("up" ∷ []) families [])
        (family_metadata names floats ("up" ∷ []) families)
        res
metric_families_to_write_request-Adds_example =
    metric_families_to_write_request-Adds names floats (λ i. pos 5) runtime [] ("up" ∷ []) families
      only_up typed

abbrev network : Network runtime names floats
network = record {
  get = λ url. inr "up 1";
  text_to_metric_families = λ text. inr ("up" ∷ [], families);
  clock = λ i. pos 5;
  marshal = λ wr. inr "encoded";
  encode = λ text. text;
  new_request = λ url body. inr (record { url = url; body = body });
  status = λ post. inr 204;
  itoa = λ n. "204";
}

abbrev getenv : String → String
getenv name = if name == "NODE_IP" then "10.0.0.1" else ""

abbrev posted : Post
posted = record { url = "http://10.0.0.1:19101/api/v1/write"; body = "encoded" }

scrape-Accepted_example :
    (body : String) × (order : List String) × (mf : Map (MetricFamily floats)) × (wr : WriteRequest
      floats)
    × (network.get "http://0.0.0.0:5000/metrics" ≡ inr body)
    × (network.text_to_metric_families body ≡ inr (order, mf))
    × (metric_families_to_write_request runtime names floats network.clock order mf []
        ≡ ok (wr, none))
    × Accepted runtime names floats network "http://10.0.0.1:19101/api/v1/write" wr (posted ∷ [])
unfolding get_edge_proxy_address scrape metric_text_to_write_request send_answer
    send_remote_write_request metric_families_to_write_request add_families add_metrics
    make_timeseries to_timeseries timestamp_of make_labels_map add_labels add_metric_labels
    make_labels labels_of lookup insert
scrape-Accepted_example =
    scrape-Accepted runtime names floats getenv "0.0.0.0:5000" network (posted ∷ []) refl

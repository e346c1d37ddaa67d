-- ===== src/Metrics/NewRelic.antt =====
-- crates/metrics-exporter-newrelic/src/lib.rs and client.rs: the report of counters, gauges and
-- histograms. Times are milliseconds since 1970. Overflow checks are on, as in a debug build.
pub mod Laws
use geocode_csv.Base.{
  ℕ, ◌+◌, ◌-◌, ◌/◌, ◌%◌, ◌^◌, Bool, Option, none, some, List, [], ◌∷◌, ◌++◌, ltb, if◌then◌else◌,
}
use geocode_csv.Base.Text.{Text, codes}
use geocode_csv.Base.Dict.{Dict, insert}
use geocode_csv.Base.Outcome
use geocode_csv.Base.Outcome.{Outcome, ok, err, panicked, http_status}
use geocode_csv.Base.Effect.{M, ◌>>=◌, pure, raise}
use geocode_csv.Geocoders.Smarty.{is_success}
use geocode_csv.Metrics.Summary.{Floats, Summary, summarize}

-- The keys of the library metrics: when they are equal, their names and labels.
pub record Keys (K : Type 0) : Type 0 where
  pub same : K → K → Bool
  pub name : K → Text
  pub labels : K → List (Text × Text)

pub data MetricType : Type 0 where
  count_type distribution gauge_type summmary unique_count : MetricType

-- The name that serde gives a type, by `rename_all = "camelCase"`.
abbrev pub type_name : MetricType → Text
type_name count_type = codes "count"
type_name distribution = codes "distribution"
type_name gauge_type = codes "gauge"
type_name summmary = codes "summmary"
type_name unique_count = codes "uniqueCount"

-- The JSON values that are made.
pub data MetricValue (F : Type 0) : Type 0 where
  integer : ℕ → MetricValue F
  float : F → MetricValue F
  summary_object : Summary F → MetricValue F

pub record Metric (F : Type 0) : Type 0 where
  pub name : Text
  pub value : MetricValue F
  pub type_ : MetricType
  pub attributes : Option (Dict Text)

pub record MetricsReport (F : Type 0) : Type 0 where
  pub interval_ms : ℕ
  pub timestamp : ℕ
  pub attributes : Dict Text
  pub metrics : List (Metric F)

pub record MetricMetadata (K : Type 0) : Type 0 where
  pub previous_timestamp : ℕ
  pub previously_reported_counts : List (K × ℕ)

-- `Inner`, with the registry's handles.
pub record Inner (K F : Type 0) : Type 0 where
  pub counters : List (K × ℕ)
  pub gauges : List (K × F)
  pub histograms : List (K × List (List F))
  pub api_key : Text
  pub global_labels : Dict Text
  pub metadata : MetricMetadata K

abbrev pub insert_labels : List (Text × Text) → Dict Text → Dict Text
insert_labels [] attributes = attributes
insert_labels ((k, value) ∷ labels) attributes = insert_labels labels (insert k value attributes)

unfoldable pub attributes_of : List (Text × Text) → Option (Dict Text)
attributes_of [] = none
attributes_of (label ∷ labels) = some (insert_labels (label ∷ labels) [])

module _ {K F : Type 0} (ks : Keys K) (floats : Floats F) where
  -- `HashMap` with these keys.
  abbrev pub get_count : K → List (K × ℕ) → ℕ
  get_count k [] = 0
  get_count k ((j, n) ∷ counts) = if ks.same j k then n else get_count k counts

  abbrev pub insert_count : K → ℕ → List (K × ℕ) → List (K × ℕ)
  insert_count k n [] = (k, n) ∷ []
  insert_count k n ((j, old) ∷ counts) =
      if ks.same j k then (k, n) ∷ counts else (j, old) ∷ insert_count k n counts

  unfoldable pub metric_for : K → MetricValue F → MetricType → Metric F
  unfolding attributes_of
  metric_for k value type_ = record {
    name = ks.name k;
    value = value;
    type_ = type_;
    attributes = attributes_of (ks.labels k);
  }

  -- The loop over the counters: `reported_counts`.
  unfoldable pub count_reported : List (K × ℕ) → List (K × ℕ) → Outcome (List (K × ℕ))
  count_reported previous [] = ok []
  count_reported previous ((k, current) ∷ counters) =
      let rest = count_reported previous counters in
      if ltb current (get_count k previous)
      then panicked
      else Outcome.◌>>=◌ rest λ reported. ok ((k, current - get_count k previous) ∷ reported)

  unfoldable pub count_metrics : List (K × ℕ) → List (Metric F)
  unfolding metric_for
  count_metrics [] = []
  count_metrics ((k, reported) ∷ counts) =
      metric_for k (integer reported) count_type ∷ count_metrics counts

  unfoldable pub gauge_metrics : List (K × F) → List (Metric F)
  unfolding metric_for
  gauge_metrics [] = []
  gauge_metrics ((k, current) ∷ gauges) =
      metric_for k (float current) gauge_type ∷ gauge_metrics gauges

  unfoldable pub histogram_metrics : List (K × List (List F)) → List (Metric F)
  unfolding metric_for summarize
  histogram_metrics [] = []
  histogram_metrics ((k, blocks) ∷ histograms) =
      let rest = histogram_metrics histograms in
      let summary = summarize floats blocks in
      if ltb 0 summary.count then metric_for k (summary_object summary) summmary ∷ rest else rest

  -- `clear_with` leaves no values.
  abbrev pub clear_histograms : List (K × List (List F)) → List (K × List (List F))
  clear_histograms [] = []
  clear_histograms ((k, blocks) ∷ histograms) = (k, []) ∷ clear_histograms histograms

  unfoldable pub report_of : ℕ → Inner K F → List (K × ℕ) → MetricsReport F
  unfolding count_metrics gauge_metrics histogram_metrics
  report_of now inner reported = record {
    interval_ms = (now - inner.metadata.previous_timestamp) % 2 ^ 64;
    timestamp = inner.metadata.previous_timestamp / 1000;
    attributes = inner.global_labels;
    metrics =
        count_metrics reported ++ gauge_metrics inner.gauges ++ histogram_metrics inner.histograms;
  }

  abbrev pub insert_counts : List (K × ℕ) → List (K × ℕ) → List (K × ℕ)
  insert_counts [] counts = counts
  insert_counts ((k, n) ∷ reported) counts = insert_counts reported (insert_count k n counts)

-- `report_metrics`, over a client that posts a report and returns the status of the answer.
unfoldable pub report_metrics :
    {W F : Type 0} → (Text → MetricsReport F → M W ℕ) → Text → MetricsReport F → M W Unit
unfolding is_success
report_metrics post api_key report = do
  status ← post api_key report
  if is_success status then pure tt else raise (http_status status)

module _ {W K F : Type 0} (ks : Keys K) (floats : Floats F)
    (post : Text → MetricsReport F → M W ℕ) where
  -- The end of `report`, from the outcome of the submission: only success updates the metadata.
  abbrev pub update_metadata : Outcome (Unit {0}) → List (K × ℕ) → Inner K F → Inner K F
  update_metadata (ok u) reported inner = record inner {
    metadata = record inner.metadata {
      previously_reported_counts =
          insert_counts ks floats reported inner.metadata.previously_reported_counts;
    };
  }
  update_metadata (err e) reported inner = inner
  update_metadata panicked reported inner = inner

  abbrev pub submit : ℕ → Outcome (List (K × ℕ)) → M (Inner K F × W) Unit
  submit now (err e) (inner, w) = (err e, (inner, w))
  submit now panicked (inner, w) = (panicked, (inner, w))
  submit now (ok reported) (inner, w) =
      let cleared = record inner { histograms = clear_histograms ks floats inner.histograms } in
      let sent = report_metrics post inner.api_key (report_of ks floats now inner reported) w in
      (sent.0, (update_metadata sent.0 reported cleared, sent.1))

  -- `Inner::report` at the time `now`.
  unfoldable pub report : ℕ → M (Inner K F × W) Unit
  unfolding count_reported report_of report_metrics
  report now (inner, w) =
      submit now (count_reported ks floats inner.metadata.previously_reported_counts inner.counters)
        (inner, w)

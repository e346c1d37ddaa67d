-- ===== src/Metrics/Opinionated.antt =====
-- crates/opinionated_metrics/src/lib.rs, and the builder of crates/metrics-exporter-newrelic/src/lib.rs:
-- the choice of an exporter, and the labels of all metrics.
pub mod Labels
use geocode_csv.Base.{ℕ, Option, none, some, List, [], ◌∷◌}
use geocode_csv.Base.Text.{Text}
use geocode_csv.Base.Dict.{Dict, insert}
use geocode_csv.Base.Outcome
use geocode_csv.Base.Outcome.{Outcome, ok, err, panicked}
use geocode_csv.Base.Effect.{M}
use geocode_csv.CommandLine.{MetricsLabel}
use geocode_csv.Metrics.Summary.{Floats}
use geocode_csv.Metrics.NewRelic.{Keys, MetricsReport, Inner, report}

-- `NewRelicBuilder`
pub record NewRelicBuilder : Type 0 where
  pub api_key : Text
  pub global_labels : Dict Text

abbrev pub new_relic_add_global_label : Text → Text → NewRelicBuilder → NewRelicBuilder
new_relic_add_global_label k value b = record b { global_labels = insert k value b.global_labels }

-- `build`, at the time `now`, with an empty registry.
abbrev pub new_relic_build : {K F : Type 0} → ℕ → NewRelicBuilder → Inner K F
new_relic_build now b = record {
  counters = [];
  gauges = [];
  histograms = [];
  api_key = b.api_key;
  global_labels = b.global_labels;
  metadata = record { previous_timestamp = now; previously_reported_counts = [] };
}

-- `Builder`, whose mode is always `Cli`.
pub record Builder : Type 0 where
  pub global_labels : Dict Text

abbrev pub new_builder : Builder
new_builder = record { global_labels = [] }

abbrev pub add_global_label : Text → Text → Builder → Builder
add_global_label k value b = record { global_labels = insert k value b.global_labels }

-- The loop of `main` over the labels of the command line.
unfoldable pub add_metrics_labels : List MetricsLabel → Builder → Builder
add_metrics_labels [] b = b
add_metrics_labels (label ∷ labels) b =
    add_metrics_labels labels (add_global_label label.key label.value b)

-- The loop of `install` over `global_labels`.
unfoldable pub add_global_labels : Dict Text → NewRelicBuilder → NewRelicBuilder
add_global_labels [] b = b
add_global_labels ((k, value) ∷ labels) b =
    add_global_labels labels (new_relic_add_global_label k value b)

-- `Handle`
pub data Handle (K F : Type 0) : Type 0 where
  new_relic : Inner K F → Handle K F
  prometheus : Dict Text → Handle K F

-- The two recorders' installation as the global one, by the library metrics.
pub record Recorders : Type 0 where
  pub set_boxed_recorder : Outcome (Unit {0})
  pub install_prometheus : Dict Text → Outcome (Unit {0})

module _ {K F : Type 0} (recorders : Recorders) where
  unfoldable pub new_relic_install : Inner K F → Outcome (Handle K F)
  new_relic_install inner = Outcome.◌>>=◌ recorders.set_boxed_recorder λ done. ok (new_relic inner)

  -- The program adds the labels to the library's builder one by one, each key once; here the library
  -- gets them all at once.
  unfoldable pub prometheus_install : Dict Text → Outcome (Handle K F)
  prometheus_install labels =
      Outcome.◌>>=◌ (recorders.install_prometheus labels) λ done. ok (prometheus labels)

  -- `install`, with the variable NEW_RELIC_API_KEY.
  unfoldable pub install : ℕ → Option Text → Builder → Outcome (Handle K F)
  unfolding add_global_labels new_relic_install prometheus_install
  install now (some new_relic_api_key) b = new_relic_install (
      new_relic_build now (
        add_global_labels b.global_labels
          (record { api_key = new_relic_api_key; global_labels = [] })))
  install now none b = prometheus_install b.global_labels

-- `Handle::report`: Prometheus only logs.
unfoldable pub report_handle :
    {W K F : Type 0}
    → Keys K
    → Floats F
    → (Text → MetricsReport F → M W ℕ)
    → ℕ
    → M (Handle K F × W) Unit
unfolding report
report_handle ks floats post now (new_relic inner, w) =
    let run = report ks floats post now (inner, w) in (run.0, (new_relic run.1.0, run.1.1))
report_handle ks floats post now (prometheus labels, w) = (ok tt, (prometheus labels, w))

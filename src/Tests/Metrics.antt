-- ===== src/Tests/Metrics.antt =====
-- Witnesses and runs for crates/metrics-exporter-newrelic.
use geocode_csv.Base.{
  ℕ, ◌+◌, ◌≡◌, refl, List, [], ◌∷◌, ltb, ◌==◌, ==_iff, if◌then◌else◌, arith, some,
}
use geocode_csv.Base.Text.{Text, codes}
use geocode_csv.Base.Outcome.{ok}
use geocode_csv.Base.Effect.{M}
use geocode_csv.Geocoders.Smarty.{is_success}
use geocode_csv.Metrics.Summary.{
  Floats, summarize, add_blocks, add_block, add_values, reduce_discarding_nulls, reference,
  summarize-reference,
}
use geocode_csv.Metrics.NewRelic.{
  Keys, MetricsReport, Inner, count_reported, report_metrics, report,
}
use geocode_csv.Metrics.NewRelic.Laws.{SameIsEqual, Remembers, Covers, report-Remembers}
use geocode_csv.Tests.Data.{Any}

-- Natural numbers in place of floats.
abbrev floats : Floats ℕ
floats = record {
  nought = 0;
  add = λ x y. x + y;
  min = λ x y. if ltb x y then x else y;
  max = λ x y. if ltb x y then y else x;
}

abbrev blocks : List (List ℕ)
blocks = (3 ∷ 1 ∷ []) ∷ [] ∷ (2 ∷ []) ∷ []

summarized : summarize floats blocks ≡ record { count = 3; sum = 6; min = some 1; max = some 3 }
unfolding summarize add_blocks add_block add_values reduce_discarding_nulls
summarized = refl

summarize-reference_example : summarize floats blocks ≡ reference floats (3 ∷ 1 ∷ 2 ∷ [])
summarize-reference_example = summarize-reference floats blocks

abbrev ks : Keys ℕ
ks = record { same = λ j k. j == k; name = λ k. codes "c"; labels = λ k. [] }

ks-SameIsEqual : SameIsEqual ks floats
ks-SameIsEqual j k = ==_iff j k

-- A client that accepts every report.
abbrev post : Text → MetricsReport ℕ → M ℕ ℕ
post api_key r w = (ok 202, w)

abbrev inner : ℕ → List (ℕ × ℕ) → Inner ℕ ℕ
inner current previous = record {
  counters = (7, current) ∷ [];
  gauges = [];
  histograms = [];
  api_key = codes "key";
  global_labels = [];
  metadata = record { previous_timestamp = 0; previously_reported_counts = previous };
}

report-Remembers_example :
    let run = report ks floats post 1000 (inner 15 ((7, 10) ∷ []), 0) in
    Remembers ks floats (inner 15 ((7, 10) ∷ [])) run.0 run.1.0
    × Covers ks floats run.1.0.metadata.previously_reported_counts ((7, 15) ∷ [])
    × Any run.1.1
report-Remembers_example =
    report-Remembers ks floats post 1000 (inner 15 ((7, 10) ∷ [])) 0 ks-SameIsEqual (tt, tt)
      (omega arith, tt) (λ api_key r. record { at = λ w i. (tt, tt) }) tt

-- A counter of 10, 15 and 15 is reported as 10, 5 and 10.
first_report : (report ks floats post 1000 (inner 10 [], 0)).1.0 ≡ inner 10 ((7, 10) ∷ [])
unfolding report count_reported report_metrics is_success
first_report = refl

second_report :
    (report ks floats post 2000 (inner 15 ((7, 10) ∷ []), 0)).1.0 ≡ inner 15 ((7, 5) ∷ [])
unfolding report count_reported report_metrics is_success
second_report = refl

third_report :
    (report ks floats post 3000 (inner 15 ((7, 5) ∷ []), 0)).1.0 ≡ inner 15 ((7, 10) ∷ [])
unfolding report count_reported report_metrics is_success
third_report = refl

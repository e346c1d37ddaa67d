-- ===== src/CommandLine/Main.antt =====
-- src/main.rs: `main`. Reading of the spec, the recorders of metrics and axum are parameters.
-- The report of metrics at the end only warns if it fails, and is left out.
pub mod Laws
use geocode_csv.Base.{ℕ, Option, none, some, List, [], ◌∷◌}
use geocode_csv.Base.Text.{Text, codes}
use geocode_csv.Base.Outcome.{Outcome, ok, err, panicked, ◌>>=◌}
use geocode_csv.Base.Effect.{M}
use geocode_csv.Addresses.Address.{Address}
use geocode_csv.Addresses.Spec.{AddressColumnSpec}
use geocode_csv.Geocoders.{Geocoder}
use geocode_csv.Geocoders.LibPostal.{libpostal}
use geocode_csv.Pipeline.Retry.{Timed}
use geocode_csv.Pipeline.Read.{CsvInput}
use geocode_csv.Pipeline.Stdio.{StdioRun, geocode_stdio}
use geocode_csv.Metrics.Opinionated.{Recorders, new_builder, add_metrics_labels, install}
use geocode_csv.Server.Run.{Axum, run_server}
use geocode_csv.CommandLine.{Command, server, Opt, Libraries, build_geocoder}

-- The libraries, the spec that its file has, the variable NEW_RELIC_API_KEY, and the time.
pub record Environment (W K F : Type 0) : Type 0 where
  pub libraries : Libraries W
  pub from_path : Outcome (AddressColumnSpec Text)
  pub recorders : Recorders
  pub new_relic_api_key : Option Text
  pub started : ℕ
  pub axum : Axum W

abbrev pub dummy_address : Address
dummy_address = record {
  street = codes "1 Main St";
  city = some (codes "Anytown");
  state = some (codes "VT");
  zipcode = none;
}

module _ {W K F : Type 0} (environment : Environment W K F) where
  -- `LibPostal::prime`, which ignores an error, and `run_server` after it.
  abbrev pub after_prime : {A : Type 0} → Outcome A → M W Unit → M W Unit
  after_prime (ok geocoded) serve w = serve w
  after_prime (err e) serve w = serve w
  after_prime panicked serve w = (panicked, w)

  unfoldable pub prime_and_serve : Text → Geocoder W → M W Unit
  unfolding run_server
  prime_and_serve listen_address geocoder w =
      let primed =
        (libpostal environment.libraries.parse_address).geocode_addresses (dummy_address ∷ []) w in
      after_prime primed.0 (run_server environment.axum listen_address geocoder) primed.1

  unfoldable pub prepare : Opt → Outcome (AddressColumnSpec Text × Geocoder W)
  unfolding build_geocoder install add_metrics_labels
  prepare opt = do
    spec ← environment.from_path
    metrics_handle ←
        install {K = K} {F = F} environment.recorders environment.started
          environment.new_relic_api_key (add_metrics_labels opt.metrics_labels new_builder)
    geocoder ← build_geocoder environment.libraries opt
    ok (spec, geocoder)

  -- The match on `opt.cmd`.
  unfoldable pub run_command :
      Opt → CsvInput → Timed W → Option Command → AddressColumnSpec Text → Geocoder W → StdioRun W
  unfolding prime_and_serve geocode_stdio
  run_command opt input t (some (server listen_address)) spec geocoder =
      let served = prime_and_serve listen_address geocoder t.world in
      record { result = served.0; written = []; after = record t { world = served.1 } }
  run_command opt input t none spec geocoder =
      geocode_stdio geocoder opt.max_retries spec opt.on_duplicate_columns input t

  abbrev pub run_prepared :
      Opt → CsvInput → Timed W → Outcome (AddressColumnSpec Text × Geocoder W) → StdioRun W
  run_prepared opt input t (ok (spec, geocoder)) = run_command opt input t opt.cmd spec geocoder
  run_prepared opt input t (err e) = record { result = err e; written = []; after = t }
  run_prepared opt input t panicked = record { result = panicked; written = []; after = t }

  unfoldable pub main : Opt → CsvInput → Timed W → StdioRun W
  unfolding prepare run_command
  main opt input t = run_prepared opt input t (prepare opt)

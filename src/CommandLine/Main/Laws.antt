-- ===== src/CommandLine/Main/Laws.antt =====
-- src/main.rs: how a run of the program over a CSV file ends.
use geocode_csv.Base.{◌≤◌, ◌≡◌, ◌≢◌, Option, none, some, List, [], map, length}
use geocode_csv.Base.Text.{Text}
use geocode_csv.Base.Dict.{Dict}
use geocode_csv.Base.Outcome.{Outcome, ok, err, panicked, Ensures, Ensures-bind}
use geocode_csv.Addresses.Columns.{StringRecord}
use geocode_csv.Addresses.Spec.{AddressColumnSpec}
use geocode_csv.Geocoders.{Geocoder, Implements}
use geocode_csv.Pipeline.Retry.{Timed}
use geocode_csv.Pipeline.Geocode.Rows.{HaveWidth}
use geocode_csv.Pipeline.Stdio.Total.{Ends, geocode_stdio-Ends}
use geocode_csv.Metrics.Opinionated.{
  Builder, new_builder, add_metrics_labels, install, new_relic_install, prometheus_install,
}
use geocode_csv.CommandLine.{Opt, build_geocoder}
use geocode_csv.CommandLine.Laws.{Reliable, build_geocoder-Implements}
use geocode_csv.CommandLine.Main.{Environment, prepare, run_command, run_prepared, main}

-- What is relied on: the libraries, and that reading the spec and installing a recorder do not panic.
pub record IsReady {W K F : Type 0} (Inv : W → Type 0) (environment : Environment W K F)
    : Type 0 where
  pub reliable : Reliable Inv environment.libraries
  pub reads_spec : Ensures (λ spec. Unit) environment.from_path
  pub installs :
      Ensures (λ u. Unit) environment.recorders.set_boxed_recorder
      × ((labels : Dict Text)
          → Ensures (λ u. Unit) (environment.recorders.install_prometheus labels))

module _ {W K F : Type 0} {Inv : W → Type 0} (environment : Environment W K F) where
  install-total :
      (api_key : Option Text) (b : Builder)
      → IsReady Inv environment
      → Ensures
          (λ handle. Unit)
          (install {K = K} {F = F} environment.recorders environment.started api_key b)
  unfolding install new_relic_install prometheus_install
  install-total none b r =
      Ensures-bind _ _ (environment.recorders.install_prometheus b.global_labels) _
        (r.installs.1 b.global_labels) λ u v. tt
  install-total (some api_key) b r =
      Ensures-bind _ _ environment.recorders.set_boxed_recorder _ r.installs.0 λ u v. tt

  prepare-Implements :
      (opt : Opt)
      → IsReady Inv environment
      → Ensures
          (λ (p : AddressColumnSpec Text × Geocoder W). Implements Inv p.1)
          (prepare environment opt)
  unfolding prepare
  prepare-Implements opt r = Ensures-bind _ _ environment.from_path _ r.reads_spec λ spec u.
      Ensures-bind _ _
        (install environment.recorders environment.started environment.new_relic_api_key
          (add_metrics_labels opt.metrics_labels new_builder))
        _ (install-total environment.new_relic_api_key _ r)
        λ handle v.
          Ensures-bind _ _ (build_geocoder environment.libraries opt) _
            (build_geocoder-Implements environment.libraries opt r.reliable) λ geocoder imp. imp

  -- A run of the program without a command, with any other options and at most 62 retries, on a CSV
  -- file with rows, each as wide as the header: it does not panic and keeps the invariant, if the
  -- libraries and services can be relied on. If it succeeds, it has written the header of the output
  -- once and then one row for each row of the file, each as wide as that header.
  pub main-Ends :
      (opt : Opt) (headers : StringRecord) (rows : List StringRecord) (t : Timed W)
      → IsReady Inv environment
      → opt.cmd ≡ none
      → opt.max_retries ≤ 62
      → HaveWidth (length headers) rows
      → rows ≢ []
      → Inv t.world
      → let run = main environment opt (record { headers = ok headers; records = map ok rows }) t in
        Ends (length rows) run.result run.written × Inv run.after.world
  unfolding main
  main-Ends opt headers rows t r stdio small width ne i =
      ends (prepare environment opt) (prepare-Implements opt r)
    where
      ends :
          (p : Outcome (AddressColumnSpec Text × Geocoder W))
          → Ensures (λ (p : AddressColumnSpec Text × Geocoder W). Implements Inv p.1) p
          → let run =
              run_prepared environment opt
                (record { headers = ok headers; records = map ok rows })
                t
                p in
            Ends (length rows) run.result run.written × Inv run.after.world
      ends (ok (spec, geocoder)) imp =
          rw (run_command, stdio)
            (geocode_stdio-Ends geocoder Inv opt.max_retries spec opt.on_duplicate_columns headers
              rows t imp small width ne i)
      ends (err e) imp = (tt, i)
      ends panicked imp = absurd imp

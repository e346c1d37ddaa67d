-- ===== src/Tests/CommandLine.antt =====
-- Witnesses and runs for src/main.rs.
use geocode_csv.Base.{
  ℕ, ◌*◌, ◌≤◌, ◌≡◌, ◌↔◌, refl, true, false, none, some, List, [], ◌∷◌, ◌++◌, map, arith,
}
use geocode_csv.Base.Text.{codes, contains_char}
use geocode_csv.Base.Outcome.{ok, Ensures}
use geocode_csv.Addresses.Spec.{prefix_count}
use geocode_csv.Geocoders.{Implements}
use geocode_csv.Geocoders.MatchStrategy.{strict}
use geocode_csv.Pipeline.Read.{replace, chunk_size}
use geocode_csv.CommandLine.{MetricsLabel, smarty, Opt, Libraries, build_geocoder}
use geocode_csv.CommandLine.Laws.{Reliable, build_geocoder-Implements}
use geocode_csv.Base.Dict.{lookup}
use geocode_csv.Metrics.Opinionated.{
  Recorders, Handle, new_relic, new_builder, add_metrics_labels, add_global_labels, install,
  new_relic_install,
}
use geocode_csv.Metrics.Opinionated.Labels.{handle_labels, last_label, install-labels}
use geocode_csv.CommandLine.Main.{Environment, main}
use geocode_csv.CommandLine.Main.Laws.{IsReady, main-Ends}
use geocode_csv.Pipeline.Stdio.Total.{Ends}
use geocode_csv.Addresses.Columns.{StringRecord}
use geocode_csv.Tests.Reading.{named}
use geocode_csv.CommandLine.Parse.{parse_metrics_label, split_once, parse_metrics_label_iff}
use geocode_csv.CommandLine.RateLimit.{bucket_for, chunk_size-fits}
use geocode_csv.Tests.Cache.{bincode, bincode-safe}
use geocode_csv.Tests.Data.{Any, parse_road, parse_road-Safe, spec}
use geocode_csv.Tests.Smarty.{structure, service, service-safe}
use geocode_csv.Tests.Stores.{connections, connections-Connects, url}

abbrev libraries : Libraries ℕ
libraries = record {
  parse_address = parse_road;
  service = λ bucket credentials. service;
  from_json = λ s. ok structure.fields;
  env = λ name. some (codes "secret");
  connections = connections;
  bincode = bincode;
  sha256 = λ data'. (0, 255);
}

libraries-Reliable : Reliable Any libraries
libraries-Reliable = record {
  parses = parse_road-Safe;
  serves = λ bucket credentials. service-safe;
  reads_json = λ s. tt;
  connects = connections-Connects;
  codec = bincode-safe;
}

abbrev label : MetricsLabel
label = record { key = codes "env"; value = codes "a=b" }

-- All layers at once.
abbrev opt : Opt
opt = record {
  match_strategy = strict;
  geocoder = smarty;
  smarty_license = codes "us";
  cache_url = some url;
  cache_hits_only = false;
  cache_output_keys = true;
  cache_key_prefix = some (codes "p");
  normalize = true;
  include_libpostal = true;
  on_duplicate_columns = replace;
  max_addresses_per_second = some 10;
  max_retries = 4;
  metrics_labels = label ∷ [];
  cmd = none;
}

build_geocoder-Implements_example : Ensures (Implements Any) (build_geocoder libraries opt)
build_geocoder-Implements_example = build_geocoder-Implements libraries opt libraries-Reliable

parsed : parse_metrics_label (codes "env=a=b") ≡ ok label
unfolding parse_metrics_label split_once
parsed = refl

label_parsed : (parse_metrics_label (codes "env=a=b") ≡ ok label) ↔ (
    (codes "env=a=b" ≡ codes "env" ++ (b'=' ∷ codes "a=b"))
    × (contains_char b'=' (codes "env") ≡ false))
label_parsed = parse_metrics_label_iff (codes "env=a=b") label

whole_chunk_fits :
    (chunk_size spec * prefix_count spec ≤ (bucket_for 10).initial)
    × ((bucket_for 10).initial ≤ (bucket_for 10).capacity)
unfolding prefix_count
whole_chunk_fits = chunk_size-fits 10 spec (omega arith) (omega arith)

abbrev recorders : Recorders
recorders = record { set_boxed_recorder = ok tt; install_prometheus = λ m. ok tt }

abbrev environment : Environment ℕ ℕ ℕ
environment = record {
  libraries = libraries;
  from_path = ok named;
  recorders = recorders;
  new_relic_api_key = some (codes "key");
  started = 0;
  axum = record { bind_at = λ listen_address. ok (λ w. (ok (λ router w'. (ok tt, w')), w)) };
}

environment-IsReady : IsReady Any environment
environment-IsReady = record {
  reliable = libraries-Reliable;
  reads_spec = tt;
  installs = (tt, λ m. tt);
}

abbrev csv_header : StringRecord
csv_header = codes "id" ∷ codes "street" ∷ []

abbrev csv_rows : List StringRecord
csv_rows = (codes "1" ∷ codes "1 Main St" ∷ []) ∷ (codes "2" ∷ codes "" ∷ []) ∷ []

main-Ends_example :
    let run =
      main environment opt
        (record { headers = ok csv_header; records = map ok csv_rows })
        (record { world = 0; sleeps = [] }) in
    Ends 2 run.result run.written × Any run.after.world
main-Ends_example =
    main-Ends environment opt csv_header csv_rows (record { world = 0; sleeps = [] })
      environment-IsReady refl (omega arith) (refl, (refl, tt)) (λ e. cc) tt

-- The label is the one of the command line, for both exporters.
abbrev installed : Handle ℕ ℕ
installed = new_relic (record {
  counters = [];
  gauges = [];
  histograms = [];
  api_key = codes "key";
  global_labels = (codes "env", codes "a=b") ∷ [];
  metadata = record { previous_timestamp = 0; previously_reported_counts = [] };
})

installs :
    install recorders 0 (some (codes "key")) (add_metrics_labels (label ∷ []) new_builder)
    ≡ ok installed
unfolding install add_global_labels add_metrics_labels new_relic_install
installs = refl

install-labels_example :
    lookup (codes "env") (handle_labels installed) ≡ last_label (codes "env") (label ∷ []) none
install-labels_example =
    install-labels recorders (label ∷ []) 0 (some (codes "key")) installs (codes "env")

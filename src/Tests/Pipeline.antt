-- ===== src/Tests/Pipeline.antt =====
-- Witnesses and runs for src/pipeline.rs.
use geocode_csv.Base.{ℕ, ◌+◌, ◌*◌, ◌^◌, ◌≡◌, refl, List, [], ◌∷◌, arith}
use geocode_csv.Base.Text.{codes}
use geocode_csv.Base.Outcome.{ok, err, panicked, external}
use geocode_csv.Base.Effect.Safe.{Safe}
use geocode_csv.Addresses.Address.{Address}
use geocode_csv.Addresses.Columns.{append_column, extract_address_from_record}
use geocode_csv.Addresses.Spec.{prefixes, prefix_count, get}
use geocode_csv.Pipeline.Retry.{Timed, geocode_with_retries}
use geocode_csv.Pipeline.Retry.Calls.{CallsUpTo, geocode_with_retries-calls}
use geocode_csv.Pipeline.Retry.Laws.{geocode_with_retries-runs, waits, total}
use geocode_csv.Pipeline.Geocode.{Shared, Chunk, geocode_chunk}
use geocode_csv.Pipeline.Geocode.Rows.{HaveWidth, AddressesFor}
use geocode_csv.Pipeline.Geocode.Laws.{AddsOutcome, geocode_chunk-adds, geocode_chunk-empty}
use geocode_csv.Pipeline.Geocode.Width.{geocode_chunk-HaveWidth}
use geocode_csv.Tests.Data.{address, flaky, flaky-Implements, answer, Any, spec}

abbrev start : Timed ℕ
start = record { world = 0; sleeps = [] }

abbrev home : List Address
home = address (codes "home") ∷ []

geocode_with_retries-runs_example :
    (geocode_with_retries (flaky 2) home 4 start
      ≡ (ok (answer home), record { world = 3; sleeps = 2 ∷ 4 ∷ [] }))
    × (total (waits 2 2) + 2 ≡ 2 ^ 3)
geocode_with_retries-runs_example =
    geocode_with_retries-runs (flaky 2) home 2 4 start (ok (answer home)) (omega arith)
      ((external 0, refl), ((external 1, refl), tt)) refl (omega arith)

-- The default of four retries gives up after thirty seconds.
gives_up :
    geocode_with_retries (flaky 9) home 4 start
    ≡ (err (external 4), record { world = 5; sleeps = 2 ∷ 4 ∷ 8 ∷ 16 ∷ [] })
unfolding geocode_with_retries
gives_up = refl

abbrev shared : Shared
shared = record { spec = spec; out_headers = [] }

abbrev chunk : Chunk
chunk = record {
  shared = shared;
  rows = (codes "1" ∷ codes "Elm" ∷ []) ∷ (codes "2" ∷ codes "Oak" ∷ []) ∷ [];
}

geocode_chunk-adds_example :
    let run = geocode_chunk (flaky 1) 4 chunk start in
    (xs : List Address) × AddressesFor spec chunk.rows (prefixes spec) xs
    × AddsOutcome 2 (prefix_count spec) chunk (geocode_with_retries (flaky 1) xs 4 start).0 run.0
    × (run.1 ≡ (geocode_with_retries (flaky 1) xs 4 start).1)
    × Any run.1.world
geocode_chunk-adds_example =
    geocode_chunk-adds (flaky 1) 4 2 chunk start (flaky-Implements 1) (omega arith) (cc)
      (omega arith) (omega arith) tt

stays_rectangular :
    Safe
      (λ (t : Timed ℕ). Any t.world)
      (λ chunk'. HaveWidth (2 + prefix_count spec * 2) chunk'.rows)
      (geocode_chunk (flaky 1) 4 chunk)
stays_rectangular =
    geocode_chunk-HaveWidth (flaky 1) 4 2 chunk (flaky-Implements 1) (omega arith) (cc)
      (omega arith) (omega arith)

-- One failure, one retry, and the columns for "home" before those for "work".
geocoded : geocode_chunk (flaky 1) 4 chunk start ≡ (
  ok (record {
    shared = shared;
    rows =
        (codes "1" ∷ codes "Elm" ∷ codes "1 Elm" ∷ codes "US" ∷ codes "Elm" ∷ codes "US" ∷ [])
        ∷ (codes "2" ∷ codes "Oak" ∷ codes "2 Oak" ∷ codes "US" ∷ codes "Oak" ∷ codes "US" ∷ [])
        ∷ [];
  }),
  record { world = 2; sleeps = 2 ∷ [] },
)
unfolding geocode_chunk prefixes get extract_address_from_record append_column
geocoded = refl

geocode_chunk-empty_example :
    (geocode_chunk (flaky 0) 4 (record { shared = shared; rows = [] }) start).0 ≡ panicked
geocode_chunk-empty_example = geocode_chunk-empty (flaky 0) 4 2 shared start (omega arith) refl

geocode_with_retries-calls_example :
    CallsUpTo
      ((flaky 9).geocode_addresses home)
      4
      start
      (geocode_with_retries (flaky 9) home 4 start).1
geocode_with_retries-calls_example = geocode_with_retries-calls (flaky 9) home 4 start

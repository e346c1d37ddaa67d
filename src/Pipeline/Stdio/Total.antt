-- ===== src/Pipeline/Stdio/Total.antt =====
-- src/pipeline.rs: how a run of `geocode_stdio` ends, also where the header gives no plan.
use geocode_csv.Base.{ℕ, ◌≤◌, ◌≡◌, ◌≢◌, refl, List, [], map, length}
use geocode_csv.Base.Text.{Text}
use geocode_csv.Base.Outcome.{Outcome, ok, err, panicked, Ensures, Error, stdio_failed}
use geocode_csv.Addresses.Columns.{StringRecord}
use geocode_csv.Addresses.Spec.{AddressColumnSpec}
use geocode_csv.Geocoders.{Geocoder, Implements}
use geocode_csv.Pipeline.Retry.{Timed}
use geocode_csv.Pipeline.Geocode.{Shared}
use geocode_csv.Pipeline.Geocode.Rows.{HaveWidth}
use geocode_csv.Pipeline.Read.{OnDuplicateColumns, Plan, make_plan, read_csv_from_stdin}
use geocode_csv.Pipeline.Read.Laws.{take_message}
use geocode_csv.Pipeline.Read.Total.{make_plan-total}
use geocode_csv.Pipeline.Write.{forward_messages, write_csv_to_stdout, write_loop}
use geocode_csv.Pipeline.Stdio.{join_results, geocode_fut, geocode_stdio}
use geocode_csv.Pipeline.Stdio.Laws.{
  WritesAll, Finishes, geocode_stdio-after_read, geocode_stdio-Finishes,
}

-- How a run ends: with every row written under some headers, or with an error.
abbrev pub Ends : ℕ → Outcome (Unit {0}) → List StringRecord → Type 0
Ends n (ok u) written = (shared : Shared) × WritesAll shared n written
Ends n (err e) written = Unit
Ends n panicked written = ⊥

Finishes-Ends :
    (shared : Shared) (n : ℕ) (r : Outcome (Unit {0})) (written : List StringRecord)
    → Finishes shared n r written
    → Ends n r written
Finishes-Ends shared n (ok u) written f = (shared, f)
Finishes-Ends shared n (err e) written f = tt
Finishes-Ends shared n panicked written f = f

module _ {W : Type 0} (geocoder : Geocoder W) (Inv : W → Type 0) (max_retries : ℕ) where
  read_csv_from_stdin-no_plan :
      (spec : AddressColumnSpec Text) (on_duplicate : OnDuplicateColumns) (headers : StringRecord)
      (records : List (Outcome StringRecord)) (e : Error)
      → make_plan spec geocoder.column_names on_duplicate headers ≡ err e
      → read_csv_from_stdin take_message spec geocoder.column_names on_duplicate
          (record { headers = ok headers; records = records })
          []
        ≡ (err e, [])
  unfolding read_csv_from_stdin
  read_csv_from_stdin-no_plan spec on_duplicate headers records e h = rw h refl

  geocode_stdio-no_plan :
      (spec : AddressColumnSpec Text) (on_duplicate : OnDuplicateColumns) (headers : StringRecord)
      (records : List (Outcome StringRecord)) (t : Timed W) (e : Error)
      → make_plan spec geocoder.column_names on_duplicate headers ≡ err e
      → geocode_stdio geocoder max_retries spec on_duplicate
          (record { headers = ok headers; records = records })
          t
        ≡ record { result = err stdio_failed; written = []; after = t }
  unfolding geocode_fut forward_messages write_csv_to_stdout write_loop join_results
  geocode_stdio-no_plan spec on_duplicate headers records t e h =
      geocode_stdio-after_read geocoder Inv max_retries spec on_duplicate _ t (err e, [])
        (read_csv_from_stdin-no_plan spec on_duplicate headers records e h)

  -- As `geocode_stdio-Finishes`, for any spec and option for duplicate columns.
  pub geocode_stdio-Ends :
      (spec : AddressColumnSpec Text) (on_duplicate : OnDuplicateColumns) (headers : StringRecord)
      (rows : List StringRecord) (t : Timed W)
      → Implements Inv geocoder
      → max_retries ≤ 62
      → HaveWidth (length headers) rows
      → rows ≢ []
      → Inv t.world
      → let run =
          geocode_stdio geocoder max_retries spec on_duplicate
            (record { headers = ok headers; records = map ok rows })
            t in
        Ends (length rows) run.result run.written × Inv run.after.world
  geocode_stdio-Ends spec on_duplicate headers rows t imp small width ne i =
      planned (make_plan spec geocoder.column_names on_duplicate headers) refl
        (make_plan-total spec geocoder.column_names on_duplicate headers)
    where
      planned :
          (r : Outcome Plan)
          → make_plan spec geocoder.column_names on_duplicate headers ≡ r
          → Ensures (λ plan. Unit) r
          → let run =
              geocode_stdio geocoder max_retries spec on_duplicate
                (record { headers = ok headers; records = map ok rows })
                t in
            Ends (length rows) run.result run.written × Inv run.after.world
      planned (ok plan) h u =
          let (f, j) =
            geocode_stdio-Finishes geocoder Inv max_retries spec on_duplicate headers rows t imp
              small h width ne i in
          (Finishes-Ends plan.shared (length rows) _ _ f, j)
      planned (err e) h u =
          rw (geocode_stdio-no_plan spec on_duplicate headers (map ok rows) t e h) (tt, i)
      planned panicked h u = absurd u

-- ===== src/Pipeline/Threads/Finishes.antt =====
-- src/pipeline.rs: what a concurrent run of `geocode_stdio` on a CSV file comes to, whatever the order
-- of the steps of its parts.
use geocode_csv.Base.{
  ℕ, ◌≤◌, ◌≡◌, ◌≢◌, sym, ap, ◌∙◌, List, [], ◌∷◌, ◌++◌, append-nil, map, length, length-eq_nil,
  length-map, All,
}
use geocode_csv.Base.Text.{Text}
use geocode_csv.Base.Outcome.{Outcome, ok, err, panicked}
use geocode_csv.Addresses.Columns.{StringRecord}
use geocode_csv.Addresses.Spec.{AddressColumnSpec}
use geocode_csv.Geocoders.{Geocoder, Implements}
use geocode_csv.Pipeline.Geocode.{Shared, Chunk}
use geocode_csv.Pipeline.Geocode.Rows.{HaveWidth}
use geocode_csv.Pipeline.Read.{
  Message, chunk, end_of_stream, OnDuplicateColumns, Plan, make_plan, read_csv_from_stdin,
}
use geocode_csv.Pipeline.Read.Laws.{all_rows, take_message}
use geocode_csv.Pipeline.Rectangular.{GeocodesTo, read_csv_from_stdin-GeocodesTo}
use geocode_csv.Pipeline.Stdio.{join_results}
use geocode_csv.Pipeline.Stdio.Laws.{all_rows-AreGeocoded, WritesAll, Finishes}
use geocode_csv.Pipeline.Threads.{read_result, geocode_result, write_result, Threads, Run, start}
use geocode_csv.Pipeline.Threads.Order.{Results, Flows, Remaining}
use geocode_csv.Pipeline.Threads.Order.Steps.{Run-Flows}
use geocode_csv.Pipeline.Threads.Written.{WroteChunks, Wrote, Run-Wrote}
use geocode_csv.Pipeline.Threads.Panics.{Returns, Run-Returns}
use geocode_csv.Pipeline.Threads.Geocoded.{
  MayGive, MayGive-chunk, messages-IsQuiet, Results-AreGeocoded,
}

module _ {W : Type 0} (geocoder : Geocoder W) (Inv : W → Type 0) (max_retries : ℕ) where
  module _ (shared : Shared) (c : Chunk) (cs : List Chunk) where
    abbrev messages : List Message
    messages = map chunk (c ∷ cs) ++ (end_of_stream ∷ [])

    -- The end of the stream never comes first.
    end-first :
        (width : ℕ) (done rest out : List Message)
        → messages ≡ done ++ rest
        → Results (MayGive geocoder Inv max_retries) (ok tt) done ((end_of_stream ∷ []) ++ out)
        → GeocodesTo geocoder Inv max_retries width c
        → ⊥
    end-first width [] rest out e r g = absurd r
    end-first width (m ∷ done) rest out e (given, r) g =
        let same : m ≡ chunk c = cc in
        let (d, k, i) =
          MayGive-chunk geocoder Inv max_retries width c (ok end_of_stream) g (rw same at given) in
        absurd cc

    messages_written :
        (s : Threads) (n : ℕ)
        → All (GeocodesTo geocoder Inv max_retries (length shared.out_headers)) (c ∷ cs)
        → c.shared ≡ shared
        → length (all_rows (c ∷ cs)) ≡ n
        → Flows (MayGive geocoder Inv max_retries) (ok tt) messages s
        → WroteChunks (end_of_stream ∷ []) s.received s.written
        → s.forwarder ≡ geocode_result (ok tt)
        → WritesAll shared n s.written
    messages_written s n g same l (done, rest, e, res, rem) (d, ds, took, wrote) f =
        let (none, r) : Remaining (MayGive geocoder Inv max_retries) (ok tt)
            (geocode_result (ok tt)) s.reader s.in_channel rest =
          rw f at rem in
        let whole : messages ≡ done = e ∙ ap (λ l. done ++ l) none ∙ append-nil done in
        let geocoded =
          Results-AreGeocoded geocoder Inv max_retries (length shared.out_headers) (c ∷ cs) (d ∷ ds)
            s.out_channel g (rw (took, ← whole) at res) in
        let (m, ws) = all_rows-AreGeocoded (length shared.out_headers) (c ∷ cs) (d ∷ ds) geocoded in
        let header : d.shared ≡ shared = geocoded.0.0 ∙ same in
        (
          all_rows (d ∷ ds),
          wrote ∙ ap (λ (t : Shared). t.out_headers ∷ all_rows (d ∷ ds)) header,
          m ∙ l,
          ws,
        )

    join-Finishes :
        (s : Threads) (n : ℕ) (read geocoded written : Outcome (Unit {0}))
        → All (GeocodesTo geocoder Inv max_retries (length shared.out_headers)) (c ∷ cs)
        → c.shared ≡ shared
        → length (all_rows (c ∷ cs)) ≡ n
        → Flows (MayGive geocoder Inv max_retries) (ok tt) messages s
        → Wrote (write_result written) s.received s.written
        → s.forwarder ≡ geocode_result geocoded
        → Returns read
        → Returns geocoded
        → Finishes shared n (join_results read geocoded written) s.written
    unfolding join_results
    join-Finishes s n (ok r) (ok q) (ok w) g same l flows wrote f hr hq =
        messages_written s n g same l flows wrote f
    join-Finishes s n panicked q w g same l flows wrote f hr hq = absurd hr
    join-Finishes s n (ok r) panicked w g same l flows wrote f hr hq = absurd hq
    join-Finishes s n (err r) panicked w g same l flows wrote f hr hq = absurd hq
    join-Finishes s n (ok r) (ok q) panicked g same l (done, rest, e, res, rem) wrote f hr hq =
        absurd (end-first _ done rest s.out_channel e (rw wrote at res) g.0)
    join-Finishes s n (ok r) (err q) panicked g same l (done, rest, e, res, rem) wrote f hr hq =
        absurd (end-first _ done rest s.out_channel e (rw wrote at res) g.0)
    join-Finishes s n (err r) (ok q) panicked g same l (done, rest, e, res, rem) wrote f hr hq =
        absurd (end-first _ done rest s.out_channel e (rw wrote at res) g.0)
    join-Finishes s n (err r) (err q) panicked g same l (done, rest, e, res, rem) wrote f hr hq =
        absurd (end-first _ done rest s.out_channel e (rw wrote at res) g.0)
    join-Finishes s n (ok r) (ok q) (err w) g same l flows wrote f hr hq = tt
    join-Finishes s n (ok r) (err q) (ok w) g same l flows wrote f hr hq = tt
    join-Finishes s n (ok r) (err q) (err w) g same l flows wrote f hr hq = tt
    join-Finishes s n (err r) (ok q) (ok w) g same l flows wrote f hr hq = tt
    join-Finishes s n (err r) (ok q) (err w) g same l flows wrote f hr hq = tt
    join-Finishes s n (err r) (err q) (ok w) g same l flows wrote f hr hq = tt
    join-Finishes s n (err r) (err q) (err w) g same l flows wrote f hr hq = tt

  -- The parts run concurrently on a CSV file with rows, each as wide as the header, with a plan for
  -- the header, by a geocoder that implements the trait, with at most 62 retries; every geocoding is
  -- from some world that keeps the geocoder's invariant. In any state that the steps reach with all
  -- three parts returned: the run does not panic. If it succeeds, it has written the output headers
  -- once and then one row for each row of the file, each with a column for each output header.
  pub Run-Finishes :
      (spec : AddressColumnSpec Text) (on_duplicate : OnDuplicateColumns) (headers : StringRecord)
      (rows : List StringRecord) {plan : Plan} {n : ℕ} {s : Threads}
      {read geocoded written : Outcome (Unit {0})}
      → Implements Inv geocoder
      → max_retries ≤ 62
      → make_plan spec geocoder.column_names on_duplicate headers ≡ ok plan
      → HaveWidth (length headers) rows
      → rows ≢ []
      → let sent =
          read_csv_from_stdin take_message spec geocoder.column_names on_duplicate
            (record { headers = ok headers; records = map ok rows })
            [] in
        Run (MayGive geocoder Inv max_retries) sent.0 (start sent.1) n s
        → s.reader ≡ read_result read
        → s.forwarder ≡ geocode_result geocoded
        → s.writer ≡ write_result written
        → Finishes plan.shared (length rows) (join_results read geocoded written) s.written
  Run-Finishes spec on_duplicate headers rows {plan} {n} {s} {read} {geocoded} {written} imp small h
        width ne run r f w =
      let (cs, sent, g, shared, same) =
        read_csv_from_stdin-GeocodesTo geocoder Inv max_retries spec on_duplicate headers rows imp
          small h width ne in
      finish cs g shared (ap length same ∙ length-map _ rows) (rw sent at run)
    where
      finish :
          (cs : List Chunk)
          → All (GeocodesTo geocoder Inv max_retries (length plan.shared.out_headers)) cs
          → All (λ c. c.shared ≡ plan.shared) cs
          → length (all_rows cs) ≡ length rows
          → Run
              (MayGive geocoder Inv max_retries)
              (ok tt)
              (start (map chunk cs ++ (end_of_stream ∷ [])))
              n
              s
          → Finishes plan.shared (length rows) (join_results read geocoded written) s.written
      finish [] g shared l go = absurd (ne (length-eq_nil rows (sym l)))
      finish (c ∷ cs) g shared l go =
          let (hr, hq) =
            Run-Returns (MayGive geocoder Inv max_retries) (ok tt) _
              (messages-IsQuiet geocoder Inv max_retries (length plan.shared.out_headers) (c ∷ cs)
                g)
              tt go in
          join-Finishes plan.shared c cs s (length rows) read geocoded written g shared.0 l
            (Run-Flows (MayGive geocoder Inv max_retries) (ok tt) _ go)
            (rw w at (Run-Wrote (MayGive geocoder Inv max_retries) (ok tt) _ go)) f (rw r at hr)
            (rw f at hq)

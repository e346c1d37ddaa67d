-- ===== src/Pipeline/Stdio/Laws.antt =====
-- src/pipeline.rs: a run of `geocode_stdio` that succeeds has written every row.
use geocode_csv.Base.{
  ℕ, ◌≤◌, ◌≡◌, ◌≢◌, refl, sym, ap, ◌∙◌, List, [], ◌∷◌, ◌++◌, append_assoc, append-nil, map, length,
  length-append, length-eq_nil, length-map, All, All-append, arith,
}
use geocode_csv.Base.Text.{Text}
use geocode_csv.Base.Outcome.{Outcome, ok, err, panicked, Ensures}
use geocode_csv.Addresses.Columns.{StringRecord}
use geocode_csv.Addresses.Spec.{AddressColumnSpec}
use geocode_csv.Geocoders.{Geocoder, Implements}
use geocode_csv.Pipeline.Background.{run_sync_fn_in_background, run_sync_fn_in_background-same}
use geocode_csv.Pipeline.Retry.{Timed}
use geocode_csv.Pipeline.Geocode.{Shared, Chunk, geocode_chunk}
use geocode_csv.Pipeline.Geocode.Rows.{HaveWidth}
use geocode_csv.Pipeline.Read.{
  Message, chunk, end_of_stream, OnDuplicateColumns, CsvInput, Plan, make_plan, read_csv_from_stdin,
}
use geocode_csv.Pipeline.Read.Laws.{all_rows, take_message}
use geocode_csv.Pipeline.Rectangular.{IsGeocoded, GeocodesTo, read_csv_from_stdin-GeocodesTo}
use geocode_csv.Pipeline.Write.{write_csv_to_stdout, geocode_message, forward_messages}
use geocode_csv.Pipeline.Write.Laws.{
  take_record, write_csv_to_stdout-writes, write_csv_to_stdout-closed,
}
use geocode_csv.Pipeline.Stdio.{StdioRun, join_results, geocode_fut, geocode_stdio}

-- Chunk by chunk.
abbrev pub AreGeocoded : ℕ → List Chunk → List Chunk → Type 0
AreGeocoded width [] [] = Unit
AreGeocoded width [] (d ∷ ds) = ⊥
AreGeocoded width (c ∷ cs) [] = ⊥
AreGeocoded width (c ∷ cs) (d ∷ ds) = IsGeocoded width c d × AreGeocoded width cs ds

-- What was sent to the writer: every chunk, geocoded, and the end of the stream; or, after an error,
-- chunks only.
abbrev Forwarded : ℕ → List Chunk → Outcome (Unit {0}) → List Message → Type 0
Forwarded width cs (ok u) out =
    (ds : List Chunk) × (out ≡ map chunk ds ++ (end_of_stream ∷ [])) × AreGeocoded width cs ds
Forwarded width cs (err e) out = (ds : List Chunk) × (out ≡ map chunk ds)
Forwarded width cs panicked out = ⊥

module _ {W : Type 0} (geocoder : Geocoder W) (Inv : W → Type 0) (max_retries width : ℕ) where
  -- What the loop sends, after what was sent before.
  abbrev Sends : List Chunk → Timed W → List Message → Type 0
  Sends cs t before =
      let run =
        geocode_fut geocoder max_retries (map chunk cs ++ (end_of_stream ∷ [])) (t, before) in
      (out : List Message) × (run.1.1 ≡ before ++ out)
      × Forwarded width cs run.0 out
      × Inv run.1.0.world

  -- The first chunk, from how its geocoding ends and what holds of the chunks after it.
  forward-step :
      (c : Chunk) (cs : List Chunk) (t : Timed W) (before : List Message)
      (r : Outcome Chunk × Timed W)
      → geocode_chunk geocoder max_retries c t ≡ r
      → Inv r.1.world
      → Ensures (IsGeocoded width c) r.0
      → ((t' : Timed W) (before' : List Message) → Inv t'.world → Sends cs t' before')
      → Sends (c ∷ cs) t before
  unfolding geocode_fut forward_messages geocode_message
  forward-step c cs t before (ok d, t') e i g later =
      let (out, same, f, i') = later t' (before ++ (chunk d ∷ [])) i in
      rw e (
        chunk d ∷ out,
        same ∙ append_assoc before (chunk d ∷ []) out,
        Forwarded-cons c d cs g _ out f,
        i',
      )
    where
      Forwarded-cons :
          (c d : Chunk) (cs : List Chunk)
          → IsGeocoded width c d
          → (r : Outcome (Unit {0})) (out : List Message) → Forwarded width cs r out
          → Forwarded width (c ∷ cs) r (chunk d ∷ out)
      Forwarded-cons c d cs g (ok u) out (ds, same, h) =
          (d ∷ ds, ap (λ l. chunk d ∷ l) same, (g, h))
      Forwarded-cons c d cs g (err e) out (ds, same) = (d ∷ ds, ap (λ l. chunk d ∷ l) same)
      Forwarded-cons c d cs g panicked out h = h
  forward-step c cs t before (err x, t') e i g later =
      rw e ([], sym (append-nil before), ([], refl), i)
  forward-step c cs t before (panicked, t') e i g later = absurd g

  geocode_fut-Sends :
      (cs : List Chunk) (t : Timed W) (before : List Message)
      → Inv t.world
      → All (GeocodesTo geocoder Inv max_retries width) cs
      → Sends cs t before
  unfolding geocode_fut forward_messages geocode_message
  geocode_fut-Sends [] t before i h = (end_of_stream ∷ [], refl, ([], refl, tt), i)
  geocode_fut-Sends (c ∷ cs) t before i (h, hs) =
      forward-step c cs t before (geocode_chunk geocoder max_retries c t) refl (h.at t i).0
        (h.at t i).1 (λ t' before' i'. geocode_fut-Sends cs t' before' i' hs)

-- The rows of geocoded chunks.
pub all_rows-AreGeocoded :
    (width : ℕ) (cs ds : List Chunk)
    → AreGeocoded width cs ds
    → (length (all_rows ds) ≡ length (all_rows cs)) × HaveWidth width (all_rows ds)
all_rows-AreGeocoded width [] [] h = (refl, tt)
all_rows-AreGeocoded width [] (d ∷ ds) h = absurd h
all_rows-AreGeocoded width (c ∷ cs) [] h = absurd h
all_rows-AreGeocoded width (c ∷ cs) (d ∷ ds) ((s, l, w), h) =
    let (m, ws) = all_rows-AreGeocoded width cs ds h in
    (
      omega (arith, length-append d.rows (all_rows ds), length-append c.rows (all_rows cs), l, m),
      All-append (λ row. length row ≡ width) d.rows (all_rows ds) w ws,
    )

-- What a successful run has written.
abbrev pub WritesAll : Shared → ℕ → List StringRecord → Type 0
WritesAll shared n written =
    (rows : List StringRecord) × (written ≡ shared.out_headers ∷ rows)
    × (length rows ≡ n)
    × HaveWidth (length shared.out_headers) rows

-- What `geocode_stdio` comes to, from what its loop has sent.
abbrev pub Finishes : Shared → ℕ → Outcome (Unit {0}) → List StringRecord → Type 0
Finishes shared n (ok u) written = WritesAll shared n written
Finishes shared n (err e) written = Unit
Finishes shared n panicked written = ⊥

write-Finishes :
    (shared : Shared) (width n : ℕ) (c : Chunk) (cs : List Chunk) (r : Outcome (Unit {0}))
    (out : List Message)
    → c.shared ≡ shared
    → width ≡ length shared.out_headers
    → length (all_rows (c ∷ cs)) ≡ n
    → Forwarded width (c ∷ cs) r out
    → let written = write_csv_to_stdout take_record out [] in
      Finishes shared n (join_results (ok tt) r written.0) written.1
unfolding join_results
write-Finishes shared width n c cs (ok u) out e w l ([], same, h) = absurd h
write-Finishes shared width n c cs (ok u) out e w l (d ∷ ds, same, h) =
    let (m, ws) = all_rows-AreGeocoded width (c ∷ cs) (d ∷ ds) h in
    let header : d.shared ≡ shared = h.0.0 ∙ e in
    rw (same, write_csv_to_stdout-writes d ds [])
      (
        all_rows (d ∷ ds),
        ap (λ (s : Shared). s.out_headers ∷ all_rows (d ∷ ds)) header,
        m ∙ l,
        rw (← w) ws,
      )
write-Finishes shared width n c cs (err x) out e w l ([], same) =
    rw same (unfold write_csv_to_stdout in tt)
write-Finishes shared width n c cs (err x) out e w l (d ∷ ds, same) =
    rw (same, write_csv_to_stdout-closed d ds) tt
write-Finishes shared width n c cs panicked out e w l h = absurd h

module _ {W : Type 0} (geocoder : Geocoder W) (Inv : W → Type 0) (max_retries : ℕ) where
  -- The run after reading, and what it is for a reader that succeeds.
  abbrev pub after_read : Outcome (Unit {0}) × List Message → Timed W → StdioRun W
  after_read read t =
      let geocoded = geocode_fut geocoder max_retries read.1 (t, []) in
      let written = write_csv_to_stdout take_record geocoded.1.1 [] in
      record {
        result = join_results read.0 geocoded.0 written.0;
        written = written.1;
        after = geocoded.1.0;
      }

  pub geocode_stdio-after_read :
      (spec : AddressColumnSpec Text) (on_duplicate : OnDuplicateColumns) (input : CsvInput)
      (t : Timed W) (read : Outcome (Unit {0}) × List Message)
      → read_csv_from_stdin take_message spec geocoder.column_names on_duplicate input [] ≡ read
      → geocode_stdio geocoder max_retries spec on_duplicate input t ≡ after_read read t
  unfolding geocode_stdio
  geocode_stdio-after_read spec on_duplicate input t read run =
      ap (λ r. in_background r) run
      ∙ cc (
        run_sync_fn_in_background-same read.0,
        run_sync_fn_in_background-same
            (write_csv_to_stdout take_record (geocode_fut geocoder max_retries read.1 (t, [])).1.1
              []).0,
      )
    where
      in_background : Outcome (Unit {0}) × List Message → StdioRun W
      in_background r =
          let geocoded = geocode_fut geocoder max_retries r.1 (t, []) in
          let written = write_csv_to_stdout take_record geocoded.1.1 [] in
          record {
            result =
                join_results (run_sync_fn_in_background r.0) geocoded.0
                  (run_sync_fn_in_background written.0);
            written = written.1;
            after = geocoded.1.0;
          }

  -- A run on a CSV file with rows, each as wide as the header, with a plan for the header, by a
  -- geocoder that implements the trait, with at most 62 retries: it does not panic and keeps the
  -- geocoder's invariant. If it succeeds, it has written the output headers once and then one row for
  -- each row of the file, each with a column for each output header.
  pub geocode_stdio-Finishes :
      (spec : AddressColumnSpec Text) (on_duplicate : OnDuplicateColumns) (headers : StringRecord)
      (rows : List StringRecord) (t : Timed W) {plan : Plan}
      → Implements Inv geocoder
      → max_retries ≤ 62
      → make_plan spec geocoder.column_names on_duplicate headers ≡ ok plan
      → HaveWidth (length headers) rows
      → rows ≢ []
      → Inv t.world
      → let run =
          geocode_stdio geocoder max_retries spec on_duplicate
            (record { headers = ok headers; records = map ok rows })
            t in
        Finishes plan.shared (length rows) run.result run.written × Inv run.after.world
  geocode_stdio-Finishes spec on_duplicate headers rows t {plan} imp small h width ne i =
      let (cs, run, g, shared, same) =
        read_csv_from_stdin-GeocodesTo geocoder Inv max_retries spec on_duplicate headers rows imp
          small h width ne in
      rw (geocode_stdio-after_read spec on_duplicate _ t _ run)
        (finish cs g shared (ap length same ∙ length-map _ rows))
    where
      finish :
          (cs : List Chunk)
          → All (GeocodesTo geocoder Inv max_retries (length plan.shared.out_headers)) cs
          → All (λ c. c.shared ≡ plan.shared) cs
          → length (all_rows cs) ≡ length rows
          → let sent =
              geocode_fut geocoder max_retries (map chunk cs ++ (end_of_stream ∷ [])) (t, []) in
            let written = write_csv_to_stdout take_record sent.1.1 [] in
            Finishes plan.shared (length rows) (join_results (ok tt) sent.0 written.0) written.1
            × Inv sent.1.0.world
      finish [] g shared l = absurd (ne (length-eq_nil rows (sym l)))
      finish (c ∷ cs) g shared l =
          let (out, same, f, i') =
            geocode_fut-Sends geocoder Inv max_retries (length plan.shared.out_headers) (c ∷ cs) t
              [] i g in
          rw same (write-Finishes plan.shared _ (length rows) c cs _ out shared.0 refl l f, i')

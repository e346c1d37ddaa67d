-- ===== src/Pipeline/Rectangular.antt =====
-- src/pipeline.rs: from a CSV file to chunks whose geocoded rows have a value for each output header.
use geocode_csv.Base.{
  ℕ, suc, ◌+◌, ◌*◌, ◌<◌, ◌≤◌, ◌≡◌, ◌≢◌, refl, sym, ap, ◌∙◌, Bool, true, false, List, [], ◌∷◌, ◌++◌,
  map, length, arith, All, All-append, All-of-append, length-append, length-map,
}
use geocode_csv.Base.Text.{Text}
use geocode_csv.Base.Outcome.{ok}
use geocode_csv.Base.Effect.Safe.{Safe, Safe-weaken}
use geocode_csv.Addresses.Columns.{StringRecord}
use geocode_csv.Addresses.Spec.{AddressColumnSpec, prefixes, prefix_count}
use geocode_csv.Addresses.Spec.Prefixes.{length-prefixes}
use geocode_csv.Addresses.Indices.Laws.{convert_to_indices_using_headers-below}
use geocode_csv.Geocoders.{Geocoder, Implements, add_header_columns, prefix_column_name}
use geocode_csv.Pipeline.Retry.{Timed}
use geocode_csv.Pipeline.Geocode.{Chunk, geocode_chunk}
use geocode_csv.Pipeline.Geocode.Rows.{HaveWidth, SpecBelow}
use geocode_csv.Pipeline.Geocode.Laws.{geocode_chunk-Geocodes}
use geocode_csv.Pipeline.Geocode.Width.{Geocodes-HaveWidth}
use geocode_csv.Pipeline.Read.{
  chunk, end_of_stream, OnDuplicateColumns, Plan, remove_columns, clean, build_out_headers,
  make_plan, read_csv_from_stdin,
}
use geocode_csv.Pipeline.Read.Laws.{
  all_rows, clean_rows, IsFull, last_chunk, take_message, make_plan-parts, make_plan-size,
  all_rows-last, read_csv_from_stdin-Sends,
}

length-remove_columns :
    (row headers : StringRecord) (flags : List Bool)
    → length row ≡ length headers
    → length (remove_columns row flags) ≡ length (remove_columns headers flags)
unfolding remove_columns
length-remove_columns [] [] flags h = refl
length-remove_columns [] (c ∷ headers) flags h = absurd (omega arith)
length-remove_columns (v ∷ row) [] flags h = absurd (omega arith)
length-remove_columns (v ∷ row) (c ∷ headers) [] h = refl
length-remove_columns (v ∷ row) (c ∷ headers) (true ∷ flags) h =
    length-remove_columns row headers flags (omega arith)
length-remove_columns (v ∷ row) (c ∷ headers) (false ∷ flags) h =
    ap suc (length-remove_columns row headers flags (omega arith))

length-clean :
    (remove : Bool) (flags : List Bool) (row headers : StringRecord)
    → length row ≡ length headers
    → length (clean remove flags row) ≡ length (clean remove flags headers)
length-clean true flags row headers h = length-remove_columns row headers flags h
length-clean false flags row headers h = h

clean_rows-HaveWidth :
    (plan : Plan) (headers : StringRecord) (rows : List StringRecord)
    → HaveWidth (length headers) rows
    → HaveWidth
        (length (clean plan.should_remove_columns plan.remove_column_flags headers))
        (clean_rows plan rows)
clean_rows-HaveWidth plan headers [] h = tt
clean_rows-HaveWidth plan headers (row ∷ rows) (h, hs) =
    (length-clean _ _ row headers h, clean_rows-HaveWidth plan headers rows hs)

length-build_out_headers :
    (column_names ps : List Text) (headers : StringRecord)
    → length (build_out_headers column_names ps headers)
      ≡ length headers + length ps * length column_names
unfolding build_out_headers add_header_columns
length-build_out_headers column_names [] headers = omega arith
length-build_out_headers column_names (p ∷ ps) headers = omega (
  arith,
  length-build_out_headers column_names ps (headers ++ map (prefix_column_name p) column_names),
  length-append headers (map (prefix_column_name p) column_names),
  length-map (prefix_column_name p) column_names,
)

-- A chunk that can be geocoded.
module _ (plan : Plan) (n : ℕ) where
  abbrev Ready : Chunk → Type 0
  Ready c = (c.shared ≡ plan.shared) × (c.rows ≢ []) × HaveWidth n c.rows

  full-Ready :
      (full : List Chunk) (rest : List StringRecord)
      → 0 < plan.size
      → All (IsFull plan) full
      → HaveWidth n (all_rows full ++ rest)
      → All Ready full × HaveWidth n rest
  full-Ready [] rest s f w = (tt, w)
  full-Ready (c ∷ full) rest s ((e, l), fs) w =
      let (here, more) = All-of-append (λ row. length row ≡ n) (c.rows ++ all_rows full) rest w in
      let (first, others) = All-of-append (λ row. length row ≡ n) c.rows (all_rows full) here in
      let (ready, last) =
        full-Ready full rest s fs
          (All-append (λ row. length row ≡ n) (all_rows full) rest others more) in
      (((e, λ none'. absurd (omega (arith, ap length none', l, s)), first), ready), last)

  last-Ready :
      (full : List Chunk) (rest : List StringRecord)
      → all_rows full ++ rest ≢ []
      → HaveWidth n rest
      → All Ready (last_chunk plan full rest)
  last-Ready [] rest ne w = ((refl, ne, w), tt)
  last-Ready (c ∷ full) [] ne w = tt
  last-Ready (c ∷ full) (row ∷ rest) ne w = ((refl, λ e. cc, w), tt)

Ready-shared :
    (plan : Plan) (n : ℕ) (cs : List Chunk)
    → All (Ready plan n) cs
    → All (λ c. c.shared ≡ plan.shared) cs
Ready-shared plan n [] h = tt
Ready-shared plan n (c ∷ cs) ((e, ne, w), hs) = (e, Ready-shared plan n cs hs)

clean_rows-ne : (plan : Plan) (rows : List StringRecord) → rows ≢ [] → clean_rows plan rows ≢ []
clean_rows-ne plan [] h = absurd (h refl)
clean_rows-ne plan (row ∷ rows) h = λ e. cc

-- The header of a plan.
make_plan-widths :
    (spec : AddressColumnSpec Text) (column_names : List Text) (on_duplicate : OnDuplicateColumns)
    (headers : StringRecord) {plan : Plan}
    → make_plan spec column_names on_duplicate headers ≡ ok plan
    → let n = length (clean plan.should_remove_columns plan.remove_column_flags headers) in
      SpecBelow n plan.shared.spec
      × (length plan.shared.out_headers ≡ n + prefix_count plan.shared.spec * length column_names)
make_plan-widths spec column_names on_duplicate headers h =
    let (decision, spec', e, parts) = make_plan-parts spec column_names on_duplicate headers h in
    let in_headers = clean decision.0 decision.1 headers in
    rw parts (
      convert_to_indices_using_headers-below spec in_headers e,
      length-build_out_headers column_names (prefixes spec') in_headers
          ∙ ap (λ k. length in_headers + k * length column_names) (length-prefixes spec'),
    )

-- A geocoded chunk, beside the chunk: its shared data, as many rows, each of this width.
abbrev pub IsGeocoded : ℕ → Chunk → Chunk → Type 0
IsGeocoded width c c' =
    (c'.shared ≡ c.shared) × (length c'.rows ≡ length c.rows) × HaveWidth width c'.rows

module _ {W : Type 0} (geocoder : Geocoder W) (Inv : W → Type 0) (max_retries : ℕ) where
  -- What is known of a chunk that is sent: geocoding it is safe, and gives such a chunk.
  abbrev pub GeocodesTo : ℕ → Chunk → Type 0
  GeocodesTo width c =
      Safe (λ (t : Timed W). Inv t.world) (IsGeocoded width c)
        (geocode_chunk geocoder max_retries c)

  Ready-GeocodesTo :
      (plan : Plan) (n width : ℕ) (cs : List Chunk)
      → Implements Inv geocoder
      → max_retries ≤ 62
      → SpecBelow n plan.shared.spec
      → width ≡ n + prefix_count plan.shared.spec * length geocoder.column_names
      → All (Ready plan n) cs
      → All (GeocodesTo width) cs
  Ready-GeocodesTo plan n width [] imp small below e h = tt
  Ready-GeocodesTo plan n width (c ∷ cs) imp small below e ((same, ne, w), hs) = (
    Safe-weaken (geocode_chunk geocoder max_retries c)
        (λ c' g. (
          g.2.0,
          g.2.2.0,
          rw (e, ← same)
              (Geocodes-HaveWidth (length geocoder.column_names) (prefix_count c.shared.spec) n c c'
                g w),
        ))
        (geocode_chunk-Geocodes geocoder max_retries n c imp small ne (rw same below) w),
    Ready-GeocodesTo plan n width cs imp small below e hs,
  )

  -- A CSV file with rows, each as wide as the header, a plan for that header, a geocoder that
  -- implements the trait and at most 62 retries: the file is sent as chunks and the end of the
  -- stream. The chunks hold the rows in order, without the columns that are replaced. Geocoding any
  -- of them does not panic, keeps the geocoder's invariant, and gives, if it succeeds, as many rows,
  -- with a column for each output header.
  pub read_csv_from_stdin-GeocodesTo :
      (spec : AddressColumnSpec Text) (on_duplicate : OnDuplicateColumns) (headers : StringRecord)
      (rows : List StringRecord) {plan : Plan}
      → Implements Inv geocoder
      → max_retries ≤ 62
      → make_plan spec geocoder.column_names on_duplicate headers ≡ ok plan
      → HaveWidth (length headers) rows
      → rows ≢ []
      → (chunks : List Chunk) × (read_csv_from_stdin take_message spec geocoder.column_names
            on_duplicate
            (record { headers = ok headers; records = map ok rows })
            []
          ≡ (ok tt, map chunk chunks ++ (end_of_stream ∷ [])))
        × All (GeocodesTo (length plan.shared.out_headers)) chunks
        × All (λ c. c.shared ≡ plan.shared) chunks
        × (all_rows chunks ≡ clean_rows plan rows)
  read_csv_from_stdin-GeocodesTo spec on_duplicate headers rows {plan} imp small h width ne =
      let (full, rest, run, f, s, same) =
        read_csv_from_stdin-Sends spec geocoder.column_names on_duplicate headers rows h in
      let (below, out) = make_plan-widths spec geocoder.column_names on_duplicate headers h in
      let all : all_rows full ++ rest ≡ clean_rows plan rows =
        sym (all_rows-last plan full rest) ∙ same in
      let n = length (clean plan.should_remove_columns plan.remove_column_flags headers) in
      let (ready, w) =
        full-Ready plan n full rest
          (make_plan-size spec geocoder.column_names on_duplicate headers h) f
          (rw all (clean_rows-HaveWidth plan headers rows width)) in
      let every =
        All-append (Ready plan n) full (last_chunk plan full rest) ready
          (last-Ready plan n full rest (rw all (clean_rows-ne plan rows ne)) w) in
      (
        full ++ last_chunk plan full rest,
        run,
        Ready-GeocodesTo plan n (length plan.shared.out_headers) _ imp small below out every,
        Ready-shared plan n _ every,
        same,
      )

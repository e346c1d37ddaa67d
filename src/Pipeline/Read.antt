-- ===== src/Pipeline/Read.antt =====
-- src/pipeline.rs: `read_csv_from_stdin`, from a CSV file to the messages for the geocoding workers.
-- The library csv gives the headers and an iterator of records: a list of outcomes. `send` is
-- the sending half of the channel.
pub mod Laws
pub mod Total
use geocode_csv.Base.{
  ℕ, suc, ◌/◌, Bool, true, false, not, ◌||◌, ◌&&◌, Option, none, some, List, [], ◌∷◌, ◌++◌, map,
  length, replicate, set, ltb, leb, if◌then◌else◌,
}
use geocode_csv.Base.Text.{Text, is_empty}
use geocode_csv.Base.Outcome
use geocode_csv.Base.Outcome.{Outcome, ok, err, panicked, conflicting_columns}
use geocode_csv.Base.Effect.{M, pure, lift, ◌>>=◌}
use geocode_csv.Addresses.Columns.{StringRecord}
use geocode_csv.Addresses.Spec.{AddressColumnSpec, prefix_count, prefixes, duplicate_columns}
use geocode_csv.Addresses.Indices.{convert_to_indices_using_headers}
use geocode_csv.Geocoders.{add_header_columns}
use geocode_csv.Pipeline.Geocode.{Shared, Chunk}

pub data OnDuplicateColumns : Type 0 where
  error : OnDuplicateColumns
  replace : OnDuplicateColumns
  append : OnDuplicateColumns

pub data Message : Type 0 where
  chunk : Chunk → Message
  end_of_stream : Message

pub record CsvInput : Type 0 where
  pub headers : Outcome StringRecord
  pub records : List (Outcome StringRecord)

-- `GEOCODE_SIZE`
abbrev pub geocode_size : ℕ
geocode_size = 72

abbrev pub max : ℕ → ℕ → ℕ
max a b = if ltb a b then b else a

unfoldable pub chunk_size : {K : Type 0} → AddressColumnSpec K → ℕ
chunk_size spec = max 1 (geocode_size / max (prefix_count spec) 1)

-- The loop that sets `remove_column_flags[i]`, which may panic.
unfoldable pub mark_columns : List ℕ → List Bool → Outcome (List Bool)
mark_columns [] remove_column_flags = ok remove_column_flags
mark_columns (i ∷ indices) remove_column_flags =
    let rest = mark_columns indices (set remove_column_flags i true) in
    if ltb i (length remove_column_flags) then rest else panicked

abbrev pub names_of : List (Text × ℕ) → List Text
names_of = map (λ (name_idx : Text × ℕ). name_idx.0)

abbrev pub indices_of : List (Text × ℕ) → List ℕ
indices_of = map (λ (name_idx : Text × ℕ). name_idx.1)

-- What is done about duplicate columns: `should_remove_columns` and `remove_column_flags`.
unfoldable pub handle_duplicates :
    OnDuplicateColumns → List (Text × ℕ) → List Bool → Outcome (Bool × List Bool)
unfolding mark_columns
handle_duplicates on_duplicate_columns [] flags = ok (false, flags)
handle_duplicates error (d ∷ duplicates) flags =
    err (conflicting_columns (names_of (d ∷ duplicates)))
handle_duplicates replace (d ∷ duplicates) flags =
    Outcome.◌>>=◌ (mark_columns (indices_of (d ∷ duplicates)) flags) λ flags'. ok (true, flags')
handle_duplicates append (d ∷ duplicates) flags = ok (false, flags)

-- `row.iter().zip(remove_column_flags).filter_map(…)`
unfoldable pub remove_columns : StringRecord → List Bool → StringRecord
remove_columns [] flags = []
remove_columns (value ∷ row) [] = []
remove_columns (value ∷ row) (remove ∷ flags) =
    let rest = remove_columns row flags in if remove then rest else value ∷ rest

abbrev pub clean : Bool → List Bool → StringRecord → StringRecord
clean should_remove_columns flags row =
    if should_remove_columns then remove_columns row flags else row

-- The loop that builds the output headers.
unfoldable pub build_out_headers : List Text → List Text → StringRecord → StringRecord
unfolding add_header_columns
build_out_headers column_names [] out_headers = out_headers
build_out_headers column_names (prefix ∷ prefixes') out_headers =
    build_out_headers column_names prefixes' (add_header_columns column_names prefix out_headers)

-- What is known once the headers are read.
pub record Plan : Type 0 where
  pub should_remove_columns : Bool
  pub remove_column_flags : List Bool
  pub size : ℕ
  pub shared : Shared

abbrev pub plan_of : List Text → StringRecord → Bool × List Bool → AddressColumnSpec ℕ → Plan
plan_of column_names headers decision spec = record {
  should_remove_columns = decision.0;
  remove_column_flags = decision.1;
  size = chunk_size spec;
  shared = record {
    spec = spec;
    out_headers = build_out_headers column_names (prefixes spec) headers;
  };
}

-- `read_csv_from_stdin` up to its loop, with the assertion on the size of chunks.
unfoldable pub make_plan :
    AddressColumnSpec Text → List Text → OnDuplicateColumns → StringRecord → Outcome Plan
unfolding duplicate_columns handle_duplicates convert_to_indices_using_headers chunk_size
    build_out_headers
make_plan spec column_names on_duplicate_columns in_headers =
    Outcome.◌>>=◌ (duplicate_columns spec column_names in_headers) λ duplicates.
      Outcome.◌>>=◌
        (handle_duplicates on_duplicate_columns duplicates (replicate (length in_headers) false))
        λ decision.
          let headers = clean decision.0 decision.1 in_headers in
          Outcome.◌>>=◌ (convert_to_indices_using_headers spec headers) λ spec'.
            if ltb 0 (chunk_size spec') && leb (chunk_size spec') geocode_size
            then ok (plan_of column_names headers decision spec')
            else panicked

module _ {W : Type 0} (send : Message → M W Unit) where
  abbrev pub send_rows : Plan → List StringRecord → M W Unit
  send_rows plan rows = send (chunk (record { shared = plan.shared; rows = rows }))

  -- The loop over `rdr.records()`: the rows that are left, and `sent_chunk`.
  unfoldable pub read_records :
      Plan → List (Outcome StringRecord) → List StringRecord → Bool → M W (List StringRecord × Bool)
  unfolding remove_columns
  read_records plan [] rows sent_chunk = pure (rows, sent_chunk)
  read_records plan (record' ∷ records) rows sent_chunk = do
    row ← lift record'
    let rows' = rows ++ (clean plan.should_remove_columns plan.remove_column_flags row ∷ [])
    if leb plan.size (length rows')
        then (do sent ← send_rows plan rows'; read_records plan records [] true)
        else read_records plan records rows' sent_chunk

  unfoldable pub finish_reading : Plan → List StringRecord × Bool → M W Unit
  finish_reading plan (rows, sent_chunk) = do
    sent ← if not sent_chunk || not (is_empty rows) then send_rows plan rows else pure tt
    send end_of_stream

  unfoldable pub read_csv_from_stdin :
      AddressColumnSpec Text → List Text → OnDuplicateColumns → CsvInput → M W Unit
  unfolding make_plan read_records finish_reading
  read_csv_from_stdin spec column_names on_duplicate_columns input = do
    in_headers ← lift input.headers
    plan ← lift (make_plan spec column_names on_duplicate_columns in_headers)
    rest ← read_records plan input.records [] false
    finish_reading plan rest

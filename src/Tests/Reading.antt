-- ===== src/Tests/Reading.antt =====
-- Witnesses and runs for the reading and writing of CSV files, and for the conversion of specs.
use geocode_csv.Base.{
  ℕ, ◌*◌, ◌<◌, ◌≤◌, ◌≡◌, refl, true, false, none, some, List, [], ◌∷◌, ◌++◌, map, length, All,
  arith,
}
use geocode_csv.Base.Text.{Text, codes}
use geocode_csv.Base.Outcome.{ok, Ensures}
use geocode_csv.Addresses.Columns.{key, AddressColumnKeys, StringRecord}
use geocode_csv.Addresses.Columns.Extract.{ColumnsBelow}
use geocode_csv.Addresses.Spec.{
  AddressColumnSpec, prefixes, prefix_count, get, duplicate_columns, output_column_names,
  add_output_names, find_duplicates, sort, insert_sorted,
}
use geocode_csv.Addresses.Spec.Prefixes.{Values}
use geocode_csv.Addresses.Indices.{
  convert_to_indices_using_headers, convert_to_indices, convert_entries, convert_address_columns,
  convert_key_or_keys, convert_optional, convert_names, convert_name, index_headers,
}
use geocode_csv.Addresses.Indices.Names.{ColumnsNamed}
use geocode_csv.Addresses.Indices.Laws.{
  HasEntry, convert_to_indices_using_headers-named, convert_to_indices_using_headers-below,
}
use geocode_csv.Geocoders.{add_header_columns, prefix_column_name}
use geocode_csv.Pipeline.Geocode.{Chunk}
use geocode_csv.Pipeline.Read.{
  replace, Plan, chunk, end_of_stream, chunk_size, make_plan, read_csv_from_stdin,
  handle_duplicates, mark_columns, remove_columns, build_out_headers,
}
use geocode_csv.Pipeline.Read.Laws.{
  take_message, all_rows, clean_rows, IsFull, last_chunk, chunk_size-bounds,
  read_csv_from_stdin-Sends,
}
use geocode_csv.Pipeline.Read.Total.{make_plan-total}
use geocode_csv.Pipeline.Rectangular.{GeocodesTo, read_csv_from_stdin-GeocodesTo}
use geocode_csv.Pipeline.Retry.{Timed}
use geocode_csv.Pipeline.Stdio.{geocode_stdio}
use geocode_csv.Pipeline.Stdio.Laws.{Finishes, geocode_stdio-Finishes}
use geocode_csv.Pipeline.Write.{write_csv_to_stdout}
use geocode_csv.Pipeline.Write.Laws.{take_record, write_csv_to_stdout-writes}
use geocode_csv.Tests.Data.{flaky, flaky-Implements, Any}

abbrev pub named : AddressColumnSpec Text
named = record {
  address_columns_by_prefix =
      (
        codes "gc",
        record { street = key (codes "street"); city = none; state = none; zipcode = none },
      )
      ∷ [];
}

abbrev pub indexed : AddressColumnKeys ℕ
indexed = record { street = key 1; city = none; state = none; zipcode = none }

abbrev pub indexed_spec : AddressColumnSpec ℕ
indexed_spec = record { address_columns_by_prefix = (codes "gc", indexed) ∷ [] }

abbrev pub header : StringRecord
header = codes "id" ∷ codes "street" ∷ []

converted : convert_to_indices_using_headers named header ≡ ok indexed_spec
unfolding convert_to_indices_using_headers convert_to_indices convert_entries
    convert_address_columns convert_key_or_keys convert_optional convert_names convert_name
    index_headers
converted = refl

found_columns : get indexed_spec (codes "gc") ≡ some indexed
unfolding get
found_columns = refl

convert_to_indices_using_headers-named_example :
    (c : AddressColumnKeys Text) × HasEntry named.address_columns_by_prefix (codes "gc") c
    × ColumnsNamed header c indexed
convert_to_indices_using_headers-named_example =
    convert_to_indices_using_headers-named named header (codes "gc") indexed converted found_columns

columns_below : Values (ColumnsBelow 2) indexed_spec.address_columns_by_prefix
columns_below = convert_to_indices_using_headers-below named header converted

chunk_size-bounds_example :
    (0 < chunk_size indexed_spec)
    × (chunk_size indexed_spec ≤ 72)
    × (prefix_count indexed_spec ≤ 72 → chunk_size indexed_spec * prefix_count indexed_spec ≤ 72)
chunk_size-bounds_example = chunk_size-bounds indexed_spec

-- A header with a column that geocoding adds, which is replaced.
abbrev pub columns : List Text
columns = codes "line" ∷ codes "country" ∷ []

abbrev pub header_with_duplicate : StringRecord
header_with_duplicate = codes "gc_line" ∷ header

abbrev pub plan : Plan
plan = record {
  should_remove_columns = true;
  remove_column_flags = true ∷ false ∷ false ∷ [];
  size = 72;
  shared = record {
    spec = indexed_spec;
    out_headers = codes "id" ∷ codes "street" ∷ codes "gc_line" ∷ codes "gc_country" ∷ [];
  };
}

pub planned : make_plan named columns replace header_with_duplicate ≡ ok plan
unfolding make_plan duplicate_columns output_column_names add_output_names find_duplicates prefixes
    sort insert_sorted handle_duplicates mark_columns remove_columns chunk_size prefix_count
    build_out_headers add_header_columns prefix_column_name convert_to_indices_using_headers
    convert_to_indices convert_entries convert_address_columns convert_key_or_keys convert_optional
    convert_names convert_name index_headers
planned = refl

abbrev pub file_rows : List StringRecord
file_rows =
    (codes "x" ∷ codes "1" ∷ codes "1 Main St" ∷ [])
    ∷ (codes "y" ∷ codes "2" ∷ codes "2 Oak Ave" ∷ [])
    ∷ []

read_csv_from_stdin-Sends_example :
    (full : List Chunk) × (rest : List StringRecord) × (read_csv_from_stdin take_message named
        columns replace
        (record { headers = ok header_with_duplicate; records = map ok file_rows })
        []
      ≡ (ok tt, map chunk (full ++ last_chunk plan full rest) ++ (end_of_stream ∷ [])))
    × All (IsFull plan) full
    × (length rest < plan.size)
    × (all_rows (full ++ last_chunk plan full rest) ≡ clean_rows plan file_rows)
read_csv_from_stdin-Sends_example =
    read_csv_from_stdin-Sends named columns replace header_with_duplicate file_rows planned

sends_chunks_to_geocode :
    (chunks : List Chunk) × (read_csv_from_stdin take_message named columns replace
        (record { headers = ok header_with_duplicate; records = map ok file_rows })
        []
      ≡ (ok tt, map chunk chunks ++ (end_of_stream ∷ [])))
    × All (GeocodesTo (flaky 1) Any 3 4) chunks
    × All (λ c. c.shared ≡ plan.shared) chunks
    × (all_rows chunks ≡ clean_rows plan file_rows)
sends_chunks_to_geocode =
    read_csv_from_stdin-GeocodesTo (flaky 1) Any 3 named replace header_with_duplicate file_rows
      (flaky-Implements 1) (omega arith) planned (refl, (refl, tt)) (λ e. cc)

abbrev start : Timed ℕ
start = record { world = 0; sleeps = [] }

geocode_stdio-Finishes_example :
    let run =
      geocode_stdio
        (flaky 1)
        3
        named
        replace
        (record { headers = ok header_with_duplicate; records = map ok file_rows })
        start in
    Finishes plan.shared 2 run.result run.written × Any run.after.world
geocode_stdio-Finishes_example =
    geocode_stdio-Finishes (flaky 1) Any 3 named replace header_with_duplicate file_rows start
      (flaky-Implements 1) (omega arith) planned (refl, (refl, tt)) (λ e. cc) tt

abbrev written_chunk : Chunk
written_chunk = record { shared = plan.shared; rows = file_rows }

write_csv_to_stdout-writes_example :
    write_csv_to_stdout take_record (chunk written_chunk ∷ end_of_stream ∷ []) []
    ≡ (ok tt, plan.shared.out_headers ∷ file_rows)
write_csv_to_stdout-writes_example = write_csv_to_stdout-writes written_chunk [] []

make_plan-total_example :
    Ensures (λ plan'. Unit) (make_plan named columns replace header_with_duplicate)
make_plan-total_example = make_plan-total named columns replace header_with_duplicate

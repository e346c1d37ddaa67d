-- ===== src/Tests/Threads.antt =====
-- Witnesses and runs for the concurrent parts in src/pipeline.rs.
use geocode_csv.Base.{
  true, ℕ, ◌≤◌, ◌*◌, ◌+◌, ◌≡◌, ◌⊎◌, refl, List, [], ◌∷◌, ◌++◌, map, false, arith,
}
use geocode_csv.Base.Outcome.{Outcome, ok}
use geocode_csv.Base.Text.{codes}
use geocode_csv.Pipeline.Geocode.{Chunk, geocode_chunk}
use geocode_csv.Pipeline.Read.{Message, chunk, end_of_stream}
use geocode_csv.Pipeline.Write.{write_chunk, write_rows}
use geocode_csv.Pipeline.Threads.{
  reading, read_result, geocode_result, write_result, pending, resolved, Threads, write_message,
  Step, Run, start, IsDone,
}
use geocode_csv.Pipeline.Threads.Step.{
  make, send_in, stop_reading, pull, geocode, next, send_out, stop_geocoding, receive, write,
}
use geocode_csv.Pipeline.Threads.Run.{begin, later}
use geocode_csv.Addresses.Spec.{
  prefixes, prefix_count, sort, insert_sorted, get, duplicate_columns, output_column_names,
  add_output_names, find_duplicates,
}
use geocode_csv.Addresses.Columns.{append_column, extract_address_from_record}
use geocode_csv.Addresses.Indices.{
  convert_to_indices_using_headers, convert_to_indices, convert_entries, convert_address_columns,
  convert_key_or_keys, convert_optional, convert_names, convert_name, index_headers,
}
use geocode_csv.Geocoders.{add_header_columns, prefix_column_name}
use geocode_csv.Pipeline.Retry.{Timed}
use geocode_csv.Pipeline.ChunkCount.{new_chunk}
use geocode_csv.Pipeline.ChunkCount.Steps.{counted}
use geocode_csv.Pipeline.Read.{
  read_csv_from_stdin, read_records, finish_reading, make_plan, handle_duplicates, mark_columns,
  remove_columns, chunk_size, build_out_headers, replace,
}
use geocode_csv.Pipeline.Read.Laws.{take_message}
use geocode_csv.Pipeline.Write.{geocode_message}
use geocode_csv.Pipeline.Stdio.{join_results, geocode_stdio}
use geocode_csv.Pipeline.Threads.Turns.{stream}
use geocode_csv.Pipeline.Threads.Sequential.{geocode_stdio-Run}
use geocode_csv.Pipeline.Stdio.Laws.{Finishes}
use geocode_csv.Pipeline.Threads.Progress.{Run-ends}
use geocode_csv.Pipeline.Threads.Bounded.{IsBounded, in_pipeline, Run-new_chunk}
use geocode_csv.Pipeline.Threads.Order.{Results}
use geocode_csv.Pipeline.Threads.Order.Steps.{LeavesNone, Run-Results}
use geocode_csv.Pipeline.Threads.Geocoded.{MayGive}
use geocode_csv.Pipeline.Threads.Finishes.{Run-Finishes}
use geocode_csv.Tests.Data.{flaky, flaky-Implements, Any}
use geocode_csv.Tests.Reading.{named, columns, header_with_duplicate, plan, planned, file_rows}

module _ (Gives : Message → Outcome Message → Type 0) (c d : Chunk) where
  abbrev two : List Message
  two = chunk c ∷ end_of_stream ∷ []

  -- Both messages are geocoded at the same time, the second one is done first.
  abbrev written_all : Threads
  written_all = record {
    reader = read_result (ok tt);
    in_channel = [];
    forwarder = geocode_result (ok tt);
    out_channel = [];
    writer = write_result (ok tt);
    written = (write_chunk (λ r l. (ok tt, l ++ (r ∷ []))) false d []).1;
    received = chunk d ∷ end_of_stream ∷ [];
  }

  runs :
      Gives (chunk c) (ok (chunk d))
      → Gives end_of_stream (ok end_of_stream)
      → Run Gives (ok tt) (start two) 18 written_all
  unfolding write_message
  runs g h =
      let r0 =
        later
          (later
            (later (later (later begin (make refl)) (send_in refl tt (omega arith))) (make refl))
            (send_in refl tt (omega arith)))
          (stop_reading refl) in
      let r1 = later (later r0 (pull refl refl (omega arith))) (pull refl refl (omega arith)) in
      let r2 =
        later (later r1 (geocode (pending (chunk c) ∷ []) [] (ok end_of_stream) refl h))
          (geocode [] (resolved end_of_stream (ok end_of_stream) ∷ []) (ok (chunk d)) refl g) in
      let r3 =
        later (later (later (later r2 (next refl)) (send_out refl tt (omega arith))) (next refl))
          (send_out refl tt (omega arith)) in
      let r4 = later r3 (stop_geocoding refl refl refl) in
      later (later (later (later r4 (receive refl refl)) (write refl)) (receive refl refl))
        (write refl)

abbrev read_chunk : Chunk
read_chunk = record {
  shared = plan.shared;
  rows = (codes "1" ∷ codes "1 Main St" ∷ []) ∷ (codes "2" ∷ codes "2 Oak Ave" ∷ []) ∷ [];
}

abbrev geocoded_chunk : Chunk
geocoded_chunk = record {
  shared = plan.shared;
  rows =
      (codes "1" ∷ codes "1 Main St" ∷ codes "1 Main St" ∷ codes "US" ∷ [])
      ∷ (codes "2" ∷ codes "2 Oak Ave" ∷ codes "2 Oak Ave" ∷ codes "US" ∷ [])
      ∷ [];
}

abbrev Given : Message → Outcome Message → Type 0
Given = MayGive (flaky 1) Any 3

abbrev retried : Timed ℕ
retried = record { world = 0; sleeps = [] }

chunk-Given : Given (chunk read_chunk) (ok (chunk geocoded_chunk))
unfolding geocode_message geocode_chunk prefixes get extract_address_from_record append_column
chunk-Given = (retried, tt, refl)

end-Given : Given end_of_stream (ok end_of_stream)
unfolding geocode_message
end-Given = (retried, tt, refl)

abbrev done : Threads
done = written_all Given read_chunk geocoded_chunk

Run-of_two : Run Given (ok tt) (start (two Given read_chunk geocoded_chunk)) 18 done
Run-of_two = runs Given read_chunk geocoded_chunk chunk-Given end-Given

-- A message that nothing is known of is geocoded in some world.
always_gives : (message : Message) → (r : Outcome Message) × Given message r
always_gives message = (_, (retried, tt, refl))

Run-ends_example : (18 ≤ 8 * 2 + 3) × (IsDone done ⊎ ((t : Threads) × Step Given (ok tt) done t))
Run-ends_example =
    Run-ends Given (ok tt) (two Given read_chunk geocoded_chunk) always_gives Run-of_two

Run-Results_example :
    (forwarded rest : List Message) × (two Given read_chunk geocoded_chunk ≡ forwarded ++ rest)
    × Results Given (ok tt) forwarded (chunk geocoded_chunk ∷ end_of_stream ∷ [])
    × LeavesNone Given (ok tt) done.forwarder rest
Run-Results_example = Run-Results Given (ok tt) (two Given read_chunk geocoded_chunk) Run-of_two

-- The reader has made the first of two messages.
abbrev reading_on : Threads
reading_on = record (start (two Given read_chunk geocoded_chunk)) {
  reader = reading (end_of_stream ∷ []);
  in_channel = chunk read_chunk ∷ [];
}

Run-new_chunk_example :
    IsBounded reading_on × (in_pipeline reading_on ≤ 66) × ((new_chunk (counted 1 false)).0 ≡ ok tt)
Run-new_chunk_example =
    Run-new_chunk Given (ok tt) (two Given read_chunk geocoded_chunk) (end_of_stream ∷ []) 1
      (later (later begin (make refl)) (send_in refl tt (omega arith))) refl (omega arith)

sent_messages :
    read_csv_from_stdin take_message named columns replace
      (record { headers = ok header_with_duplicate; records = map ok file_rows })
      []
    ≡ (ok tt, two Given read_chunk geocoded_chunk)
unfolding read_csv_from_stdin read_records finish_reading make_plan duplicate_columns
    output_column_names add_output_names find_duplicates prefixes sort insert_sorted
    handle_duplicates mark_columns remove_columns chunk_size prefix_count build_out_headers
    add_header_columns prefix_column_name convert_to_indices_using_headers convert_to_indices
    convert_entries convert_address_columns convert_key_or_keys convert_optional convert_names
    convert_name index_headers
sent_messages = refl

Run-of_file :
    let sent =
      read_csv_from_stdin take_message named columns replace
        (record { headers = ok header_with_duplicate; records = map ok file_rows })
        [] in
    Run Given sent.0 (start sent.1) 18 done
Run-of_file = rw sent_messages Run-of_two

Run-Finishes_example : Finishes plan.shared 2 (join_results (ok tt) (ok tt) (ok tt)) done.written
Run-Finishes_example =
    Run-Finishes (flaky 1) Any 3 named replace header_with_duplicate file_rows (flaky-Implements 1)
      (omega arith) planned (refl, (refl, tt)) (λ e. cc) Run-of_file refl refl refl

-- What the run has written.
written_out : done.written ≡ plan.shared.out_headers ∷ geocoded_chunk.rows
unfolding write_chunk write_rows
written_out = refl

geocode_stdio-Run_example :
    let run =
      geocode_stdio
        (flaky 1)
        3
        named
        replace
        (record { headers = ok header_with_duplicate; records = map ok file_rows })
        retried in
    (n : ℕ) × (s : Threads) × (read geocoded written : Outcome (Unit {0})) × Run
      (MayGive (flaky 1) (λ w. Unit) 3)
      (ok tt)
      (start (stream (read_chunk ∷ []) true))
      n
      s
    × (s.reader ≡ read_result read)
    × (s.forwarder ≡ geocode_result geocoded)
    × (s.writer ≡ write_result written)
    × (run.result ≡ join_results read geocoded written)
    × (run.written ≡ s.written)
geocode_stdio-Run_example =
    geocode_stdio-Run (flaky 1) 3 (ok tt) named replace
      (record { headers = ok header_with_duplicate; records = map ok file_rows }) retried
      (read_chunk ∷ []) true tt sent_messages

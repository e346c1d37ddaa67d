-- ===== src/Pipeline/Write/Laws.antt =====
-- src/pipeline.rs: what `write_csv_to_stdout` writes. The writer here takes every record, and the
-- world is the list of the records that it took.
use geocode_csv.Base.{◌≡◌, refl, true, List, [], ◌∷◌, ◌++◌, map, append_assoc, append-nil}
use geocode_csv.Base.Outcome.{ok, err, no_end_of_stream}
use geocode_csv.Base.Effect.{M}
use geocode_csv.Addresses.Columns.{StringRecord}
use geocode_csv.Pipeline.Geocode.{Chunk}
use geocode_csv.Pipeline.Read.{Message, chunk, end_of_stream}
use geocode_csv.Pipeline.Read.Laws.{all_rows}
use geocode_csv.Pipeline.Write.{write_rows, write_loop, write_csv_to_stdout}

abbrev pub take_record : StringRecord → M (List StringRecord) Unit
take_record record' taken = (ok tt, taken ++ (record' ∷ []))

pub write_rows-takes :
    (rows taken : List StringRecord) → write_rows take_record rows taken ≡ (ok tt, taken ++ rows)
unfolding write_rows
write_rows-takes [] taken = rw (append-nil taken) refl
write_rows-takes (row ∷ rows) taken =
    rw (write_rows-takes rows (taken ++ (row ∷ [])), append_assoc taken (row ∷ []) rows) refl

-- After the headers.
write_loop-takes :
    (chunks : List Chunk) (messages : List Message) (taken : List StringRecord)
    → write_loop take_record true (map chunk chunks ++ messages) taken
      ≡ write_loop take_record true messages (taken ++ all_rows chunks)
unfolding write_loop
write_loop-takes [] messages taken = rw (append-nil taken) refl
write_loop-takes (c ∷ chunks) messages taken =
    rw
      (
        write_rows-takes c.rows taken,
        write_loop-takes chunks messages (taken ++ c.rows),
        append_assoc taken c.rows (all_rows chunks),
      )
      refl

module _ (c : Chunk) (chunks : List Chunk) where
  -- What is written for one or more chunks and the end of the stream: the headers of the first chunk,
  -- once, and then the rows of all chunks in order. Messages after the end of the stream are not
  -- written.
  pub write_csv_to_stdout-writes :
      (messages : List Message)
      → write_csv_to_stdout take_record (map chunk (c ∷ chunks) ++ (end_of_stream ∷ messages)) []
        ≡ (ok tt, c.shared.out_headers ∷ all_rows (c ∷ chunks))
  unfolding write_csv_to_stdout write_loop
  write_csv_to_stdout-writes messages =
      rw (write_rows-takes c.rows (c.shared.out_headers ∷ []), write_loop-takes chunks) refl

  -- If the channel is closed before the end of the stream, the same is written, but it is an error.
  pub write_csv_to_stdout-closed :
      write_csv_to_stdout take_record (map chunk (c ∷ chunks)) []
      ≡ (err no_end_of_stream, c.shared.out_headers ∷ all_rows (c ∷ chunks))
  unfolding write_csv_to_stdout write_loop
  write_csv_to_stdout-closed =
      rw
        (
          write_rows-takes c.rows (c.shared.out_headers ∷ []),
          ← append-nil (map chunk chunks),
          write_loop-takes chunks [] _,
        )
        refl

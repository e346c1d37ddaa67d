-- ===== src/Pipeline/Threads/Written.antt =====
-- src/pipeline.rs: what the writer of `geocode_stdio` has written, over the steps of the three parts.
use geocode_csv.Base.{
  ℕ, ◌≡◌, refl, sym, ap, ◌∙◌, Bool, true, false, List, [], ◌∷◌, ◌++◌, append-nil, map,
}
use geocode_csv.Base.Outcome.{Outcome, ok, err, panicked}
use geocode_csv.Addresses.Columns.{StringRecord}
use geocode_csv.Pipeline.Geocode.{Chunk}
use geocode_csv.Pipeline.Read.{Message, chunk, end_of_stream}
use geocode_csv.Pipeline.Read.Laws.{all_rows, map-append_one, all_rows-append_one}
use geocode_csv.Pipeline.Write.{write_chunk}
use geocode_csv.Pipeline.Write.Laws.{write_rows-takes}
use geocode_csv.Pipeline.Threads.{
  Writer, receiving, writing, write_result, Threads, write_message, Step, Run, start,
}
use geocode_csv.Pipeline.Threads.Step.{
  make, send_in, send_in_fails, stop_reading, pull, geocode, next, send_out, send_out_fails,
  stop_geocoding, receive, write, write_fails, stop_writing,
}
use geocode_csv.Pipeline.Threads.Run.{begin, later}

-- After these messages, the last of them `last` where it is given: the first chunk's headers and the
-- rows of every chunk are written.
abbrev pub WroteChunks : List Message → List Message → List StringRecord → Type 0
WroteChunks last received written =
    (d : Chunk) × (ds : List Chunk) × (received ≡ map chunk (d ∷ ds) ++ last)
    × (written ≡ d.shared.out_headers ∷ all_rows (d ∷ ds))

abbrev pub WroteSo : Bool → List Message → List StringRecord → Type 0
WroteSo false received written = (received ≡ []) × (written ≡ [])
WroteSo true received written = WroteChunks [] received written

-- What is written, for each state of the writer. A panic is the assertion that headers were written.
abbrev pub Wrote : Writer → List Message → List StringRecord → Type 0
Wrote (receiving headers_written) received written = WroteSo headers_written received written
Wrote (writing message headers_written) received written =
    (before : List Message) × (received ≡ before ++ (message ∷ []))
    × WroteSo headers_written before written
Wrote (write_result (ok u)) received written = WroteChunks (end_of_stream ∷ []) received written
Wrote (write_result (err e)) received written = Unit
Wrote (write_result panicked) received written = received ≡ end_of_stream ∷ []

write_message-Wrote :
    (message : Message) (headers_written : Bool) (received : List Message)
    (written : List StringRecord)
    → Wrote (writing message headers_written) received written
    → let after = write_message message headers_written written in Wrote after.0 received after.1
unfolding write_message write_chunk
write_message-Wrote (chunk c) false received written (before, e, (none, nothing)) =
    rw (nothing, write_rows-takes c.rows (c.shared.out_headers ∷ []))
      (c, [], rw none at e, cc (append-nil c.rows))
write_message-Wrote (chunk c) true received written (before, e, (d, ds, some', rows)) =
    rw (write_rows-takes c.rows written) (
      d,
      ds ++ (c ∷ []),
      e
          ∙ ap (λ l. l ++ (chunk c ∷ [])) (some' ∙ append-nil (map chunk (d ∷ ds)))
          ∙ sym (append-nil (map chunk (d ∷ (ds ++ (c ∷ [])))) ∙ map-append_one (d ∷ ds) c),
      ap (λ l. l ++ c.rows) rows
          ∙ ap (λ l. d.shared.out_headers ∷ l) (sym (all_rows-append_one (d ∷ ds) c)),
    )
write_message-Wrote end_of_stream false received written (before, e, (none, nothing)) = rw none at e
write_message-Wrote end_of_stream true received written (before, e, (d, ds, some', rows)) =
    (d, ds, e ∙ ap (λ l. l ++ (end_of_stream ∷ [])) (some' ∙ append-nil (map chunk (d ∷ ds))), rows)

module _ (Gives : Message → Outcome Message → Type 0) (read_ends : Outcome (Unit {0})) where
  abbrev IsWritten : Threads → Type 0
  IsWritten s = Wrote s.writer s.received s.written

  receive-Wrote :
      (headers_written : Bool) (message : Message) (received : List Message)
      (written : List StringRecord)
      → WroteSo headers_written received written
      → Wrote (writing message headers_written) (received ++ (message ∷ [])) written
  receive-Wrote headers_written message received written h = (received, refl, h)

  Step-IsWritten : {s t : Threads} → Step Gives read_ends s t → IsWritten s → IsWritten t
  Step-IsWritten (make r) h = h
  Step-IsWritten (send_in r o room) h = h
  Step-IsWritten (send_in_fails r f) h = h
  Step-IsWritten (stop_reading r) h = h
  Step-IsWritten (pull f c room) h = h
  Step-IsWritten (geocode before after r f g) h = h
  Step-IsWritten (next f) h = h
  Step-IsWritten (send_out f w room) h = h
  Step-IsWritten (send_out_fails f w) h = h
  Step-IsWritten (stop_geocoding f c r) h = h
  Step-IsWritten {s} (receive {message} {headers_written = b} w c) h =
      receive-Wrote b message s.received s.written (rw w at h)
  Step-IsWritten {s} (write {message} {headers_written = b} w) h =
      write_message-Wrote message b s.received s.written (rw w at h)
  Step-IsWritten (write_fails e so_far w) h = tt
  Step-IsWritten (stop_writing w c f) h = tt

  pub Run-Wrote :
      (messages : List Message) {n : ℕ} {s : Threads}
      → Run Gives read_ends (start messages) n s
      → Wrote s.writer s.received s.written
  Run-Wrote messages begin = (refl, refl)
  Run-Wrote messages (later run step) = Step-IsWritten step (Run-Wrote messages run)

-- ===== src/Pipeline/Threads/Sequential.antt =====
-- src/pipeline.rs: the run of `geocode_stdio` whose parts take turns, message by message, comes to the
-- same as the parts one after the other.
use geocode_csv.Base.{ℕ, ◌≡◌, refl, sym, ap, ◌∙◌, Bool, false, List, []}
use geocode_csv.Base.Text.{Text}
use geocode_csv.Base.Outcome.{Outcome, ok, err, panicked, Error}
use geocode_csv.Addresses.Spec.{AddressColumnSpec}
use geocode_csv.Geocoders.{Geocoder}
use geocode_csv.Pipeline.Retry.{Timed}
use geocode_csv.Pipeline.Geocode.{Chunk}
use geocode_csv.Pipeline.Read.{OnDuplicateColumns, CsvInput, read_csv_from_stdin}
use geocode_csv.Pipeline.Read.Laws.{take_message}
use geocode_csv.Pipeline.Write.{write_loop, write_csv_to_stdout}
use geocode_csv.Pipeline.Write.Laws.{take_record}
use geocode_csv.Pipeline.Stdio.{join_results, geocode_fut, geocode_stdio}
use geocode_csv.Pipeline.Stdio.Laws.{geocode_stdio-after_read}
use geocode_csv.Pipeline.Threads.{read_result, geocode_result, write_result, Threads, Run, start}
use geocode_csv.Pipeline.Threads.Run.{begin}
use geocode_csv.Pipeline.Threads.Panics.{Returns}
use geocode_csv.Pipeline.Threads.Turns.{stream, Gives, ReadsTo, turns}

join_results-err :
    (r : Outcome (Unit {0})) (g : Error) (w : Outcome (Unit {0}))
    → Returns r
    → join_results r (err g) w ≡ join_results (ok tt) (err g) w
unfolding join_results
join_results-err (ok r) g w h = refl
join_results-err (err x) g (ok w) h = refl
join_results-err (err x) g (err y) h = refl
join_results-err (err x) g panicked h = refl
join_results-err panicked g w h = absurd h

join_results-panicked :
    (r w : Outcome (Unit {0})) → Returns r → join_results r panicked w ≡ panicked
unfolding join_results
join_results-panicked (ok r) w h = refl
join_results-panicked (err x) w h = refl
join_results-panicked panicked w h = absurd h

module _ {W : Type 0} (geocoder : Geocoder W) (max_retries : ℕ)
    (read_ends : Outcome (Unit {0})) where
  join_results-ReadsTo :
      (read geocoded written : Outcome (Unit {0}))
      → Returns read_ends
      → ReadsTo geocoder max_retries read_ends geocoded read
      → join_results read geocoded written ≡ join_results read_ends geocoded written
  join_results-ReadsTo read (ok g) written ends h = ap (λ r. join_results r (ok g) written) h
  join_results-ReadsTo read (err g) written ends h =
      join_results-err read g written h ∙ sym (join_results-err read_ends g written ends)
  join_results-ReadsTo read panicked written ends h =
      join_results-panicked read written h ∙ sym (join_results-panicked read_ends written ends)

  -- The program as the parts one after the other is one of the runs of its concurrent parts: where
  -- the reader has not panicked, and has sent chunks and, perhaps, the end of the stream, a run of
  -- steps returns all three parts, with the result of `geocode_stdio`, and has written what it
  -- writes.
  pub geocode_stdio-Run :
      (spec : AddressColumnSpec Text) (on_duplicate : OnDuplicateColumns) (input : CsvInput)
      (t : Timed W) (cs : List Chunk) (ended : Bool)
      → Returns read_ends
      → read_csv_from_stdin take_message spec geocoder.column_names on_duplicate input []
        ≡ (read_ends, stream cs ended)
      → let run = geocode_stdio geocoder max_retries spec on_duplicate input t in
        (n : ℕ) × (s : Threads) × (read geocoded written : Outcome (Unit {0})) × Run
          (Gives geocoder max_retries read_ends)
          read_ends
          (start (stream cs ended))
          n
          s
        × (s.reader ≡ read_result read)
        × (s.forwarder ≡ geocode_result geocoded)
        × (s.writer ≡ write_result written)
        × (run.result ≡ join_results read geocoded written)
        × (run.written ≡ s.written)
  unfolding write_csv_to_stdout
  geocode_stdio-Run spec on_duplicate input t cs ended ends h =
      let first = start (stream cs ended) in
      let (out, same, (s, read, (n, run), r, f, w, wrote, reads)) =
        turns geocoder max_retries read_ends first cs ended t [] false [] [] ends (0, begin) in
      let whole =
        geocode_stdio-after_read geocoder (λ w. Unit) max_retries spec on_duplicate input t
          (read_ends, stream cs ended) h in
      let sent = geocode_fut geocoder max_retries (stream cs ended) (t, []) in
      let writes : write_csv_to_stdout take_record sent.1.1 []
          ≡ write_loop take_record false out [] =
        ap (λ l. write_csv_to_stdout take_record l []) same in
      (
        n,
        s,
        read,
        sent.0,
        (write_loop take_record false out []).0,
        run,
        r,
        f,
        w,
        ap (λ x. x.result) whole
            ∙ ap (λ x. join_results read_ends sent.0 x.0) writes
            ∙ sym (join_results-ReadsTo read sent.0 _ ends reads),
        ap (λ x. x.written) whole ∙ ap (λ x. x.1) writes ∙ sym wrote,
      )

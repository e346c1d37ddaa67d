-- ===== src/Pipeline/Stdio.antt =====
-- src/pipeline.rs: `geocode_stdio`, the reader, the geocoding loop and the writer with the channels
-- between them. A channel is the list of the messages that pass through it: each end gets them in
-- order, and the receiver sees the channel closed after the last one. So the three parts run one
-- after the other. In the program a reader whose channel is closed early also fails: the run has
-- failed then, because the geocoding loop closes the channel only when it fails.
pub mod Laws
pub mod Total
use geocode_csv.Base.{ℕ, Bool, List, [], ◌∷◌, ◌++◌}
use geocode_csv.Base.Text.{Text}
use geocode_csv.Base.Outcome.{Outcome, ok, err, panicked, stdio_failed}
use geocode_csv.Base.Effect.{M}
use geocode_csv.Addresses.Columns.{StringRecord}
use geocode_csv.Addresses.Spec.{AddressColumnSpec}
use geocode_csv.Geocoders.{Geocoder}
use geocode_csv.Pipeline.Background.{run_sync_fn_in_background}
use geocode_csv.Pipeline.Retry.{Timed}
use geocode_csv.Pipeline.Read.{Message, OnDuplicateColumns, CsvInput, read_csv_from_stdin}
use geocode_csv.Pipeline.Read.Laws.{take_message}
use geocode_csv.Pipeline.Write.{write_csv_to_stdout, geocode_message, forward_messages}
use geocode_csv.Pipeline.Write.Laws.{take_record}

-- The loop's world: the geocoder's, and the messages that were sent to the writer.
abbrev pub Forwarding : Type 0 → Type 0
Forwarding W = Timed W × List Message

module _ {W A B : Type 0} where
  abbrev pub on_left : M W A → M (W × B) A
  on_left m (w, b) = ((m w).0, ((m w).1, b))

  abbrev pub on_right : M B A → M (W × B) A
  on_right m (w, b) = ((m b).0, (w, (m b).1))

-- The results of the three parts: `failed`, or a panic that is passed on.
unfoldable pub join_results :
    Outcome (Unit {0}) → Outcome (Unit {0}) → Outcome (Unit {0}) → Outcome (Unit {0})
join_results panicked geocode_result write_result = panicked
join_results read_result panicked write_result = panicked
join_results read_result geocode_result panicked = panicked
join_results (ok r) (ok g) (ok w) = ok tt
join_results read_result geocode_result write_result = err stdio_failed

-- What a run leaves: its result, what was written, and the geocoder's world.
pub record StdioRun (W : Type 0) : Type 0 where
  pub result : Outcome (Unit {0})
  pub written : List StringRecord
  pub after : Timed W

module _ {W : Type 0} (geocoder : Geocoder W) (max_retries : ℕ) where
  unfoldable pub geocode_fut : List Message → M (Forwarding W) Unit
  unfolding geocode_message forward_messages
  geocode_fut =
      forward_messages (λ message. on_left (geocode_message geocoder max_retries message))
        (λ message. on_right (take_message message))

  unfoldable pub geocode_stdio :
      AddressColumnSpec Text → OnDuplicateColumns → CsvInput → Timed W → StdioRun W
  unfolding read_csv_from_stdin geocode_fut write_csv_to_stdout join_results
      run_sync_fn_in_background
  geocode_stdio spec on_duplicate_columns input t =
      let read =
        read_csv_from_stdin take_message spec geocoder.column_names on_duplicate_columns input [] in
      let geocoded = geocode_fut read.1 (t, []) in
      let written = write_csv_to_stdout take_record geocoded.1.1 [] in
      record {
        result =
            join_results (run_sync_fn_in_background read.0) geocoded.0
              (run_sync_fn_in_background written.0);
        written = written.1;
        after = geocoded.1.0;
      }

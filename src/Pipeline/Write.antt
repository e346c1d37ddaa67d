-- ===== src/Pipeline/Write.antt =====
-- src/pipeline.rs: `write_csv_to_stdout`, `geocode_message` and the loop that forwards its results.
-- The library csv writes a record, `write_record`; `send` is the sending half of the channel to
-- the writer.
pub mod Laws
use geocode_csv.Base.{ℕ, suc, Bool, true, false, not, ◌&&◌, List, [], ◌∷◌, if◌then◌else◌}
use geocode_csv.Base.Outcome.{panicked, no_end_of_stream}
use geocode_csv.Base.Effect.{M, pure, raise, lift, ◌>>=◌}
use geocode_csv.Addresses.Columns.{StringRecord}
use geocode_csv.Geocoders.{Geocoder}
use geocode_csv.Pipeline.Retry.{Timed}
use geocode_csv.Pipeline.Geocode.{Chunk, geocode_chunk}
use geocode_csv.Pipeline.Read.{Message, chunk, end_of_stream}

module _ {W : Type 0} (write_record : StringRecord → M W Unit) where
  unfoldable pub write_rows : List StringRecord → M W Unit
  write_rows [] = pure tt
  write_rows (row ∷ rows) = do written ← write_record row; write_rows rows

  unfoldable pub write_chunk : Bool → Chunk → M W Unit
  unfolding write_rows
  write_chunk headers_written c = do
    written ← if not headers_written then write_record c.shared.out_headers else pure tt
    write_rows c.rows

  -- The loop over the messages that arrive before the channel is closed, with what follows it. A
  -- message after the end of the stream is not read.
  unfoldable pub write_loop : Bool → List Message → M W Unit
  unfolding write_chunk
  write_loop headers_written [] = raise no_end_of_stream
  write_loop headers_written (chunk c ∷ messages) = do
    written ← write_chunk headers_written c
    write_loop true messages
  write_loop headers_written (end_of_stream ∷ messages) =
      if headers_written then pure tt else lift panicked

  unfoldable pub write_csv_to_stdout : List Message → M W Unit
  unfolding write_loop
  write_csv_to_stdout messages = write_loop false messages

module _ {W : Type 0} (geocoder : Geocoder W) (max_retries : ℕ) where
  unfoldable pub geocode_message : Message → M (Timed W) Message
  unfolding geocode_chunk
  geocode_message (chunk c) = do c' ← geocode_chunk geocoder max_retries c; pure (chunk c')
  geocode_message end_of_stream = pure end_of_stream

-- The loop over `stream.next()`: the futures' results, in the order of the messages.
module _ {V : Type 0} (geocode : Message → M V Message) (send : Message → M V Unit) where
  unfoldable pub forward_messages : List Message → M V Unit
  forward_messages [] = pure tt
  forward_messages (message ∷ messages) = do
    result ← geocode message
    sent ← send result
    forward_messages messages

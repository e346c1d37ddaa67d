-- ===== src/Pipeline/Threads.antt =====
-- src/pipeline.rs: the three concurrent parts of `geocode_stdio` as a step relation: the thread that
-- reads, the loop that geocodes up to CONCURRENCY messages at a time, and the thread that writes, with
-- the two bounded channels between them. The steps of the parts interleave in any order.
--
-- tokio and futures give the channels and `buffered`. A channel takes a message while it holds fewer
-- than CHANNEL_BUFFER; `send` waits otherwise, and fails once the receiver is dropped, which a part
-- does when it returns. `buffered` takes a message while it has fewer than CONCURRENCY futures,
-- resolved or not, and gives their results in the order of the messages. The futures move only while
-- the loop waits for the next result.
pub mod Progress
pub mod Bounded
pub mod Order
pub mod Written
pub mod Panics
pub mod Geocoded
pub mod Finishes
pub mod Turns
pub mod Sequential
use geocode_csv.Base.{ℕ, suc, ◌<◌, ◌≡◌, Bool, true, false, List, [], ◌∷◌, ◌++◌, length}
use geocode_csv.Base.Outcome.{
  Outcome, ok, err, panicked, external, channel_closed, no_end_of_stream,
}
use geocode_csv.Addresses.Columns.{StringRecord}
use geocode_csv.Pipeline.ChunkCount.{channel_buffer, concurrency}
use geocode_csv.Pipeline.Read.{Message, chunk, end_of_stream}
use geocode_csv.Pipeline.Write.{write_chunk}
use geocode_csv.Pipeline.Write.Laws.{take_record}

-- `read_csv_from_stdin`: what it has yet to send; the message that it is sending, and what comes
-- after it; or what it returned.
pub data Reader : Type 0 where
  reading : List Message → Reader
  sending : Message → List Message → Reader
  read_result : Outcome (Unit {0}) → Reader

-- `geocode_message` on a message, or its result. The message stays beside the result, for the
-- statements only.
pub data Future : Type 0 where
  pending : Message → Future
  resolved : Message → Outcome Message → Future

-- The loop of `geocode_fut`: at `stream.next()`, with the futures of the stream; at `out_tx.send`,
-- with the message it was made from, what it sends and the futures; or what it returned.
pub data Forwarder : Type 0 where
  waiting : List Future → Forwarder
  forwarding : Message → Message → List Future → Forwarder
  geocode_result : Outcome (Unit {0}) → Forwarder

-- `write_csv_to_stdout`, with `headers_written`: at `rx.next()`, with a message, or what it returned.
pub data Writer : Type 0 where
  receiving : Bool → Writer
  writing : Message → Bool → Writer
  write_result : Outcome (Unit {0}) → Writer

-- `received` is every message that the writer has taken, for the statements only.
pub record Threads : Type 0 where
  pub reader : Reader
  pub in_channel : List Message
  pub forwarder : Forwarder
  pub out_channel : List Message
  pub writer : Writer
  pub written : List StringRecord
  pub received : List Message

-- A receiver that is not dropped.
abbrev pub InOpen : Forwarder → Type 0
InOpen (waiting futures) = Unit
InOpen (forwarding from message futures) = Unit
InOpen (geocode_result r) = ⊥

abbrev pub OutOpen : Writer → Type 0
OutOpen (receiving headers_written) = Unit
OutOpen (writing message headers_written) = Unit
OutOpen (write_result r) = ⊥

-- A future resolves, between the others. A panic unwinds through the loop.
abbrev pub resolve : List Future → Message → Outcome Message → List Future → Forwarder
resolve before message (ok result) after =
    waiting (before ++ (resolved message (ok result) ∷ after))
resolve before message (err e) after = waiting (before ++ (resolved message (err e) ∷ after))
resolve before message panicked after = geocode_result panicked

-- `result?`
abbrev pub next_result : Message → Outcome Message → List Future → Forwarder
next_result message (ok result) futures = forwarding message result futures
next_result message (err e) futures = geocode_result (err e)
next_result message panicked futures = geocode_result panicked

-- The body of the writer's loop.
unfoldable pub write_message : Message → Bool → List StringRecord → Writer × List StringRecord
unfolding write_chunk
write_message (chunk c) headers_written taken =
    (receiving true, (write_chunk take_record headers_written c taken).1)
write_message end_of_stream true taken = (write_result (ok tt), taken)
write_message end_of_stream false taken = (write_result panicked, taken)

-- `Gives message r`: geocoding the message may come to `r`. The reader returns `read_ends` if all its
-- messages are taken.
module _ (Gives : Message → Outcome Message → Type 0) (read_ends : Outcome (Unit {0})) where
  pub data Step (s : Threads) : Threads → Type 0 where
    make :
        {message : Message} {messages : List Message}
        → s.reader ≡ reading (message ∷ messages)
        → Step s (record s { reader = sending message messages })
    send_in :
        {message : Message} {messages : List Message}
        → s.reader ≡ sending message messages
        → InOpen s.forwarder
        → length s.in_channel < channel_buffer
        → Step s
            (record s { reader = reading messages; in_channel = s.in_channel ++ (message ∷ []) })
    send_in_fails :
        {message : Message} {messages : List Message} {r : Outcome (Unit {0})}
        → s.reader ≡ sending message messages
        → s.forwarder ≡ geocode_result r
        → Step s (record s { reader = read_result (err channel_closed) })
    stop_reading : s.reader ≡ reading [] → Step s (record s { reader = read_result read_ends })
    pull :
        {message : Message} {messages : List Message} {futures : List Future}
        → s.forwarder ≡ waiting futures
        → s.in_channel ≡ message ∷ messages
        → length futures < concurrency
        → Step s (record s {
          in_channel = messages;
          forwarder = waiting (futures ++ (pending message ∷ []));
        })
    geocode :
        {message : Message} (before after : List Future) (r : Outcome Message)
        → s.forwarder ≡ waiting (before ++ (pending message ∷ after))
        → Gives message r
        → Step s (record s { forwarder = resolve before message r after })
    next :
        {message : Message} {r : Outcome Message} {futures : List Future}
        → s.forwarder ≡ waiting (resolved message r ∷ futures)
        → Step s (record s { forwarder = next_result message r futures })
    send_out :
        {from message : Message} {futures : List Future}
        → s.forwarder ≡ forwarding from message futures
        → OutOpen s.writer
        → length s.out_channel < channel_buffer
        → Step s (record s {
          forwarder = waiting futures;
          out_channel = s.out_channel ++ (message ∷ []);
        })
    send_out_fails :
        {from message : Message} {futures : List Future} {r : Outcome (Unit {0})}
        → s.forwarder ≡ forwarding from message futures
        → s.writer ≡ write_result r
        → Step s (record s { forwarder = geocode_result (err channel_closed) })
    stop_geocoding :
        {r : Outcome (Unit {0})}
        → s.forwarder ≡ waiting []
        → s.in_channel ≡ []
        → s.reader ≡ read_result r
        → Step s (record s { forwarder = geocode_result (ok tt) })
    receive :
        {message : Message} {messages : List Message} {headers_written : Bool}
        → s.writer ≡ receiving headers_written
        → s.out_channel ≡ message ∷ messages
        → Step s (record s {
          out_channel = messages;
          writer = writing message headers_written;
          received = s.received ++ (message ∷ []);
        })
    write :
        {message : Message} {headers_written : Bool}
        → s.writer ≡ writing message headers_written
        → Step s (record s {
          writer = (write_message message headers_written s.written).0;
          written = (write_message message headers_written s.written).1;
        })
    write_fails :
        {message : Message} {headers_written : Bool} (e : ℕ) (so_far : List StringRecord)
        → s.writer ≡ writing message headers_written
        → Step s (record s { writer = write_result (err (external e)); written = so_far })
    stop_writing :
        {headers_written : Bool} {r : Outcome (Unit {0})}
        → s.writer ≡ receiving headers_written
        → s.out_channel ≡ []
        → s.forwarder ≡ geocode_result r
        → Step s (record s { writer = write_result (err no_end_of_stream) })

  -- A run of some number of steps.
  pub data Run (s : Threads) : ℕ → Threads → Type 0 where
    begin : Run s 0 s
    later : {n : ℕ} {t u : Threads} → Run s n t → Step t u → Run s (suc n) u

abbrev pub start : List Message → Threads
start messages = record {
  reader = reading messages;
  in_channel = [];
  forwarder = waiting [];
  out_channel = [];
  writer = receiving false;
  written = [];
  received = [];
}

-- `join3` is done.
abbrev pub IsDone : Threads → Type 0
IsDone s =
    (read write geocoded : Outcome (Unit {0})) × (s.reader ≡ read_result read)
    × (s.forwarder ≡ geocode_result geocoded)
    × (s.writer ≡ write_result write)

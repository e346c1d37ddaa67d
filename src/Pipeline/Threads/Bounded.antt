-- ===== src/Pipeline/Threads/Bounded.antt =====
-- src/pipeline.rs: the bounds on the channels and the futures of `geocode_stdio`, and the number of
-- chunks that exist when the reader makes another: `Chunk::new` does not panic.
use geocode_csv.Base.{
  ℕ, ◌+◌, ◌≤◌, ◌<◌, ◌≡◌, ap, false, List, [], ◌∷◌, ◌++◌, length, length-append, arith,
}
use geocode_csv.Base.Outcome.{Outcome, ok, err, panicked}
use geocode_csv.Pipeline.ChunkCount.{channel_buffer, concurrency, new_chunk}
use geocode_csv.Pipeline.ChunkCount.Steps.{counted, counted-makes}
use geocode_csv.Pipeline.Read.{Message}
use geocode_csv.Pipeline.Threads.{
  Reader, reading, sending, read_result, Future, pending, resolved, Forwarder, waiting, forwarding,
  geocode_result, Writer, receiving, writing, write_result, Threads, resolve, next_result, Step,
  Run, start,
}
use geocode_csv.Pipeline.Threads.Step.{
  make, send_in, send_in_fails, stop_reading, pull, geocode, next, send_out, send_out_fails,
  stop_geocoding, receive, write, write_fails, stop_writing,
}
use geocode_csv.Pipeline.Threads.Run.{begin, later}

-- The messages that each part holds.
abbrev pub reader_holds : Reader → ℕ
reader_holds (reading messages) = 0
reader_holds (sending message messages) = 1
reader_holds (read_result r) = 0

abbrev pub futures_of : Forwarder → List Future
futures_of (waiting futures) = futures
futures_of (forwarding from message futures) = futures
futures_of (geocode_result r) = []

abbrev pub forwarder_holds : Forwarder → ℕ
forwarder_holds (waiting futures) = length futures
forwarder_holds (forwarding from message futures) = length futures + 1
forwarder_holds (geocode_result r) = 0

abbrev pub writer_holds : Writer → ℕ
writer_holds (receiving headers_written) = 0
writer_holds (writing message headers_written) = 1
writer_holds (write_result r) = 0

-- The messages in the pipeline: at least as many as the chunks that exist.
abbrev pub in_pipeline : Threads → ℕ
in_pipeline s =
    reader_holds s.reader
    + length s.in_channel
    + forwarder_holds s.forwarder
    + length s.out_channel
    + writer_holds s.writer

abbrev pub IsBounded : Threads → Type 0
IsBounded s =
    (length s.in_channel ≤ channel_buffer)
    × (length (futures_of s.forwarder) ≤ concurrency)
    × (length s.out_channel ≤ channel_buffer)

length-resolve :
    (before after : List Future) (message : Message) (r : Outcome Message) (f : Forwarder)
    → f ≡ waiting (before ++ (pending message ∷ after))
    → length (futures_of f) ≤ concurrency
    → length (futures_of (resolve before message r after)) ≤ concurrency
length-resolve before after message (ok m) f e h = omega (
  arith,
  ap (λ g. length (futures_of g)) e,
  length-append before (pending message ∷ after),
  length-append before (resolved message (ok m) ∷ after),
)
length-resolve before after message (err x) f e h = omega (
  arith,
  ap (λ g. length (futures_of g)) e,
  length-append before (pending message ∷ after),
  length-append before (resolved message (err x) ∷ after),
)
length-resolve before after message panicked f e h = omega arith

length-next_result :
    (futures : List Future) (message : Message) (r : Outcome Message)
    → length futures < concurrency
    → length (futures_of (next_result message r futures)) ≤ concurrency
length-next_result futures message (ok m) h = omega arith
length-next_result futures message (err x) h = omega arith
length-next_result futures message panicked h = omega arith

module _ (Gives : Message → Outcome Message → Type 0) (read_ends : Outcome (Unit {0})) where
  Step-IsBounded : {s t : Threads} → Step Gives read_ends s t → IsBounded s → IsBounded t
  Step-IsBounded (make r) b = b
  Step-IsBounded {s} (send_in {message} r f room) (i, p, o) =
      (omega (arith, length-append s.in_channel (message ∷ [])), p, o)
  Step-IsBounded (send_in_fails r f) b = b
  Step-IsBounded (stop_reading r) b = b
  Step-IsBounded {s} (pull {message = message} {futures = futures} f c room) (i, p, o) =
      (omega (arith, ap length c), omega (arith, length-append futures (pending message ∷ [])), o)
  Step-IsBounded {s} (geocode {message} before after r f g) (i, p, o) =
      (i, length-resolve before after message r s.forwarder f p, o)
  Step-IsBounded {s} (next {message} {r} {futures} f) (i, p, o) = (
    i,
    length-next_result futures message r (omega (arith, ap (λ g. length (futures_of g)) f)),
    o,
  )
  Step-IsBounded {s} (send_out {message = message} f w room) (i, p, o) = (
    i,
    omega (arith, ap (λ g. length (futures_of g)) f),
    omega (arith, length-append s.out_channel (message ∷ [])),
  )
  Step-IsBounded (send_out_fails f w) (i, p, o) = (i, omega arith, o)
  Step-IsBounded (stop_geocoding f c r) (i, p, o) = (i, omega arith, o)
  Step-IsBounded {s} (receive w c) (i, p, o) = (i, p, omega (arith, ap length c))
  Step-IsBounded (write w) b = b
  Step-IsBounded (write_fails e so_far w) b = b
  Step-IsBounded (stop_writing w c f) b = b

  Run-IsBounded :
      (messages : List Message) {n : ℕ} {s : Threads}
      → Run Gives read_ends (start messages) n s
      → IsBounded s
  Run-IsBounded messages begin = (omega arith, omega arith, omega arith)
  Run-IsBounded messages (later run step) = Step-IsBounded step (Run-IsBounded messages run)

forwarder_holds-le : (f : Forwarder) → forwarder_holds f ≤ length (futures_of f) + 1
forwarder_holds-le (waiting futures) = omega arith
forwarder_holds-le (forwarding from message futures) = omega arith
forwarder_holds-le (geocode_result r) = omega arith

writer_holds-le : (w : Writer) → writer_holds w ≤ 1
writer_holds-le (receiving b) = omega arith
writer_holds-le (writing message b) = omega arith
writer_holds-le (write_result r) = omega arith

module _ (Gives : Message → Outcome Message → Type 0) (read_ends : Outcome (Unit {0})) where
  -- In a state that a run can reach, each channel holds at most 8 messages and `buffered` at most 48
  -- futures. If the reader is about to make a message there, then at most 66 messages are in the
  -- pipeline, and `Chunk::new` does not panic, whatever number of these are chunks that exist.
  pub Run-new_chunk :
      (messages : List Message) {n : ℕ} {s : Threads} (unread : List Message) (alive : ℕ)
      → Run Gives read_ends (start messages) n s
      → s.reader ≡ reading unread
      → alive ≤ in_pipeline s
      → IsBounded s × (in_pipeline s ≤ 66) × ((new_chunk (counted alive false)).0 ≡ ok tt)
  Run-new_chunk messages {s = s} unread alive run e h =
      let (i, p, o) = Run-IsBounded Gives read_ends messages run in
      let few : in_pipeline s ≤ 66 =
        omega
          (arith, ap reader_holds e, forwarder_holds-le s.forwarder, writer_holds-le s.writer) in
      ((i, p, o), few, (counted-makes alive).1 (omega arith))

-- ===== src/Pipeline/Threads/Panics.antt =====
-- src/pipeline.rs: where no geocoding of a message of the file panics, neither the reader nor the
-- geocoding loop of `geocode_stdio` ends with a panic.
use geocode_csv.Base.{ℕ, ◌≡◌, List, ◌∷◌, ◌++◌, All, All-of-append}
use geocode_csv.Base.Outcome.{Outcome, ok, err, panicked, Ensures}
use geocode_csv.Pipeline.Read.{Message}
use geocode_csv.Pipeline.Threads.{
  Reader, reading, sending, read_result, Future, pending, resolved, Forwarder, waiting, forwarding,
  geocode_result, Threads, resolve, next_result, Step, Run, start,
}
use geocode_csv.Pipeline.Threads.Step.{
  make, send_in, send_in_fails, stop_reading, pull, geocode, next, send_out, send_out_fails,
  stop_geocoding, receive, write, write_fails, stop_writing,
}
use geocode_csv.Pipeline.Threads.Run.{begin, later}
use geocode_csv.Pipeline.Threads.Order.{originals, originals-append, unsent, Flows, Remaining}
use geocode_csv.Pipeline.Threads.Order.Steps.{Run-Flows}

abbrev pub Returns : Outcome (Unit {0}) → Type 0
Returns r = Ensures (λ u. Unit) r

abbrev pub ReaderReturns : Reader → Type 0
ReaderReturns (reading messages) = Unit
ReaderReturns (sending message messages) = Unit
ReaderReturns (read_result r) = Returns r

abbrev pub ForwarderReturns : Forwarder → Type 0
ForwarderReturns (waiting futures) = Unit
ForwarderReturns (forwarding from message futures) = Unit
ForwarderReturns (geocode_result r) = Returns r

module _ (Gives : Message → Outcome Message → Type 0) (read_ends : Outcome (Unit {0})) where
  -- No geocoding of the message panics.
  abbrev pub IsQuiet : Message → Type 0
  IsQuiet message = (r : Outcome Message) → Gives message r → Ensures (λ m. Unit) r

  resolve-returns :
      (before after : List Future) (message : Message) (r : Outcome Message)
      → Ensures (λ m. Unit) r
      → ForwarderReturns (resolve before message r after)
  resolve-returns before after message (ok m) h = tt
  resolve-returns before after message (err e) h = tt
  resolve-returns before after message panicked h = h

  next_result-returns :
      (futures : List Future) (message : Message) (r : Outcome Message)
      → Ensures (λ m. Unit) r
      → ForwarderReturns (next_result message r futures)
  next_result-returns futures message (ok m) h = tt
  next_result-returns futures message (err e) h = tt
  next_result-returns futures message panicked h = h

  module _ {messages : List Message} (quiet : All IsQuiet messages) where
    -- The messages of the loop's futures are messages of the file.
    futures-IsQuiet :
        (s : Threads) (futures : List Future)
        → Flows Gives read_ends messages s
        → s.forwarder ≡ waiting futures
        → All IsQuiet (originals futures)
    futures-IsQuiet s futures (done, rest, e, res, rem) f =
        let (left, g, r) : Remaining Gives read_ends (waiting futures) s.reader s.in_channel rest =
          rw f at rem in
        let (before, after) = All-of-append IsQuiet done rest (rw e at quiet) in
        (All-of-append IsQuiet (originals futures) (s.in_channel ++ unsent s.reader)
          (rw left at after)).0

    resolved-Ensures :
        (s : Threads) (message : Message) (r : Outcome Message) (futures : List Future)
        → Flows Gives read_ends messages s
        → s.forwarder ≡ waiting (resolved message r ∷ futures)
        → Ensures (λ m. Unit) r
    resolved-Ensures s message r futures (done, rest, e, res, rem) f =
        let (left, g, o) : Remaining Gives read_ends (waiting (resolved message r ∷ futures))
            s.reader s.in_channel rest =
          rw f at rem in
        (futures-IsQuiet s (resolved message r ∷ futures) (done, rest, e, res, rem) f).0 r g.0

    pending-Ensures :
        (s : Threads) (before after : List Future) (message : Message) (r : Outcome Message)
        → Flows Gives read_ends messages s
        → s.forwarder ≡ waiting (before ++ (pending message ∷ after))
        → Gives message r
        → Ensures (λ m. Unit) r
    pending-Ensures s before after message r flows f given =
        (All-of-append IsQuiet (originals before) (message ∷ originals after) (
            rw (originals-append before (pending message ∷ after)) at
              (futures-IsQuiet s (before ++ (pending message ∷ after)) flows f))).1.0
          r given

    Step-Returns :
        {s t : Threads}
        → Step Gives read_ends s t
        → Returns read_ends
        → Flows Gives read_ends messages s
        → ReaderReturns s.reader × ForwarderReturns s.forwarder
        → ReaderReturns t.reader × ForwarderReturns t.forwarder
    Step-Returns (make r) ends flows (h, k) = (tt, k)
    Step-Returns (send_in r o room) ends flows (h, k) = (tt, k)
    Step-Returns (send_in_fails r f) ends flows (h, k) = (tt, k)
    Step-Returns (stop_reading r) ends flows (h, k) = (ends, k)
    Step-Returns (pull f c room) ends flows (h, k) = (h, tt)
    Step-Returns {s} (geocode {message} before after r f given) ends flows (h, k) = (
      h,
      resolve-returns before after message r
          (pending-Ensures s before after message r flows f given),
    )
    Step-Returns {s} (next {message} {r} {futures} f) ends flows (h, k) =
        (h, next_result-returns futures message r (resolved-Ensures s message r futures flows f))
    Step-Returns (send_out f w room) ends flows (h, k) = (h, tt)
    Step-Returns (send_out_fails f w) ends flows (h, k) = (h, tt)
    Step-Returns (stop_geocoding f c r) ends flows (h, k) = (h, tt)
    Step-Returns (receive w c) ends flows h = h
    Step-Returns (write w) ends flows h = h
    Step-Returns (write_fails e so_far w) ends flows h = h
    Step-Returns (stop_writing w c f) ends flows h = h

  pub Run-Returns :
      (messages : List Message) {n : ℕ} {s : Threads}
      → All IsQuiet messages
      → Returns read_ends
      → Run Gives read_ends (start messages) n s
      → ReaderReturns s.reader × ForwarderReturns s.forwarder
  Run-Returns messages quiet ends begin = (tt, tt)
  Run-Returns messages quiet ends (later run step) =
      Step-Returns quiet step ends (Run-Flows Gives read_ends messages run)
        (Run-Returns messages quiet ends run)

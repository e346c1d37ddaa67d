-- ===== src/Pipeline/Threads/Progress.antt =====
-- src/pipeline.rs: no deadlock and no endless run of the three parts of `geocode_stdio`.
use geocode_csv.Base.{
  ℕ, ◌+◌, ◌*◌, ◌≤◌, ◌<◌, ◌≡◌, refl, ap, ◌⊎◌, inl, inr, Bool, true, false, List, [], ◌∷◌, ◌++◌,
  length, length-append, arith,
}
use geocode_csv.Base.Outcome.{Outcome, ok, err, panicked}
use geocode_csv.Pipeline.Read.{Message, chunk, end_of_stream}
use geocode_csv.Pipeline.Threads.{
  Reader, reading, sending, read_result, Future, pending, resolved, Forwarder, waiting, forwarding,
  geocode_result, Writer, receiving, writing, write_result, Threads, resolve, next_result,
  write_message, Step, Run, start, IsDone,
}
use geocode_csv.Pipeline.Threads.Step.{
  make, send_in, send_in_fails, stop_reading, pull, geocode, next, send_out, send_out_fails,
  stop_geocoding, receive, write, write_fails, stop_writing,
}
use geocode_csv.Pipeline.Threads.Run.{begin, later}

-- What is left to do: eight steps for a message that is not made yet, and one less from each stage
-- to the next; one for each part that has not returned.
abbrev pub reader_work : Reader → ℕ
reader_work (reading messages) = 8 * length messages + 1
reader_work (sending message messages) = 8 * length messages + 8
reader_work (read_result r) = 0

abbrev pub future_work : List Future → ℕ
future_work [] = 0
future_work (pending message ∷ futures) = 5 + future_work futures
future_work (resolved message r ∷ futures) = 4 + future_work futures

abbrev pub forwarder_work : Forwarder → ℕ
forwarder_work (waiting futures) = future_work futures + 1
forwarder_work (forwarding from message futures) = future_work futures + 4
forwarder_work (geocode_result r) = 0

abbrev pub writer_work : Writer → ℕ
writer_work (receiving headers_written) = 1
writer_work (writing message headers_written) = 2
writer_work (write_result r) = 0

abbrev pub work : Threads → ℕ
work s =
    reader_work s.reader
    + 6 * length s.in_channel
    + forwarder_work s.forwarder
    + 2 * length s.out_channel
    + writer_work s.writer

future_work-append :
    (before after : List Future)
    → future_work (before ++ after) ≡ future_work before + future_work after
future_work-append [] after = omega arith
future_work-append (pending message ∷ before) after = omega (arith, future_work-append before after)
future_work-append (resolved message r ∷ before) after =
    omega (arith, future_work-append before after)

resolve-work :
    (before after : List Future) (message : Message) (r : Outcome Message)
    → forwarder_work (resolve before message r after)
      < forwarder_work (waiting (before ++ (pending message ∷ after)))
resolve-work before after message (ok m) = omega (
  arith,
  future_work-append before (pending message ∷ after),
  future_work-append before (resolved message (ok m) ∷ after),
)
resolve-work before after message (err e) = omega (
  arith,
  future_work-append before (pending message ∷ after),
  future_work-append before (resolved message (err e) ∷ after),
)
resolve-work before after message panicked =
    omega (arith, future_work-append before (pending message ∷ after))

next_result-work :
    (message : Message) (r : Outcome Message) (futures : List Future)
    → forwarder_work (next_result message r futures)
      < forwarder_work (waiting (resolved message r ∷ futures))
next_result-work message (ok m) futures = omega arith
next_result-work message (err e) futures = omega arith
next_result-work message panicked futures = omega arith

write_message-work :
    (message : Message) (b : Bool) (taken : _) → writer_work (write_message message b taken).0 < 2
unfolding write_message
write_message-work (chunk c) b taken = omega arith
write_message-work end_of_stream true taken = omega arith
write_message-work end_of_stream false taken = omega arith

module _ (Gives : Message → Outcome Message → Type 0) (read_ends : Outcome (Unit {0})) where
  Step-works : {s t : Threads} → Step Gives read_ends s t → work t < work s
  Step-works {s} (make r) = omega (arith, ap reader_work r)
  Step-works {s} (send_in {message} r f room) =
      omega (arith, ap reader_work r, length-append s.in_channel (message ∷ []))
  Step-works {s} (send_in_fails r f) = omega (arith, ap reader_work r)
  Step-works {s} (stop_reading r) = omega (arith, ap reader_work r)
  Step-works {s} (pull {message = message} {futures = futures} f c room) =
      omega
        (arith, ap forwarder_work f, ap length c, future_work-append futures (pending message ∷ []))
  Step-works {s} (geocode {message = message} before after r f g) =
      omega (arith, ap forwarder_work f, resolve-work before after message r)
  Step-works {s} (next {message} {r} {futures} f) =
      omega (arith, ap forwarder_work f, next_result-work message r futures)
  Step-works {s} (send_out {message = message} f w room) =
      omega (arith, ap forwarder_work f, length-append s.out_channel (message ∷ []))
  Step-works {s} (send_out_fails f w) = omega (arith, ap forwarder_work f)
  Step-works {s} (stop_geocoding f c r) = omega (arith, ap forwarder_work f)
  Step-works {s} (receive w c) = omega (arith, ap writer_work w, ap length c)
  Step-works {s} (write {message} {headers_written} w) =
      omega (arith, ap writer_work w, write_message-work message headers_written s.written)
  Step-works {s} (write_fails e so_far w) = omega (arith, ap writer_work w)
  Step-works {s} (stop_writing w c f) = omega (arith, ap writer_work w)

  Run-works : {s : Threads} {n : ℕ} {t : Threads} → Run Gives read_ends s n t → n + work t ≤ work s
  Run-works begin = omega arith
  Run-works (later run step) = omega (arith, Run-works run, Step-works step)

  abbrev Moves : Threads → Type 0
  Moves s = (t : Threads) × Step Gives read_ends s t

  module _ (gives : (message : Message) → (r : Outcome Message) × Gives message r)
      (s : Threads) where
    waiting-Moves :
        (futures : List Future) (messages : List Message) (reader : Reader)
        → s.forwarder ≡ waiting futures
        → s.in_channel ≡ messages
        → s.reader ≡ reader
        → Moves s
    waiting-Moves (pending message ∷ futures) messages reader f c r =
        (_, geocode [] futures (gives message).0 f (gives message).1)
    waiting-Moves (resolved message result ∷ futures) messages reader f c r = (_, next f)
    waiting-Moves [] (message ∷ messages) reader f c r = (_, pull f c (omega arith))
    waiting-Moves [] [] (reading []) f c r = (_, stop_reading r)
    waiting-Moves [] [] (reading (message ∷ messages)) f c r = (_, make r)
    waiting-Moves [] [] (sending message messages) f c r =
        (_, send_in r (rw f tt) (omega (arith, ap length c)))
    waiting-Moves [] [] (read_result result) f c r = (_, stop_geocoding f c r)

    closed-Moves :
        {geocoded written : Outcome (Unit {0})} (reader : Reader)
        → s.forwarder ≡ geocode_result geocoded
        → s.writer ≡ write_result written
        → s.reader ≡ reader
        → IsDone s ⊎ Moves s
    closed-Moves (reading []) f w r = inr (_, stop_reading r)
    closed-Moves (reading (message ∷ messages)) f w r = inr (_, make r)
    closed-Moves (sending message messages) f w r = inr (_, send_in_fails r f)
    closed-Moves (read_result result) f w r = inl (result, _, _, r, f, w)

    moves :
        (writer : Writer) (messages : List Message) (forwarder : Forwarder)
        → s.writer ≡ writer
        → s.out_channel ≡ messages
        → s.forwarder ≡ forwarder
        → IsDone s ⊎ Moves s
    moves (writing message b) messages forwarder w c f = inr (_, write w)
    moves (receiving b) (message ∷ messages) forwarder w c f = inr (_, receive w c)
    moves (receiving b) [] (geocode_result r) w c f = inr (_, stop_writing w c f)
    moves (receiving b) [] (forwarding from message futures) w c f =
        inr (_, send_out f (rw w tt) (omega (arith, ap length c)))
    moves (receiving b) [] (waiting futures) w c f =
        inr (waiting-Moves futures s.in_channel s.reader f refl refl)
    moves (write_result r) messages (waiting futures) w c f =
        inr (waiting-Moves futures s.in_channel s.reader f refl refl)
    moves (write_result r) messages (forwarding from message futures) w c f =
        inr (_, send_out_fails f w)
    moves (write_result r) messages (geocode_result g) w c f = closed-Moves s.reader f w refl

  -- Where geocoding any message comes to something, from any list of messages: a run of n steps has
  -- at most eight steps for each message and three more, and in the state that it leads to either
  -- all three parts have returned or a part can take a step. So the parts never wait for each other
  -- for ever, and every run that goes on while it can ends with all three returned.
  pub Run-ends :
      (messages : List Message) {n : ℕ} {s : Threads}
      → ((message : Message) → (r : Outcome Message) × Gives message r)
      → Run Gives read_ends (start messages) n s
      → (n ≤ 8 * length messages + 3) × (IsDone s ⊎ ((t : Threads) × Step Gives read_ends s t))
  Run-ends messages {s = s} gives run = (
    omega (arith, Run-works run),
    moves gives s s.writer s.out_channel s.forwarder refl refl refl,
  )

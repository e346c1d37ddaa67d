-- ===== src/Pipeline/Threads/Order/Steps.antt =====
-- src/pipeline.rs: each step of the concurrent parts of `geocode_stdio` keeps the order of messages.
use geocode_csv.Base.{ℕ, ◌≡◌, refl, sym, ap, ◌∙◌, List, [], ◌∷◌, ◌++◌, append_assoc}
use geocode_csv.Base.Outcome.{Outcome, ok, err, panicked}
use geocode_csv.Pipeline.Read.{Message}
use geocode_csv.Pipeline.Threads.{
  Reader, reading, sending, read_result, Future, pending, resolved, Forwarder, waiting, forwarding,
  geocode_result, Threads, resolve, next_result, Step, Run, start, InOpen,
}
use geocode_csv.Pipeline.Threads.Step.{
  make, send_in, send_in_fails, stop_reading, pull, geocode, next, send_out, send_out_fails,
  stop_geocoding, receive, write, write_fails, stop_writing,
}
use geocode_csv.Pipeline.Threads.Run.{begin, later}
use geocode_csv.Pipeline.Threads.Order.{
  originals, unsent, originals-append, Results, Results-append, FuturesGiven-pending,
  FuturesGiven-resolved, Remaining, Flows,
}

module _ (Gives : Message → Outcome Message → Type 0) (read_ends : Outcome (Unit {0})) where
  module _ (cin rest : List Message) where
    make-Remaining :
        (f : Forwarder) (m : Message) (ms : List Message)
        → Remaining Gives read_ends f (reading (m ∷ ms)) cin rest
        → Remaining Gives read_ends f (sending m ms) cin rest
    make-Remaining (waiting futures) m ms h = h
    make-Remaining (forwarding from message futures) m ms h = h
    make-Remaining (geocode_result (ok r)) m ms (e, k) = absurd (cc)
    make-Remaining (geocode_result (err e)) m ms h = tt
    make-Remaining (geocode_result panicked) m ms h = tt

    send_in-Remaining :
        (f : Forwarder) (m : Message) (ms : List Message)
        → InOpen f
        → Remaining Gives read_ends f (sending m ms) cin rest
        → Remaining Gives read_ends f (reading ms) (cin ++ (m ∷ [])) rest
    send_in-Remaining (waiting futures) m ms o (e, g, r) =
        (e ∙ ap (λ l. originals futures ++ l) (sym (append_assoc cin (m ∷ []) ms)), g, tt)
    send_in-Remaining (forwarding from message futures) m ms o (e, g, r, k) = (
      e ∙ ap (λ l. from ∷ (originals futures ++ l)) (sym (append_assoc cin (m ∷ []) ms)),
      g,
      tt,
      k,
    )
    send_in-Remaining (geocode_result r) m ms o h = absurd o

    send_in_fails-Remaining :
        (r q : Outcome (Unit {0})) (m : Message) (ms : List Message)
        → Remaining Gives read_ends (geocode_result r) (sending m ms) cin rest
        → Remaining Gives read_ends (geocode_result r) (read_result q) cin rest
    send_in_fails-Remaining (ok r) q m ms (e, k) = absurd (cc)
    send_in_fails-Remaining (err e) q m ms h = tt
    send_in_fails-Remaining panicked q m ms h = tt

    stop_reading-Remaining :
        (f : Forwarder)
        → Remaining Gives read_ends f (reading []) cin rest
        → Remaining Gives read_ends f (read_result read_ends) cin rest
    stop_reading-Remaining (waiting futures) (e, g, r) = (e, g, refl)
    stop_reading-Remaining (forwarding from message futures) (e, g, r, k) = (e, g, refl, k)
    stop_reading-Remaining (geocode_result (ok r)) (e, k) = absurd (cc)
    stop_reading-Remaining (geocode_result (err e)) h = tt
    stop_reading-Remaining (geocode_result panicked) h = tt

    pull-Remaining :
        (futures : List Future) (m : Message) (reader : Reader)
        → Remaining Gives read_ends (waiting futures) reader (m ∷ cin) rest
        → Remaining Gives read_ends (waiting (futures ++ (pending m ∷ []))) reader cin rest
    pull-Remaining futures m reader (e, g, r) = (
      e
          ∙ sym (append_assoc (originals futures) (m ∷ []) (cin ++ unsent reader))
          ∙ ap (λ l. l ++ (cin ++ unsent reader)) (sym (originals-append futures (pending m ∷ []))),
      FuturesGiven-pending Gives read_ends futures m g,
      r,
    )

    resolved-Remaining :
        (before after : List Future) (m : Message) (q : Outcome Message) (reader : Reader)
        → Gives m q
        → Remaining Gives read_ends (waiting (before ++ (pending m ∷ after))) reader cin rest
        → Remaining Gives read_ends (waiting (before ++ (resolved m q ∷ after))) reader cin rest
    resolved-Remaining before after m q reader given (e, g, r) = (
      e
          ∙ ap (λ l. l ++ (cin ++ unsent reader))
              (originals-append before (pending m ∷ after)
                ∙ sym (originals-append before (resolved m q ∷ after))),
      FuturesGiven-resolved Gives read_ends before after m q given g,
      r,
    )

    geocode-Remaining :
        (before after : List Future) (m : Message) (q : Outcome Message) (reader : Reader)
        → Gives m q
        → Remaining Gives read_ends (waiting (before ++ (pending m ∷ after))) reader cin rest
        → Remaining Gives read_ends (resolve before m q after) reader cin rest
    geocode-Remaining before after m (ok d) reader given h =
        resolved-Remaining before after m (ok d) reader given h
    geocode-Remaining before after m (err x) reader given h =
        resolved-Remaining before after m (err x) reader given h
    geocode-Remaining before after m panicked reader given h = tt

    next-Remaining :
        (futures : List Future) (m : Message) (q : Outcome Message) (reader : Reader)
        → Remaining Gives read_ends (waiting (resolved m q ∷ futures)) reader cin rest
        → Remaining Gives read_ends (next_result m q futures) reader cin rest
    next-Remaining futures m (ok d) reader (e, (given, g), r) = (e, g, r, given)
    next-Remaining futures m (err x) reader h = tt
    next-Remaining futures m panicked reader h = tt

  module _ {messages : List Message} where
    Step-Flows :
        {s t : Threads}
        → Step Gives read_ends s t
        → Flows Gives read_ends messages s
        → Flows Gives read_ends messages t
    Step-Flows {s} (make r) (done, rest, e, res, rem) =
        (done, rest, e, res, make-Remaining s.in_channel rest s.forwarder _ _ (rw r at rem))
    Step-Flows {s} (send_in r o room) (done, rest, e, res, rem) =
        (done, rest, e, res, send_in-Remaining s.in_channel rest s.forwarder _ _ o (rw r at rem))
    Step-Flows {s} (send_in_fails r f) (done, rest, e, res, rem) = (
      done,
      rest,
      e,
      res,
      rw f (send_in_fails-Remaining s.in_channel rest _ _ _ _ (rw (r, f) at rem)),
    )
    Step-Flows {s} (stop_reading r) (done, rest, e, res, rem) =
        (done, rest, e, res, stop_reading-Remaining s.in_channel rest s.forwarder (rw r at rem))
    Step-Flows {s} (pull {futures = futures} f c room) (done, rest, e, res, rem) =
        (done, rest, e, res, pull-Remaining _ rest futures _ s.reader (rw (f, c) at rem))
    Step-Flows {s} (geocode before after q f given) (done, rest, e, res, rem) = (
      done,
      rest,
      e,
      res,
      geocode-Remaining s.in_channel rest before after _ q s.reader given (rw f at rem),
    )
    Step-Flows {s} (next {r = q} {futures = futures} f) (done, rest, e, res, rem) =
        (done, rest, e, res, next-Remaining s.in_channel rest futures _ q s.reader (rw f at rem))
    Step-Flows {s} (send_out {from} {message} {futures} f w room) (done, rest, e, res, rem) =
        let (left, g, r, given) : Remaining Gives read_ends (forwarding from message futures)
            s.reader s.in_channel rest =
          rw f at rem in
        let rest' = originals futures ++ (s.in_channel ++ unsent s.reader) in
        (
          done ++ (from ∷ []),
          rest',
          e ∙ ap (λ l. done ++ l) left ∙ sym (append_assoc done (from ∷ []) rest'),
          rw (← append_assoc s.received s.out_channel (message ∷ [])) (
              Results-append Gives read_ends done (s.received ++ s.out_channel) from message res
                given),
          (refl, g, r),
        )
    Step-Flows (send_out_fails f w) (done, rest, e, res, rem) = (done, rest, e, res, tt)
    Step-Flows {s} (stop_geocoding f c r) (done, rest, e, res, rem) =
        let (left, g, ends) = rw (f, c, r) at rem in
        (done, rest, e, res, (left, r ∙ ap read_result ends))
    Step-Flows {s} (receive {message} {messages = later'} w c) (done, rest, e, res, rem) =
        (done, rest, e, rw (append_assoc s.received (message ∷ []) later') (rw c at res), rem)
    Step-Flows (write w) h = h
    Step-Flows (write_fails x so_far w) h = h
    Step-Flows (stop_writing w c f) h = h

  pub Run-Flows :
      (messages : List Message) {n : ℕ} {s : Threads}
      → Run Gives read_ends (start messages) n s
      → Flows Gives read_ends messages s
  Run-Flows messages begin = ([], messages, refl, tt, (refl, tt, tt))
  Run-Flows messages (later run step) = Step-Flows step (Run-Flows messages run)

  -- What is left once the loop has returned without an error.
  abbrev pub LeavesNone : Forwarder → List Message → Type 0
  LeavesNone (waiting futures) rest = Unit
  LeavesNone (forwarding from message futures) rest = Unit
  LeavesNone (geocode_result (ok u)) rest = rest ≡ []
  LeavesNone (geocode_result (err e)) rest = Unit
  LeavesNone (geocode_result panicked) rest = Unit

  leaves_none :
      (f : Forwarder) (reader : Reader) (cin rest : List Message)
      → Remaining Gives read_ends f reader cin rest
      → LeavesNone f rest
  leaves_none (waiting futures) reader cin rest h = tt
  leaves_none (forwarding from message futures) reader cin rest h = tt
  leaves_none (geocode_result (ok u)) reader cin rest (e, r) = e
  leaves_none (geocode_result (err e)) reader cin rest h = tt
  leaves_none (geocode_result panicked) reader cin rest h = tt

  -- Whatever the order in which the geocodings finish: in a state that a run can reach, the messages
  -- that the writer has received and those in its channel are the results of the first messages of
  -- the file, in the order of the file. If the loop returned without an error, they are the results
  -- of all messages.
  pub Run-Results :
      (messages : List Message) {n : ℕ} {s : Threads}
      → Run Gives read_ends (start messages) n s
      → (forwarded rest : List Message) × (messages ≡ forwarded ++ rest)
        × Results Gives read_ends forwarded (s.received ++ s.out_channel)
        × LeavesNone s.forwarder rest
  Run-Results messages {s = s} run =
      let (done, rest, e, res, rem) = Run-Flows messages run in
      (done, rest, e, res, leaves_none s.forwarder s.reader s.in_channel rest rem)

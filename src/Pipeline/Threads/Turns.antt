-- ===== src/Pipeline/Threads/Turns.antt =====
-- src/pipeline.rs: the parts of `geocode_stdio` take turns, message by message.
use geocode_csv.Base.{
  ℕ, suc, ◌≡◌, refl, sym, ap, ◌∙◌, Bool, true, false, List, [], ◌∷◌, ◌++◌, append_assoc, append-nil,
  arith,
}
use geocode_csv.Base.Outcome.{Outcome, ok, err, panicked, Error, channel_closed}
use geocode_csv.Base.Effect.{proceed}
use geocode_csv.Addresses.Columns.{StringRecord}
use geocode_csv.Geocoders.{Geocoder}
use geocode_csv.Pipeline.Retry.{Timed}
use geocode_csv.Pipeline.Geocode.{Chunk, geocode_chunk}
use geocode_csv.Pipeline.Read.{Message, chunk, end_of_stream}
use geocode_csv.Pipeline.Write.{write_chunk, write_loop, geocode_message, forward_messages}
use geocode_csv.Pipeline.Write.Laws.{take_record, write_rows-takes}
use geocode_csv.Pipeline.Stdio.{geocode_fut}
use geocode_csv.Pipeline.Threads.{
  reading, read_result, waiting, geocode_result, receiving, write_result, Threads, write_message,
  Step, Run,
}
use geocode_csv.Pipeline.Threads.Step.{
  make, send_in, send_in_fails, stop_reading, pull, geocode, next, send_out, stop_geocoding,
  receive, write, stop_writing,
}
use geocode_csv.Pipeline.Threads.Run.{later}
use geocode_csv.Pipeline.Threads.Geocoded.{MayGive}
use geocode_csv.Pipeline.Threads.Panics.{Returns}

write_chunk-takes :
    (b : Bool) (d : Chunk) (taken : List StringRecord)
    → (write_chunk take_record b d taken).0 ≡ ok tt
unfolding write_chunk
write_chunk-takes true d taken = ap (λ r. r.0) (write_rows-takes d.rows taken)
write_chunk-takes false d taken =
    ap (λ r. r.0) (write_rows-takes d.rows (taken ++ (d.shared.out_headers ∷ [])))

write_loop-chunk :
    (b : Bool) (d : Chunk) (out : List Message) (taken : List StringRecord)
    → write_loop take_record b (chunk d ∷ out) taken
      ≡ write_loop take_record true out (write_chunk take_record b d taken).1
unfolding write_loop
write_loop-chunk b d out taken =
    ap (λ r. proceed r (λ u. write_loop take_record true out) (write_chunk take_record b d taken).1)
      (write_chunk-takes b d taken)

-- The messages of a reader: chunks, and the end of the stream unless it has failed before.
abbrev pub stream : List Chunk → Bool → List Message
stream [] true = end_of_stream ∷ []
stream [] false = []
stream (c ∷ cs) ended = chunk c ∷ stream cs ended

module _ {W : Type 0} (geocoder : Geocoder W) (max_retries : ℕ)
    (read_ends : Outcome (Unit {0})) where
  abbrev pub Gives : Message → Outcome Message → Type 0
  Gives = MayGive geocoder (λ w. Unit) max_retries

  -- Between two messages.
  abbrev between : List Message → Bool → List StringRecord → List Message → Threads
  between messages b written received = record {
    reader = reading messages;
    in_channel = [];
    forwarder = waiting [];
    out_channel = [];
    writer = receiving b;
    written = written;
    received = received;
  }

  -- What the reader returns: where the loop has failed, it may be an error of its own.
  abbrev pub ReadsTo : Outcome (Unit {0}) → Outcome (Unit {0}) → Type 0
  ReadsTo (ok u) read = read ≡ read_ends
  ReadsTo (err e) read = Returns read
  ReadsTo panicked read = Returns read

  module _ (s0 : Threads) where
    abbrev pub Reaches : Threads → Type 0
    Reaches s = (n : ℕ) × Run Gives read_ends s0 n s

    and_then : {s t : Threads} → Reaches s → Step Gives read_ends s t → Reaches t
    and_then (n, run) step = (suc n, later run step)

    -- All three parts have returned, with these results of the loop and of the writer.
    abbrev pub EndsWith : Outcome (Unit {0}) → Outcome (Unit {0}) × List StringRecord → Type 0
    EndsWith geocoded wrote =
        (s : Threads) × (read : Outcome (Unit {0})) × Reaches s
        × (s.reader ≡ read_result read)
        × (s.forwarder ≡ geocode_result geocoded)
        × (s.writer ≡ write_result wrote.0)
        × (s.written ≡ wrote.1)
        × ReadsTo geocoded read

    -- A message from the reader to the writer.
    turn :
        (m r : Message) (messages : List Message) (b : Bool) (written : List StringRecord)
        (received : List Message)
        → Gives m (ok r)
        → Reaches (between (m ∷ messages) b written received)
        → Reaches (record (between messages b written received) {
          writer = (write_message r b written).0;
          written = (write_message r b written).1;
          received = received ++ (r ∷ []);
        })
    turn m r messages b written received g (n, run) =
        let r1 = later (later run (make refl)) (send_in refl tt (omega arith)) in
        let r2 = later (later r1 (pull refl refl (omega arith))) (geocode [] [] (ok r) refl g) in
        let r3 = later (later r2 (next refl)) (send_out refl tt (omega arith)) in
        (_, later (later r3 (receive refl refl)) (write refl))

    -- The loop has returned an error, or panicked: the reader and the writer find out.
    failed :
        (geocoded : Outcome (Unit {0})) (messages : List Message) (b : Bool)
        (written : List StringRecord) (received : List Message)
        → Returns read_ends
        → ((read : Outcome (Unit {0})) → Returns read → ReadsTo geocoded read)
        → Reaches
            (record (between messages b written received) { forwarder = geocode_result geocoded })
        → EndsWith geocoded (write_loop take_record b [] written)
    unfolding write_loop
    failed geocoded [] b written received ends any run = (
      _,
      read_ends,
      and_then (and_then run (stop_reading refl)) (stop_writing refl refl refl),
      refl,
      refl,
      refl,
      refl,
      any read_ends ends,
    )
    failed geocoded (m ∷ messages) b written received ends any run = (
      _,
      err channel_closed,
      and_then (and_then (and_then run (make refl)) (send_in_fails refl refl))
          (stop_writing refl refl refl),
      refl,
      refl,
      refl,
      refl,
      any (err channel_closed) tt,
    )

    -- A message whose geocoding is an error, or panics.
    turn_fails :
        (m : Message) (messages : List Message) (b : Bool) (written : List StringRecord)
        (received : List Message)
        → Reaches (between (m ∷ messages) b written received)
        → ((e : Error)
            → Gives m (err e)
            → Reaches (record (between messages b written received) {
              forwarder = geocode_result (err e);
            }))
          × (Gives m panicked
              → Reaches (record (between messages b written received) {
                forwarder = geocode_result panicked;
              }))
    turn_fails m messages b written received (n, run) =
        let r1 = later (later run (make refl)) (send_in refl tt (omega arith)) in
        let r2 = later r1 (pull refl refl (omega arith)) in
        (
          λ e g. (_, later (later r2 (geocode [] [] (err e) refl g)) (next refl)),
          λ g. (_, later r2 (geocode [] [] panicked refl g)),
        )

    -- The parts take turns from here.
    abbrev pub Sequential :
        List Message → Timed W → List Message → Bool → List StringRecord → Type 0
    Sequential messages t before b written =
        let run = geocode_fut geocoder max_retries messages (t, before) in
        (out : List Message) × (run.1.1 ≡ before ++ out)
        × EndsWith run.0 (write_loop take_record b out written)

    turns_end :
        (t : Timed W) (before : List Message) (b : Bool) (written : List StringRecord)
        (received : List Message)
        → Reaches (between (end_of_stream ∷ []) b written received)
        → Sequential (end_of_stream ∷ []) t before b written
    unfolding geocode_fut forward_messages geocode_message write_loop write_message
    turns_end t before true written received run =
        let run' = turn end_of_stream end_of_stream [] true written received (t, tt, refl) run in
        let done = and_then (and_then run' (stop_reading refl)) (stop_geocoding refl refl refl) in
        (end_of_stream ∷ [], refl, (_, read_ends, done, refl, refl, refl, refl, refl))
    turns_end t before false written received run =
        let run' = turn end_of_stream end_of_stream [] false written received (t, tt, refl) run in
        let done = and_then (and_then run' (stop_reading refl)) (stop_geocoding refl refl refl) in
        (end_of_stream ∷ [], refl, (_, read_ends, done, refl, refl, refl, refl, refl))

    -- One chunk, from what its geocoding comes to and from the turns after it.
    turns_step :
        (c : Chunk) (messages : List Message) (t : Timed W) (before : List Message) (b : Bool)
        (written : List StringRecord) (received : List Message) (r : Outcome Chunk × Timed W)
        → geocode_chunk geocoder max_retries c t ≡ r
        → Returns read_ends
        → Reaches (between (chunk c ∷ messages) b written received)
        → ((t' : Timed W) (before' : List Message) (written' : List StringRecord)
              (received' : List Message)
            → Reaches (between messages true written' received')
            → Sequential messages t' before' true written')
        → Sequential (chunk c ∷ messages) t before b written
    unfolding geocode_fut forward_messages geocode_message write_message
    turns_step c messages t before b written received (ok d, t') e ends run later' =
        let given : Gives (chunk c) (ok (chunk d)) = (t, tt, rw e refl) in
        let (out, same, finish) =
          later' t' (before ++ (chunk d ∷ [])) (write_chunk take_record b d written).1
            (received ++ (chunk d ∷ []))
            (turn (chunk c) (chunk d) messages b written received given run) in
        rw e (
          chunk d ∷ out,
          same ∙ append_assoc before (chunk d ∷ []) out,
          rw (write_loop-chunk b d out written) finish,
        )
    turns_step c messages t before b written received (err x, t') e ends run later' =
        let given : Gives (chunk c) (err x) = (t, tt, rw e refl) in
        rw e (
          [],
          sym (append-nil before),
          failed (err x) messages b written received ends (λ read h. h)
              ((turn_fails (chunk c) messages b written received run).0 x given),
        )
    turns_step c messages t before b written received (panicked, t') e ends run later' =
        let given : Gives (chunk c) panicked = (t, tt, rw e refl) in
        rw e (
          [],
          sym (append-nil before),
          failed panicked messages b written received ends (λ read h. h)
              ((turn_fails (chunk c) messages b written received run).1 given),
        )

    pub turns :
        (cs : List Chunk) (ended : Bool) (t : Timed W) (before : List Message) (b : Bool)
        (written : List StringRecord) (received : List Message)
        → Returns read_ends
        → Reaches (between (stream cs ended) b written received)
        → Sequential (stream cs ended) t before b written
    unfolding geocode_fut forward_messages write_loop
    turns [] true t before b written received ends run = turns_end t before b written received run
    turns [] false t before b written received ends run =
        let done =
          and_then (and_then (and_then run (stop_reading refl)) (stop_geocoding refl refl refl))
            (stop_writing refl refl refl) in
        ([], sym (append-nil before), (_, read_ends, done, refl, refl, refl, refl, refl))
    turns (c ∷ cs) ended t before b written received ends run =
        turns_step c (stream cs ended) t before b written received
          (geocode_chunk geocoder max_retries c t) refl ends run
          λ t' before' written' received' run'.
            turns cs ended t' before' true written' received' ends run'

-- ===== src/Pipeline/Threads/Order.antt =====
-- src/pipeline.rs: the order of the messages through the concurrent parts of `geocode_stdio`.
pub mod Steps
use geocode_csv.Base.{ℕ, ◌≡◌, refl, sym, ap, ◌∙◌, List, [], ◌∷◌, ◌++◌, append_assoc}
use geocode_csv.Base.Outcome.{Outcome, ok, err, panicked}
use geocode_csv.Pipeline.Read.{Message}
use geocode_csv.Pipeline.Threads.{
  Reader, reading, sending, read_result, Future, pending, resolved, Forwarder, waiting, forwarding,
  geocode_result, Threads, resolve, next_result, Step, Run, start, InOpen,
}
use geocode_csv.Pipeline.Threads.Step.{
  make, send_in, send_in_fails, stop_reading, pull, geocode, next, send_out, send_out_fails,
  stop_geocoding, receive, write, write_fails, stop_writing,
}
use geocode_csv.Pipeline.Threads.Run.{begin, later}

-- The messages that futures were made of.
abbrev pub originals : List Future → List Message
originals [] = []
originals (pending message ∷ futures) = message ∷ originals futures
originals (resolved message r ∷ futures) = message ∷ originals futures

-- The messages that have not been made, or not been taken by the channel.
abbrev pub unsent : Reader → List Message
unsent (reading messages) = messages
unsent (sending message messages) = message ∷ messages
unsent (read_result r) = []

pub originals-append :
    (before after : List Future) → originals (before ++ after) ≡ originals before ++ originals after
originals-append [] after = refl
originals-append (pending message ∷ before) after =
    ap (λ l. message ∷ l) (originals-append before after)
originals-append (resolved message r ∷ before) after =
    ap (λ l. message ∷ l) (originals-append before after)

module _ (Gives : Message → Outcome Message → Type 0) (read_ends : Outcome (Unit {0})) where
  -- The results of the first messages, in order.
  abbrev pub Results : List Message → List Message → Type 0
  Results [] [] = Unit
  Results [] (result ∷ results) = ⊥
  Results (message ∷ messages) [] = ⊥
  Results (message ∷ messages) (result ∷ results) =
      Gives message (ok result) × Results messages results

  pub Results-append :
      (messages results : List Message) (message result : Message)
      → Results messages results
      → Gives message (ok result)
      → Results (messages ++ (message ∷ [])) (results ++ (result ∷ []))
  Results-append [] [] message result h g = (g, tt)
  Results-append [] (r ∷ results) message result h g = absurd h
  Results-append (m ∷ messages) [] message result h g = absurd h
  Results-append (m ∷ messages) (r ∷ results) message result (h, hs) g =
      (h, Results-append messages results message result hs g)

  -- A resolved future has a result that geocoding its message gives.
  abbrev pub FuturesGiven : List Future → Type 0
  FuturesGiven [] = Unit
  FuturesGiven (pending message ∷ futures) = FuturesGiven futures
  FuturesGiven (resolved message r ∷ futures) = Gives message r × FuturesGiven futures

  pub FuturesGiven-pending :
      (futures : List Future) (message : Message)
      → FuturesGiven futures
      → FuturesGiven (futures ++ (pending message ∷ []))
  FuturesGiven-pending [] message h = tt
  FuturesGiven-pending (pending m ∷ futures) message h = FuturesGiven-pending futures message h
  FuturesGiven-pending (resolved m r ∷ futures) message (g, h) =
      (g, FuturesGiven-pending futures message h)

  pub FuturesGiven-resolved :
      (before after : List Future) (message : Message) (r : Outcome Message)
      → Gives message r
      → FuturesGiven (before ++ (pending message ∷ after))
      → FuturesGiven (before ++ (resolved message r ∷ after))
  FuturesGiven-resolved [] after message r g h = (g, h)
  FuturesGiven-resolved (pending m ∷ before) after message r g h =
      FuturesGiven-resolved before after message r g h
  FuturesGiven-resolved (resolved m q ∷ before) after message r g (k, h) =
      (k, FuturesGiven-resolved before after message r g h)

  -- The reader has not failed on a closed channel.
  abbrev pub ReadsOn : Reader → Type 0
  ReadsOn (reading messages) = Unit
  ReadsOn (sending message messages) = Unit
  ReadsOn (read_result r) = r ≡ read_ends

  -- The messages that are not forwarded yet, while the loop runs; all are forwarded once it returns
  -- without an error.
  abbrev pub Remaining : Forwarder → Reader → List Message → List Message → Type 0
  Remaining (waiting futures) reader in_channel rest =
      (rest ≡ originals futures ++ (in_channel ++ unsent reader))
      × FuturesGiven futures
      × ReadsOn reader
  Remaining (forwarding from message futures) reader in_channel rest =
      (rest ≡ from ∷ (originals futures ++ (in_channel ++ unsent reader)))
      × FuturesGiven futures
      × ReadsOn reader
      × Gives from (ok message)
  Remaining (geocode_result (ok r)) reader in_channel rest =
      (rest ≡ []) × (reader ≡ read_result read_ends)
  Remaining (geocode_result (err e)) reader in_channel rest = Unit
  Remaining (geocode_result panicked) reader in_channel rest = Unit

  abbrev pub Flows : List Message → Threads → Type 0
  Flows messages s =
      (forwarded rest : List Message) × (messages ≡ forwarded ++ rest)
      × Results forwarded (s.received ++ s.out_channel)
      × Remaining s.forwarder s.reader s.in_channel rest

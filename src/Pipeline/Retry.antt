-- ===== src/Pipeline/Retry.antt =====
-- src/pipeline.rs: the retry loop of `geocode_chunk`.
pub mod Laws
pub mod Calls
use geocode_csv.Base.{ℕ, zero, suc, ◌*◌, ◌^◌, Option, List, [], ◌∷◌, ◌++◌, leb, if◌then◌else◌}
use geocode_csv.Base.Outcome.{Outcome, ok, err, panicked}
use geocode_csv.Base.Effect.{M}
use geocode_csv.Addresses.Address.{Address}
use geocode_csv.Geocoders.{Geocoder, Geocoded}

-- The world, with the seconds that the thread has slept, sleep by sleep.
pub record Timed (W : Type 0) : Type 0 where
  pub world : W
  pub sleeps : List ℕ

module _ {W A : Type 0} where
  -- A call that does not sleep.
  abbrev pub untimed : M W A → M (Timed W) A
  untimed m t = ((m t.world).0, record t { world = (m t.world).1 })

  -- `match result`: an error is handed on to be retried.
  abbrev pub on_error : Outcome A → M (Timed W) A → M (Timed W) A
  on_error (ok a) retry t = (ok a, t)
  on_error (err e) retry t = retry t
  on_error panicked retry t = (panicked, t)

  -- `sleep(retry_wait); retry_wait *= 2`, which panics when the seconds pass a `u64`.
  unfoldable pub sleep_and_double : ℕ → (ℕ → M (Timed W) A) → M (Timed W) A
  sleep_and_double retry_wait continue t =
      if leb (2 ^ 64) (retry_wait * 2)
      then (panicked, record t { sleeps = t.sleeps ++ (retry_wait ∷ []) })
      else continue (retry_wait * 2) (record t { sleeps = t.sleeps ++ (retry_wait ∷ []) })

  -- The loop, with `left` for `max_retries - failures`: an `Err` is retried while it is positive.
  unfoldable pub retry_loop : M W A → ℕ → ℕ → M (Timed W) A
  unfolding sleep_and_double
  retry_loop call zero retry_wait t = untimed call t
  retry_loop call (suc left) retry_wait t =
      on_error (untimed call t).0
        (sleep_and_double retry_wait (λ doubled. retry_loop call left doubled)) (untimed call t).1

-- `geocoder.geocode_addresses(&addresses)` with up to `max_retries` retries, the first after two
-- seconds.
unfoldable pub geocode_with_retries :
    {W : Type 0} → Geocoder W → List Address → ℕ → M (Timed W) (List (Option Geocoded))
unfolding retry_loop
geocode_with_retries geocoder addresses max_retries =
    retry_loop (geocoder.geocode_addresses addresses) max_retries 2

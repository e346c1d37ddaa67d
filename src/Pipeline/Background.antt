-- ===== src/Pipeline/Background.antt =====
-- src/async_util.rs: `run_sync_fn_in_background`, for a function and a thread that can be spawned. The
-- thread sends the function's result, or nothing if the function panics.
use geocode_csv.Base.{◌≡◌, refl, Option, none, some}
use geocode_csv.Base.Outcome.{Outcome, ok, err, panicked}

module _ {A : Type 0} where
  -- `sender.send(f())`
  unfoldable pub send_result : Outcome A → Option (Outcome A)
  send_result (ok a) = some (ok a)
  send_result (err e) = some (err e)
  send_result panicked = none

  -- The match on what was received; no result is `unreachable!`.
  unfoldable pub receive_result : Option (Outcome A) → Outcome A
  receive_result none = panicked
  receive_result (some background_result) = background_result

  unfoldable pub run_sync_fn_in_background : Outcome A → Outcome A
  unfolding send_result receive_result
  run_sync_fn_in_background f = receive_result (send_result f)

-- The function's own outcome, a panic included.
pub run_sync_fn_in_background-same : {A : Type 0} (f : Outcome A) → run_sync_fn_in_background f ≡ f
unfolding run_sync_fn_in_background
run_sync_fn_in_background-same (ok a) = refl
run_sync_fn_in_background-same (err e) = refl
run_sync_fn_in_background-same panicked = refl

-- ===== src/Pipeline/Retry/Calls.antt =====
-- src/pipeline.rs: the retry loop ends, whatever the geocoder does.
use geocode_csv.Base.{
  ℕ, zero, suc, ◌+◌, ◌*◌, ◌^◌, ◌≤◌, ◌≡◌, refl, List, [], ◌∷◌, ◌++◌, length, length-append, leb,
  arith, Bool-cases, inl, inr,
}
use geocode_csv.Base.Outcome.{Outcome, ok, err, panicked}
use geocode_csv.Base.Effect.{M}
use geocode_csv.Addresses.Address.{Address}
use geocode_csv.Geocoders.{Geocoder}
use geocode_csv.Pipeline.Retry.{Timed, sleep_and_double, retry_loop, geocode_with_retries}
use geocode_csv.Pipeline.Retry.Laws.{world_after}

module _ {W A : Type 0} (call : M W A) where
  -- A call, at most `left` further ones, and at most as many sleeps as calls.
  abbrev pub CallsUpTo : ℕ → Timed W → Timed W → Type 0
  CallsUpTo left t t' =
      (k : ℕ) × (k ≤ left)
      × (t'.world ≡ world_after call (suc k) t.world)
      × (length t'.sleeps ≤ length t.sleeps + suc k)

  retry_loop-CallsUpTo :
      (left wait : ℕ) (t : Timed W) → CallsUpTo left t (retry_loop call left wait t).1
  unfolding retry_loop sleep_and_double
  retry_loop-CallsUpTo zero wait t = (0, omega arith, refl, omega arith)
  retry_loop-CallsUpTo (suc left) wait t = after (call t.world).0 refl (
      retry_loop-CallsUpTo left (wait * 2)
        (record { world = (call t.world).1; sleeps = t.sleeps ++ (wait ∷ []) }))
    where
      after :
          (r : Outcome A)
          → (call t.world).0 ≡ r
          → (let t' : Timed W = record {
            world = (call t.world).1;
            sleeps = t.sleeps ++ (wait ∷ []);
          } in
              CallsUpTo left t' (retry_loop call left (wait * 2) t').1)
          → CallsUpTo (suc left) t (retry_loop call (suc left) wait t).1
      after (ok a) e later = rw e (0, omega arith, refl, omega arith)
      after panicked e later = rw e (0, omega arith, refl, omega arith)
      after (err x) e later = elim (Bool-cases (leb (2 ^ 64) (wait * 2))) [
        | inl big ↦
            rw (e, big) (0, omega arith, refl, omega (arith, length-append t.sleeps (wait ∷ [])))
        | inr fits ↦
            let (k, small, world, slept) = later in
            rw (e, fits)
              (
                suc k,
                omega (arith, small),
                world,
                omega (arith, slept, length-append t.sleeps (wait ∷ [])),
              )
      ]

-- Whatever the geocoder does, and for any number of retries: the loop ends after 1 to
-- max_retries + 1 calls of the geocoder, one after the other, and has slept at most once for each.
pub geocode_with_retries-calls :
    {W : Type 0} (geocoder : Geocoder W) (addresses : List Address) (max_retries : ℕ) (t : Timed W)
    → CallsUpTo
        (geocoder.geocode_addresses addresses)
        max_retries
        t
        (geocode_with_retries geocoder addresses max_retries t).1
unfolding geocode_with_retries
geocode_with_retries-calls geocoder addresses max_retries t =
    retry_loop-CallsUpTo (geocoder.geocode_addresses addresses) max_retries 2 t

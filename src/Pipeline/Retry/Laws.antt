-- ===== src/Pipeline/Retry/Laws.antt =====
-- src/pipeline.rs: how often the retry loop calls, and how long it waits.
use geocode_csv.Base.{
  ℕ, zero, suc, ◌+◌, ◌*◌, ◌^◌, ◌≤◌, ◌<◌, ◌≡◌, refl, ap, false, Option, List, [], ◌∷◌, ◌++◌, ◌∙◌,
  leb, arith, append_assoc, append-nil,
}
use native.Mathlib.Nat.{pow-suc, pow-succ', mul_assoc}
use geocode_csv.Base.Outcome.{Error, Outcome, ok, err, panicked, Ensures}
use geocode_csv.Base.Effect.{M}
use geocode_csv.Base.Effect.Safe.{Safe}
use geocode_csv.Addresses.Address.{Address}
use geocode_csv.Geocoders.{Geocoder, Geocoded}
use geocode_csv.Pipeline.Retry.{geocode_with_retries, Timed, on_error, retry_loop}

module _ {W A : Type 0} (call : M W A) where
  -- The world after some calls, one after the other.
  abbrev pub world_after : ℕ → W → W
  world_after zero w = w
  world_after (suc k) w = world_after k (call w).1

  -- The first calls, as many as the number says, end in an `Err`.
  abbrev pub FirstFail : ℕ → W → Type 0
  FirstFail zero w = Unit
  FirstFail (suc k) w = ((e : Error) × ((call w).0 ≡ err e)) × FirstFail k (call w).1

-- The seconds of each wait.
abbrev pub waits : ℕ → ℕ → List ℕ
waits zero wait = []
waits (suc k) wait = wait ∷ waits k (wait * 2)

abbrev pub total : List ℕ → ℕ
total [] = 0
total (s ∷ ss) = s + total ss

-- No doubling of the first ones passes a `u64`.
abbrev Fits64 : ℕ → ℕ → Type 0
Fits64 zero wait = Unit
Fits64 (suc k) wait = (wait * 2 < 2 ^ 64) × Fits64 k (wait * 2)

Fits64-le : (k left wait : ℕ) → k ≤ left → Fits64 left wait → Fits64 k wait
Fits64-le zero left wait h f = tt
Fits64-le (suc k) zero wait h f = absurd (omega arith)
Fits64-le (suc k) (suc left) wait h (f, fs) = (f, Fits64-le k left (wait * 2) (omega arith) fs)

default_waits_fit : Fits64 62 2
default_waits_fit = omega arith

-- A call is the last one if it succeeds, or panics, or if no retry is left.
abbrev pub IsLast : {A : Type 0} → ℕ → ℕ → Outcome A → Type 0
IsLast k left (ok a) = k ≤ left
IsLast k left (err e) = k ≡ left
IsLast k left panicked = k ≤ left

IsLast-pos : {A : Type 0} (k : ℕ) (r : Outcome A) → IsLast (suc k) 0 r → ⊥
IsLast-pos k (ok a) h = omega (arith, h)
IsLast-pos k (err e) h = omega (arith, h)
IsLast-pos k panicked h = omega (arith, h)

IsLast-pred :
    {A : Type 0} (k left : ℕ) (r : Outcome A) → IsLast (suc k) (suc left) r → IsLast k left r
IsLast-pred k left (ok a) h = omega (arith, h)
IsLast-pred k left (err e) h = omega (arith, h)
IsLast-pred k left panicked h = omega (arith, h)

total-waits : (k wait : ℕ) → total (waits k wait) + wait ≡ wait * 2 ^ k
total-waits zero wait = omega arith
total-waits (suc k) wait =
    rw pow-succ' (omega (arith, total-waits k (wait * 2), mul_assoc wait 2 (2 ^ k)))

module _ {W A : Type 0} (call : M W A) where
  retry_step :
      (left wait : ℕ) (t : Timed W) (e : Error)
      → (call t.world).0 ≡ err e
      → wait * 2 < 2 ^ 64
      → retry_loop call (suc left) wait t
        ≡ retry_loop call left
            (wait * 2)
            (record { world = (call t.world).1; sleeps = t.sleeps ++ (wait ∷ []) })
  unfolding retry_loop
  retry_step left wait t e h b =
      let small : leb (2 ^ 64) (wait * 2) ≡ false = ground arith in rw (h, small) refl

  retry_last :
      (left wait : ℕ) (t : Timed W) (r : Outcome A)
      → (call t.world).0 ≡ r
      → IsLast 0 left r
      → retry_loop call left wait t ≡ (r, record t { world = (call t.world).1 })
  unfolding retry_loop
  retry_last zero wait t r h l = rw h refl
  retry_last (suc left) wait t (ok a) h l = rw h refl
  retry_last (suc left) wait t (err e) h l = absurd (omega (arith, l))
  retry_last (suc left) wait t panicked h l = rw h refl

  -- If the first `k` calls fail, and the next one is the last, because it succeeds, panics, or no
  -- retry is left, then the loop makes just these calls, returns what the last one returned, and
  -- sleeps before each retry, twice as long as before the previous one.
  retry_loop-runs :
      (k left wait : ℕ) (t : Timed W) (r : Outcome A)
      → FirstFail call k t.world
      → (call (world_after call k t.world)).0 ≡ r
      → IsLast k left r
      → Fits64 k wait
      → retry_loop call left wait t ≡ (
        r,
        record { world = world_after call (suc k) t.world; sleeps = t.sleeps ++ waits k wait },
      )
  retry_loop-runs zero left wait t r f h l b = rw append-nil (retry_last left wait t r h l)
  retry_loop-runs (suc k) zero wait t r f h l b = absurd (IsLast-pos k r l)
  retry_loop-runs (suc k) (suc left) wait t r ((e, p), f) h l (b, bs) =
      retry_step left wait t e p b
      ∙ retry_loop-runs k left (wait * 2) _ r f h (IsLast-pred k left r l) bs
      ∙ rw append_assoc refl

-- The loop as `geocode_chunk` runs it, after a first wait of two seconds. If the first `k` calls
-- fail, and the next one is the last (it succeeds, it panics, or `k` is `max_retries`), the geocoder
-- is called `k + 1` times, the outcome is that of the last call, and the loop sleeps 2, 4, 8, …
-- seconds, which make 2 ^ (k + 1) - 2 in all. No doubling panics while `k` is at most 62.
pub geocode_with_retries-runs :
    {W : Type 0} (geocoder : Geocoder W) (addresses : List Address) (k max_retries : ℕ)
    (t : Timed W) (r : Outcome (List (Option Geocoded)))
    → k ≤ 62
    → FirstFail (geocoder.geocode_addresses addresses) k t.world
    → (geocoder.geocode_addresses addresses
        (world_after (geocoder.geocode_addresses addresses) k t.world)).0
      ≡ r
    → IsLast k max_retries r
    → (geocode_with_retries geocoder addresses max_retries t ≡ (
      r,
      record {
        world = world_after (geocoder.geocode_addresses addresses) (suc k) t.world;
        sleeps = t.sleeps ++ waits k 2;
      },
    ))
      × (total (waits k 2) + 2 ≡ 2 ^ suc k)
unfolding geocode_with_retries
geocode_with_retries-runs geocoder addresses k max_retries t r small f h l = (
  retry_loop-runs (geocoder.geocode_addresses addresses) k max_retries 2 t r f h l
      (Fits64-le k 62 2 small default_waits_fit),
  omega (arith, total-waits k 2, pow-suc 2 k),
)

-- A first call that succeeds is the only one.
pub geocode_with_retries-first :
    {W : Type 0} (geocoder : Geocoder W) (addresses : List Address) (max_retries : ℕ) (t : Timed W)
    {results : List (Option Geocoded)}
    → (geocoder.geocode_addresses addresses t.world).0 ≡ ok results
    → (geocode_with_retries geocoder addresses max_retries t).0 ≡ ok results
unfolding geocode_with_retries
geocode_with_retries-first geocoder addresses max_retries t h =
    ap (λ p. p.0)
      (retry_last (geocoder.geocode_addresses addresses) max_retries 2 t _ h (omega arith))

-- The contract of the loop: that of the call, while no doubling passes a `u64`.
module _ {W A : Type 0} (Inv : W → Type 0) (Q : A → Type 0) where
  on_error-Safe :
      (r : Outcome A) (retry : M (Timed W) A) (t : Timed W)
      → Inv t.world
      → Ensures Q r
      → Safe (λ t. Inv t.world) Q retry
      → Inv (on_error r retry t).1.world × Ensures Q (on_error r retry t).0
  on_error-Safe (ok a) retry t i h s = (i, h)
  on_error-Safe (err e) retry t i h s = s.at t i
  on_error-Safe panicked retry t i h s = absurd h

  retry_loop-Safe :
      (call : M W A) (left wait : ℕ)
      → Safe Inv Q call
      → Fits64 left wait
      → Safe (λ (t : Timed W). Inv t.world) Q (retry_loop call left wait)
  unfolding retry_loop
  retry_loop-Safe call zero wait s b = record { at = λ t i. s.at t.world i }
  retry_loop-Safe call (suc left) wait s (b, bs) =
      let small : leb (2 ^ 64) (wait * 2) ≡ false = ground arith in
      let ih = retry_loop-Safe call left (wait * 2) s bs in
      record {
        at = λ t i.
            on_error-Safe (call t.world).0 _ _ (s.at t.world i).0 (s.at t.world i).1
              (record { at = λ t' i'. rw small (ih.at _ i') });
      }

pub geocode_with_retries-Safe :
    {W : Type 0} {Inv : W → Type 0} {Q : List (Option Geocoded) → Type 0} (geocoder : Geocoder W)
    (addresses : List Address) (max_retries : ℕ)
    → max_retries ≤ 62
    → Safe Inv Q (geocoder.geocode_addresses addresses)
    → Safe (λ (t : Timed W). Inv t.world) Q (geocode_with_retries geocoder addresses max_retries)
unfolding geocode_with_retries
geocode_with_retries-Safe geocoder addresses max_retries small s =
    retry_loop-Safe _ _ _ max_retries 2 s (Fits64-le max_retries 62 2 small default_waits_fit)

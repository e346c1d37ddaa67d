-- ===== src/CommandLine/RateLimit.antt =====
-- src/main.rs: the rate limiter's bucket, and the largest request that it meets.
use geocode_csv.Base.{
  ℕ, ◌*◌, ◌^◌, ◌%◌, ◌<◌, ◌≤◌, Option, none, some, ltb, arith, Bool-cases, inl, inr,
}
use native.Mathlib.Nat.{mod-eq_of_lt}
use geocode_csv.Addresses.Spec.{AddressColumnSpec, prefix_count}
use geocode_csv.Pipeline.Read.{geocode_size, max, chunk_size}
use geocode_csv.Pipeline.Read.Laws.{chunk_size-bounds}

-- The settings of the library's limiter, in permits, refilled every second.
pub record Bucket : Type 0 where
  pub initial : ℕ
  pub capacity : ℕ
  pub refill : ℕ

-- The bucket for `limit` addresses in a second. The doubling is in a `usize` of 64 bits, which wraps in
-- a release build.
unfoldable pub bucket_for : ℕ → Bucket
bucket_for limit =
    let size = max limit geocode_size in
    record { initial = size; capacity = 2 * size % 2 ^ 64; refill = limit }

unfoldable pub rate_limiter : Option ℕ → Option Bucket
unfolding bucket_for
rate_limiter none = none
rate_limiter (some limit) = some (bucket_for limit)

-- For a limit below 2 ^ 63, so that the doubling does not wrap, a request for the addresses of a whole chunk is not larger than the bucket at
-- the start, and so not larger than it can become, if a row has at most 72 prefixes.
pub chunk_size-fits :
    {K : Type 0} (limit : ℕ) (spec : AddressColumnSpec K)
    → limit < 2 ^ 63
    → prefix_count spec ≤ 72
    → (chunk_size spec * prefix_count spec ≤ (bucket_for limit).initial)
      × ((bucket_for limit).initial ≤ (bucket_for limit).capacity)
unfolding bucket_for
chunk_size-fits limit spec l h =
    let (pos, small, product) = chunk_size-bounds spec in
    let bound : chunk_size spec * prefix_count spec ≤ 72 = product h in
    elim (Bool-cases (ltb limit 72)) [
      | inl e ↦ rw e (bound, omega arith)
      | inr e ↦ rw (e, mod-eq_of_lt (doubled l)) (ground (arith, bound, e), omega arith)
    ]
  where
    doubled : {n : ℕ} → n < 2 ^ 63 → 2 * n < 2 ^ 64
    doubled h = omega (arith, h)

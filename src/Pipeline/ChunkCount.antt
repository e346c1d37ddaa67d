-- ===== src/Pipeline/ChunkCount.antt =====
-- src/pipeline.rs: the counter TOTAL_CHUNKS_EXISTING, which `Chunk::new` increases and which `Drop`
-- decreases. It is an i64, and the number of chunks is far from its bounds.
pub mod Steps
use geocode_csv.Base.{ℕ, zero, suc, ◌+◌, ◌*◌, Bool, true, false, ltb, if◌then◌else◌}
use geocode_csv.Base.Outcome.{ok, panicked}
use geocode_csv.Base.Effect.{M}

-- An integer: `n`, or `-1 - n`.
pub data ℤ : Type 0 where
  pos negsuc : ℕ → ℤ

abbrev pub channel_buffer : ℕ
channel_buffer = 8

abbrev pub concurrency : ℕ
concurrency = 48

abbrev pub max_expected_chunks : ℕ
max_expected_chunks = channel_buffer * 2 + concurrency + 2 + 10

-- `fetch_add(1)` and `fetch_sub(1)`
unfoldable pub increment : ℤ → ℤ
increment (pos n) = pos (suc n)
increment (negsuc zero) = pos 0
increment (negsuc (suc n)) = negsuc n

unfoldable pub decrement : ℤ → ℤ
decrement (pos zero) = negsuc 0
decrement (pos (suc n)) = pos n
decrement (negsuc n) = negsuc (suc n)

unfoldable pub exceeds : ℤ → ℕ → Bool
exceeds (pos n) limit = ltb limit n
exceeds (negsuc n) limit = false

unfoldable pub is_negative : ℤ → Bool
is_negative (pos n) = false
is_negative (negsuc n) = true

-- `Chunk::new`, but for the chunk itself: the counter is increased before the test.
unfoldable pub new_chunk : M ℤ Unit
unfolding increment exceeds
new_chunk existing =
    (if exceeds existing max_expected_chunks then panicked else ok tt, increment existing)

-- `Drop`
unfoldable pub drop_chunk : M ℤ Unit
unfolding decrement is_negative
drop_chunk existing = (if is_negative existing then panicked else ok tt, decrement existing)

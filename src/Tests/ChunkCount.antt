-- ===== src/Tests/ChunkCount.antt =====
-- A run of the counter of chunks of src/pipeline.rs.
use geocode_csv.Base.{◌≤◌, ◌<◌, ◌≡◌, refl, ◌↔◌, true, false}
use geocode_csv.Base.Outcome.{ok}
use geocode_csv.Pipeline.ChunkCount.{
  pos, negsuc, increment, decrement, exceeds, is_negative, new_chunk, drop_chunk,
  max_expected_chunks,
}
use geocode_csv.Pipeline.ChunkCount.Steps.{
  Population, make, make_last, drop, Reach, begin, later, counted, Reach-counts,
}

made : new_chunk (pos 0) ≡ (ok tt, pos 1)
unfolding new_chunk increment exceeds
made = refl

dropped : drop_chunk (pos 1) ≡ (ok tt, pos 0)
unfolding drop_chunk decrement is_negative
dropped = refl

dropped_last : drop_chunk (pos 0) ≡ (ok tt, negsuc 0)
unfolding drop_chunk decrement is_negative
dropped_last = refl

-- One chunk and the last one are made and dropped: the counter ends at -1.
abbrev drained : Population
drained = record { total_chunks_existing = negsuc 0; alive = 0; last_made = true }

drained-Reach : Reach drained
drained-Reach =
    later (later (later (later begin (make refl made)) (make_last refl)) (drop refl dropped))
      (drop refl dropped_last)

Reach-counts_example :
    (negsuc 0 ≡ counted 0 true)
    × (0 < 0 → (drop_chunk (negsuc 0)).0 ≡ ok tt)
    × (true ≡ false → ((new_chunk (negsuc 0)).0 ≡ ok tt) ↔ (0 ≤ max_expected_chunks))
Reach-counts_example = Reach-counts drained-Reach

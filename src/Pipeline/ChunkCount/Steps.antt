-- ===== src/Pipeline/ChunkCount/Steps.antt =====
-- src/pipeline.rs: the chunks that exist, over the interleaved steps of the reader, which makes them,
-- and of the parts that drop them, and what the counter says of them.
use geocode_csv.Base.{
  ℕ, zero, suc, ◌≤◌, ◌<◌, ◌≡◌, refl, sym, ap, ◌∙◌, ◌↔◌, Bool, true, false, ltb, Bool-cases, inl,
  inr, arith,
}
use geocode_csv.Base.Outcome.{ok, panicked}
use geocode_csv.Pipeline.ChunkCount.{
  ℤ, pos, negsuc, increment, decrement, exceeds, is_negative, new_chunk, drop_chunk,
  max_expected_chunks,
}

-- The counter, the number of chunks that exist, and whether the last chunk was made.
pub record Population : Type 0 where
  pub total_chunks_existing : ℤ
  pub alive : ℕ
  pub last_made : Bool

-- The reader makes chunks by `Chunk::new` and, after all of these, at most one as a literal, which
-- leaves the counter as it is. Any chunk may be dropped at any time.
pub data Step (s : Population) : Population → Type 0 where
  make :
      {total' : ℤ}
      → s.last_made ≡ false
      → new_chunk s.total_chunks_existing ≡ (ok tt, total')
      → Step s (record { total_chunks_existing = total'; alive = suc s.alive; last_made = false })
  make_last :
      s.last_made ≡ false
      → Step s (record {
        total_chunks_existing = s.total_chunks_existing;
        alive = suc s.alive;
        last_made = true;
      })
  drop :
      {total' : ℤ} {n : ℕ}
      → s.alive ≡ suc n
      → drop_chunk s.total_chunks_existing ≡ (ok tt, total')
      → Step s (record { total_chunks_existing = total'; alive = n; last_made = s.last_made })

abbrev pub start : Population
start = record { total_chunks_existing = pos 0; alive = 0; last_made = false }

pub data Reach : Population → Type 0 where
  begin : Reach start
  later : {s t : Population} → Reach s → Step s t → Reach t

-- The chunks that exist, less one once the last chunk was made.
abbrev pub counted : ℕ → Bool → ℤ
counted n false = pos n
counted zero true = negsuc 0
counted (suc n) true = pos n

increment-counted : (n : ℕ) → increment (counted n false) ≡ counted (suc n) false
unfolding increment
increment-counted n = refl

decrement-counted : (n : ℕ) (last : Bool) → decrement (counted (suc n) last) ≡ counted n last
unfolding decrement
decrement-counted n false = refl
decrement-counted zero true = refl
decrement-counted (suc n) true = refl

abbrev Counts : Population → Type 0
Counts s = s.total_chunks_existing ≡ counted s.alive s.last_made

new_chunk-counter :
    (existing : ℤ) {total' : ℤ} → new_chunk existing ≡ (ok tt, total') → total' ≡ increment existing
unfolding new_chunk
new_chunk-counter existing h = sym (ap (λ r. r.1) h)

drop_chunk-counter :
    (existing : ℤ) {total' : ℤ}
    → drop_chunk existing ≡ (ok tt, total')
    → total' ≡ decrement existing
unfolding drop_chunk
drop_chunk-counter existing h = sym (ap (λ r. r.1) h)

Step-Counts : {s t : Population} → Step s t → Counts s → Counts t
Step-Counts {s} (make not_yet made) c =
    new_chunk-counter s.total_chunks_existing made
    ∙ ap increment (c ∙ ap (counted s.alive) not_yet)
    ∙ increment-counted s.alive
Step-Counts {s} (make_last not_yet) c = c ∙ ap (counted s.alive) not_yet
Step-Counts {s} (drop {n = n} lives dropped) c =
    drop_chunk-counter s.total_chunks_existing dropped
    ∙ ap decrement (c ∙ ap (λ k. counted k s.last_made) lives)
    ∙ decrement-counted n s.last_made

all-Counts : {s : Population} → Reach s → Counts s
all-Counts begin = refl
all-Counts (later r step) = Step-Counts step (all-Counts r)

counted-drops : (n : ℕ) (last : Bool) → 0 < n → (drop_chunk (counted n last)).0 ≡ ok tt
unfolding drop_chunk is_negative
counted-drops zero last h = absurd (omega (arith, h))
counted-drops (suc n) true h = refl
counted-drops (suc n) false h = refl

pub counted-makes : (n : ℕ) → ((new_chunk (counted n false)).0 ≡ ok tt) ↔ (n ≤ max_expected_chunks)
unfolding new_chunk exceeds
counted-makes n = elim (Bool-cases (ltb 76 n)) [
  | inl e ↦ (
    λ h. absurd (let h' : panicked ≡ ok tt = rw e at h in cc),
    λ h. absurd (ground (arith, e, h)),
  )
  | inr e ↦ (λ h. ground (arith, e), λ h. rw e refl)
]

-- In every state that steps can reach, the counter is the number of chunks that exist, less one once
-- the last chunk was made. Dropping a chunk that exists does not panic. Before the last chunk is
-- made, `Chunk::new` succeeds exactly when at most 76 chunks exist; otherwise it panics.
pub Reach-counts :
    {s : Population}
    → Reach s
    → (s.total_chunks_existing ≡ counted s.alive s.last_made)
      × (0 < s.alive → (drop_chunk s.total_chunks_existing).0 ≡ ok tt)
      × (s.last_made ≡ false
          → ((new_chunk s.total_chunks_existing).0 ≡ ok tt) ↔ (s.alive ≤ max_expected_chunks))
Reach-counts {s} r =
    let c = all-Counts r in
    (
      c,
      λ lives. rw c (counted-drops s.alive s.last_made lives),
      λ not_yet. rw (c, not_yet) (counted-makes s.alive),
    )

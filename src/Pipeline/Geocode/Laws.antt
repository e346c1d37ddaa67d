-- ===== src/Pipeline/Geocode/Laws.antt =====
-- src/pipeline.rs: what `geocode_chunk` returns, and the chunk with no rows, on which it panics.
use geocode_csv.Base.{
  ℕ, ◌*◌, ◌<◌, ◌≤◌, ◌≡◌, ◌≢◌, refl, ◌∙◌, Option, List, [], ◌∷◌, length, length-eq_nil, All, arith,
  ◌==◌, false,
}
use geocode_csv.Base.Outcome.{Outcome, ok, err, panicked, Ensures}
use geocode_csv.Base.Effect.{lift, proceed}
use geocode_csv.Base.Effect.Safe.{Safe, Safe-bind, Safe-lift}
use geocode_csv.Addresses.Address.{Address}
use geocode_csv.Addresses.Columns.{StringRecord}
use geocode_csv.Addresses.Spec.{prefixes, prefix_count}
use geocode_csv.Geocoders.{Geocoder, Geocoded, Implements, Answers, Fits}
use geocode_csv.Pipeline.Retry.{Timed, geocode_with_retries}
use geocode_csv.Pipeline.Retry.Laws.{geocode_with_retries-Safe, geocode_with_retries-first}
use geocode_csv.Pipeline.Geocode.{Shared, Chunk, add_geocoded, geocode_chunk}
use geocode_csv.Pipeline.Geocode.Columns.{Extended, add_all-Extended}
use geocode_csv.Pipeline.Geocode.Rows.{HaveWidth, SpecBelow, AddressesFor, prefix_addresses-total}

-- What a geocoded chunk has from the results `results`: its shared data, and its rows, each with the
-- columns of its own results after its own columns.
abbrev pub AddsResults : ℕ → ℕ → List (Option Geocoded) → Chunk → Chunk → Type 0
AddsResults cols k results chunk chunk' =
    (chunk'.shared ≡ chunk.shared)
    × (length results ≡ k * length chunk.rows)
    × Extended cols k results (length chunk.rows) chunk.rows chunk'.rows

-- What the outcome of the geocoder makes of a chunk: an error is passed on.
abbrev pub AddsOutcome : ℕ → ℕ → Chunk → Outcome (List (Option Geocoded)) → Outcome Chunk → Type 0
AddsOutcome cols k chunk (ok results) (ok chunk') = AddsResults cols k results chunk chunk'
AddsOutcome cols k chunk (ok results) (err e) = ⊥
AddsOutcome cols k chunk (ok results) panicked = ⊥
AddsOutcome cols k chunk (err e) r = r ≡ err e
AddsOutcome cols k chunk panicked r = ⊥

-- The rows of a geocoded chunk, from some results.
abbrev pub Geocodes : ℕ → ℕ → Chunk → Chunk → Type 0
Geocodes cols k chunk chunk' =
    (results : List (Option Geocoded)) × All (Fits cols) results
    × AddsResults cols k results chunk chunk'

module _ {W : Type 0} (geocoder : Geocoder W) where
  add_geocoded-AddsResults :
      (k : ℕ) (results : List (Option Geocoded)) (chunk : Chunk)
      → chunk.rows ≢ []
      → length results ≡ k * length chunk.rows
      → (chunk' : Chunk) × (add_geocoded geocoder results chunk ≡ ok chunk')
        × AddsResults (length geocoder.column_names) k results chunk chunk'
  unfolding add_geocoded
  add_geocoded-AddsResults k results chunk ne l =
      let pos = length-pos chunk.rows ne in
      let (rows', e, x) =
        add_all-Extended geocoder.column_names k (length results) (length chunk.rows) results
          chunk.rows refl pos l (omega arith) in
      let size : (length chunk.rows == 0) ≡ false = ground (arith, pos) in
      (record chunk { rows = rows' }, rw (size, e) refl, (refl, l, x))
    where
      length-pos : (rows : List StringRecord) → rows ≢ [] → 0 < length rows
      length-pos [] h = absurd (h refl)
      length-pos (row ∷ rows) h = omega arith

  add_outcome :
      (k : ℕ) (chunk : Chunk) (xs : List Address) (called : Outcome (List (Option Geocoded)))
      (t : Timed W)
      → chunk.rows ≢ []
      → length xs ≡ k * length chunk.rows
      → Ensures (Answers (length geocoder.column_names) xs) called
      → let run = proceed called (λ geocoded. lift (add_geocoded geocoder geocoded chunk)) t in
        AddsOutcome (length geocoder.column_names) k chunk called run.0 × (run.1 ≡ t)
  add_outcome k chunk xs (ok results) t ne l a =
      let (chunk', e, adds) = add_geocoded-AddsResults k results chunk ne (a.0 ∙ l) in
      rw e (adds, refl)
  add_outcome k chunk xs (err e) t ne l a = (refl, refl)
  add_outcome k chunk xs panicked t ne l a = absurd a

  -- Geocoding a chunk that has rows, of a width at which the columns of the spec exist, by a geocoder
  -- that implements the trait, with at most 62 retries. The retry loop is run on the addresses `xs`:
  -- for each prefix, in order, the address that each row, in order, has in the columns of that prefix.
  -- The chunk has what this run of the loop makes of it, and nothing else is called. If the loop
  -- returned `results`, then the chunk is geocoded: it has its shared data and its number of rows,
  -- and row `i` of `n` has, after its own columns, those of the results `i`, `n + i`, `2 * n + i`, …,
  -- one for each prefix: the values of a match, and an empty value for each column if there is none.
  -- If the loop returned an error, so does the function. It does not panic, and keeps the geocoder's
  -- invariant.
  pub geocode_chunk-adds :
      {Inv : W → Type 0} (max_retries n : ℕ) (chunk : Chunk) (t : Timed W)
      → Implements Inv geocoder
      → max_retries ≤ 62
      → chunk.rows ≢ []
      → SpecBelow n chunk.shared.spec
      → HaveWidth n chunk.rows
      → Inv t.world
      → let run = geocode_chunk geocoder max_retries chunk t in
        (xs : List Address) × AddressesFor chunk.shared.spec chunk.rows
          (prefixes chunk.shared.spec)
          xs
        × AddsOutcome
            (length geocoder.column_names)
            (prefix_count chunk.shared.spec)
            chunk
            (geocode_with_retries geocoder xs max_retries t).0
            run.0
        × (run.1 ≡ (geocode_with_retries geocoder xs max_retries t).1)
        × Inv run.1.world
  unfolding geocode_chunk
  geocode_chunk-adds max_retries n chunk t imp small ne below width i =
      let (xs, e, l, for_rows) =
        prefix_addresses-total n chunk.shared.spec chunk.rows below width in
      let safe = (geocode_with_retries-Safe geocoder xs max_retries small (imp.calls xs)).at t i in
      let (adds, same) =
        add_outcome (prefix_count chunk.shared.spec) chunk xs
          (geocode_with_retries geocoder xs max_retries t).0
          (geocode_with_retries geocoder xs max_retries t).1 ne l safe.1 in
      (xs, for_rows, rw e adds, rw e same, rw (e, same) safe.0)

  -- The same, from every world that satisfies the invariant, for results that fit the columns.
  pub geocode_chunk-Geocodes :
      {Inv : W → Type 0} (max_retries n : ℕ) (chunk : Chunk)
      → Implements Inv geocoder
      → max_retries ≤ 62
      → chunk.rows ≢ []
      → SpecBelow n chunk.shared.spec
      → HaveWidth n chunk.rows
      → Safe
          (λ (t : Timed W). Inv t.world)
          (Geocodes (length geocoder.column_names) (prefix_count chunk.shared.spec) chunk)
          (geocode_chunk geocoder max_retries chunk)
  unfolding geocode_chunk
  geocode_chunk-Geocodes max_retries n chunk imp small ne below width =
      let (xs, e, l, for_rows) =
        prefix_addresses-total n chunk.shared.spec chunk.rows below width in
      rw e (
        Safe-bind (geocode_with_retries geocoder xs max_retries) _
          (geocode_with_retries-Safe geocoder xs max_retries small (imp.calls xs))
          λ results a.
            let (chunk', added, adds) =
              add_geocoded-AddsResults (prefix_count chunk.shared.spec) results chunk ne
                (a.0 ∙ l) in
            Safe-lift _ (rw added (results, a.1, adds)))

  -- A chunk without rows is not geocoded. For every spec whose columns exist, whatever the retries,
  -- if the geocoder returns a list when it is given no address, then `geocode_chunk` panics.
  pub geocode_chunk-empty :
      (max_retries n : ℕ) (shared : Shared) (t : Timed W) {results : List (Option Geocoded)}
      → SpecBelow n shared.spec
      → (geocoder.geocode_addresses [] t.world).0 ≡ ok results
      → (geocode_chunk geocoder max_retries (record { shared = shared; rows = [] }) t).0 ≡ panicked
  unfolding geocode_chunk
  geocode_chunk-empty max_retries n shared t below h =
      let (xs, e, l, f) = prefix_addresses-total n shared.spec [] below tt in
      let none' : xs ≡ [] = length-eq_nil xs (omega (arith, l)) in
      rw (e, none', geocode_with_retries-first geocoder [] max_retries t h) refl

-- ===== src/Pipeline/Geocode/Width.antt =====
-- src/pipeline.rs: how wide the rows of a geocoded chunk are.
use geocode_csv.Base.{
  ℕ, zero, suc, ◌+◌, ◌*◌, ◌<◌, ◌≤◌, ◌≡◌, ◌≢◌, refl, sym, ◌∙◌, ap, Option, none, some, List, [], ◌∷◌,
  ◌++◌, length, drop, get_elem?, length-append, length-replicate, All, arith,
}
use mathlib.Core.Option.{some-injective}
use geocode_csv.Base.Effect.Safe.{Safe, Safe-weaken}
use geocode_csv.Addresses.Spec.{prefix_count}
use geocode_csv.Geocoders.{Geocoder, Geocoded, Implements, Fits}
use geocode_csv.Pipeline.Retry.{Timed}
use geocode_csv.Pipeline.Geocode.{Chunk, geocode_chunk}
use geocode_csv.Pipeline.Geocode.Columns.{response_columns, new_columns, length-drop_of_le}
use geocode_csv.Pipeline.Geocode.Rows.{HaveWidth, SpecBelow}
use geocode_csv.Pipeline.Geocode.Laws.{Geocodes, geocode_chunk-Geocodes}

Fits-get_elem? :
    (cols : ℕ) (rs : List (Option Geocoded)) (i : ℕ)
    → i < length rs
    → All (Fits cols) rs
    → length (response_columns cols (get_elem? rs i)) ≡ cols
Fits-get_elem? cols [] i b h = absurd (omega arith)
Fits-get_elem? cols (none ∷ rs) zero b h = length-replicate cols []
Fits-get_elem? cols (some g ∷ rs) zero b (h, hs) = h
Fits-get_elem? cols (r ∷ rs) (suc i) b (h, hs) = Fits-get_elem? cols rs i (omega arith) hs

drop-Fits :
    (cols n : ℕ) (rs : List (Option Geocoded)) → All (Fits cols) rs → All (Fits cols) (drop n rs)
drop-Fits cols zero rs h = h
drop-Fits cols (suc n) [] h = tt
drop-Fits cols (suc n) (r ∷ rs) (h, hs) = drop-Fits cols n rs hs

length-new_columns :
    (cols k : ℕ) (rs : List (Option Geocoded)) (n i : ℕ)
    → i < n
    → length rs ≡ k * n
    → All (Fits cols) rs
    → length (new_columns cols k rs n i) ≡ k * cols
length-new_columns cols zero rs n i b l h = omega arith
length-new_columns cols (suc k) rs n i b l h =
    let len : length rs ≡ n + k * n = omega (arith, l) in
    omega (
      arith,
      length-append (response_columns cols (get_elem? rs i)) (new_columns cols k (drop n rs) n i),
      Fits-get_elem? cols rs i (omega (arith, len)) h,
      length-new_columns cols k (drop n rs) n i b (omega (arith, len, length-drop_of_le n rs))
          (drop-Fits cols n rs h),
    )

All-of-get_elem? :
    {A : Type 0} (P : A → Type 0) (xs : List A)
    → ((i : ℕ) (x : A) → i < length xs → get_elem? xs i ≡ some x → P x)
    → All P xs
All-of-get_elem? P [] h = tt
All-of-get_elem? P (x ∷ xs) h =
    (h 0 x (omega arith) refl, All-of-get_elem? P xs (λ i y b e. h (suc i) y (omega arith) e))

get_elem?-All :
    {A : Type 0} (P : A → Type 0) (xs : List A) (i : ℕ)
    → i < length xs
    → All P xs
    → (x : A) × (get_elem? xs i ≡ some x) × P x
get_elem?-All P [] i b h = absurd (omega arith)
get_elem?-All P (x ∷ xs) zero b (h, hs) = (x, refl, h)
get_elem?-All P (x ∷ xs) (suc i) b (h, hs) = get_elem?-All P xs i (omega arith) hs

pub Geocodes-HaveWidth :
    (cols k n : ℕ) (chunk chunk' : Chunk)
    → Geocodes cols k chunk chunk'
    → HaveWidth n chunk.rows
    → HaveWidth (n + k * cols) chunk'.rows
Geocodes-HaveWidth cols k n chunk chunk' (results, f, (s, l, (len, at))) width =
    All-of-get_elem? _ chunk'.rows λ i row' b e.
      let (row, found, w) = get_elem?-All _ chunk.rows i (omega (arith, len, b)) width in
      let b' : i < length chunk.rows = omega (arith, len, b) in
      let same : some row' ≡ some (row ++ new_columns cols k results (length chunk.rows) i) =
        sym e ∙ at i row b' found in
      ap length (some-injective _ _ same)
      ∙ omega (
        arith,
        length-append row (new_columns cols k results (length chunk.rows) i),
        w,
        length-new_columns cols k results (length chunk.rows) i b' l f,
      )

module _ {W : Type 0} (geocoder : Geocoder W) where
  -- A geocoded chunk is rectangular. Under the conditions of `geocode_chunk-Geocodes`, if the rows of
  -- the chunk have `n` columns, then each row of the geocoded chunk has `n` columns and, for each
  -- prefix, as many again as the geocoder has columns.
  pub geocode_chunk-HaveWidth :
      {Inv : W → Type 0} (max_retries n : ℕ) (chunk : Chunk)
      → Implements Inv geocoder
      → max_retries ≤ 62
      → chunk.rows ≢ []
      → SpecBelow n chunk.shared.spec
      → HaveWidth n chunk.rows
      → Safe
          (λ (t : Timed W). Inv t.world)
          (λ chunk'.
            HaveWidth
              (n + prefix_count chunk.shared.spec * length geocoder.column_names)
              chunk'.rows)
          (geocode_chunk geocoder max_retries chunk)
  geocode_chunk-HaveWidth max_retries n chunk imp small ne below width =
      Safe-weaken (geocode_chunk geocoder max_retries chunk)
        (λ chunk' g. Geocodes-HaveWidth _ _ n chunk chunk' g width)
        (geocode_chunk-Geocodes geocoder max_retries n chunk imp small ne below width)

-- ===== src/Geocoders/Cache/Hits.antt =====
-- src/geocoders/cache/mod.rs: addresses whose results are all cached.
use geocode_csv.Base.{
  ℕ, suc, ◌≡◌, ◌≢◌, refl, sym, ap, ◌∙◌, true, false, Option, none, some, List, [], ◌∷◌, ◌++◌,
  append_assoc, map, length, length-append, replicate, set-append_length, ltb, lt→ltb, ◌==◌, ==_iff,
  if◌then◌else◌, arith,
}
use geocode_csv.Base.Text.{Text}
use geocode_csv.Base.Outcome.{ok}
use geocode_csv.KeyValueStores.{Bytes, KeyValueStore}
use geocode_csv.Addresses.Address.{Address}
use geocode_csv.Geocoders.{Geocoder, Geocoded, contains_null_bytes}
use geocode_csv.Geocoders.Cache.Keys.{cache_key}
use geocode_csv.Geocoders.Cache.{
  Bincode, Unpacked, Options, assign, values_of, write_value, read_value, record_found, record_hit,
  unpack_value, unpack_results, push_keys, geocode_misses, geocode_cached,
}
use geocode_csv.Geocoders.Cache.Results.{read_value-write_value}

-- A result that the cache gives back: for these columns, and without zero bytes.
abbrev pub IsClean : ℕ → Option Geocoded → Type 0
IsClean columns none = Unit
IsClean columns (some g) = (length g.column_values ≡ columns) × (contains_null_bytes g ≡ false)

abbrev pub Decodes : Bincode → Type 0
Decodes bincode =
    (values : Option (List Text)) (data' : Bytes)
    → bincode.encode values ≡ ok data'
    → bincode.decode data' ≡ ok values

module _ (bincode : Bincode) (columns : ℕ) where
  -- Values that were written for these results, one for each.
  abbrev pub Written : List (Option Geocoded) → List Bytes → Type 0
  Written [] [] = Unit
  Written [] (v ∷ values) = ⊥
  Written (r ∷ results) [] = ⊥
  Written (r ∷ results) (v ∷ values) =
      (write_value bincode r ≡ ok v) × IsClean columns r × Written results values

  -- Values that are read as these results, one for each.
  abbrev pub Holds : List (Option Geocoded) → List Bytes → Type 0
  Holds [] [] = Unit
  Holds [] (v ∷ values) = ⊥
  Holds (r ∷ results) [] = ⊥
  Holds (r ∷ results) (v ∷ values) =
      (read_value bincode v ≡ ok (values_of r)) × IsClean columns r × Holds results values

  Written-Holds :
      (results : List (Option Geocoded)) (values : List Bytes)
      → Decodes bincode
      → Written results values
      → Holds results values
  Written-Holds [] [] law h = tt
  Written-Holds [] (v ∷ values) law h = absurd h
  Written-Holds (r ∷ results) [] law h = absurd h
  Written-Holds (r ∷ results) (v ∷ values) law (e, clean, h) =
      (read_value-write_value bincode r law e, clean, Written-Holds results values law h)

  abbrev hits : List (Option Geocoded) → Unpacked
  hits geocoded = record { geocoded = geocoded; cache_misses = []; cache_miss_offsets = [] }

  module _ (addresses : List Address) where
    record_hit-clean :
        (done rest : List (Option Geocoded)) (r : Option Geocoded) (i : ℕ)
        → length done ≡ i
        → IsClean columns r
        → record_hit bincode addresses columns i (values_of r) (hits (done ++ (none ∷ rest)))
          ≡ ok (hits (done ++ (r ∷ rest)))
    unfolding record_hit record_found assign
    record_hit-clean done rest none i l clean = refl
    record_hit-clean done rest (some g) i l (wide, no_null) =
        let small : ltb i (length (done ++ (none ∷ rest))) ≡ true =
          lt→ltb i _ (omega (arith, l, length-append done (none ∷ rest))) in
        let same : (length g.column_values == columns) ≡ true = (==_iff _ _).1 wide in
        rw (same, no_null, small, ← l, set-append_length) refl

    unpack_results-hits :
        (results : List (Option Geocoded)) (values : List Bytes) (done : List (Option Geocoded))
        (i : ℕ)
        → length done ≡ i
        → Holds results values
        → unpack_results bincode addresses columns i
            (map some values)
            (hits (done ++ replicate (length values) none))
          ≡ ok (hits (done ++ results))
    unfolding unpack_results unpack_value
    unpack_results-hits [] [] done i l h = refl
    unpack_results-hits [] (v ∷ values) done i l h = absurd h
    unpack_results-hits (r ∷ results) [] done i l h = absurd h
    unpack_results-hits (r ∷ results) (v ∷ values) done i l (e, clean, h) =
        rw
          (
            e,
            record_hit-clean done (replicate (length values) none) r i l clean,
            ← append_assoc done (r ∷ []) (replicate (length values) none),
            ← append_assoc done (r ∷ []) results,
          )
          (unpack_results-hits results values (done ++ (r ∷ [])) (suc i)
            (omega (arith, l, length-append done (r ∷ []))) h)

-- As below, for values that are read as the results.
pub geocode_cached-Holds :
    {W : Type 0} (bincode : Bincode) (store : KeyValueStore W) (inner : Geocoder W)
    (options : Options) (addresses : List Address) (results : List (Option Geocoded))
    (values : List Bytes) {w w' : W}
    → let ks = map (cache_key options.inner_cache_prefix) addresses in
      addresses ≢ []
      → length values ≡ length addresses
      → Holds bincode (length inner.column_names) results values
      → store.execute_get ks w ≡ (ok (map some values), w')
      → geocode_cached bincode store inner options addresses w
        ≡ (ok (if options.output_keys then push_keys results ks else results), w')
unfolding geocode_cached geocode_misses
geocode_cached-Holds bincode store inner options [] results values ne l h found = absurd (ne refl)
geocode_cached-Holds bincode store inner options (a ∷ addresses) results values ne l h found =
    let columns = length inner.column_names in
    let unpacked : unpack_results bincode (a ∷ addresses) columns 0 (map some values)
          (hits bincode columns (replicate (length (a ∷ addresses)) none))
        ≡ ok (hits bincode columns results) =
      ap
        (λ n.
          unpack_results bincode (a ∷ addresses) columns 0 (map some values)
            (hits bincode columns (replicate n none)))
        (sym l)
      ∙ unpack_results-hits bincode columns (a ∷ addresses) results values [] 0 refl h in
    rw (found, unpacked) refl

-- If the store holds, for the keys of some addresses, what the cache wrote for some results, each with
-- a value for each column and no zero byte, and bincode decodes what it encodes, then the cache returns
-- these results, with the keys if they are to be output. It does nothing but read the store: the inner
-- geocoder is not called, and nothing is stored.
pub geocode_cached-hits :
    {W : Type 0} (bincode : Bincode) (store : KeyValueStore W) (inner : Geocoder W)
    (options : Options) (addresses : List Address) (results : List (Option Geocoded))
    (values : List Bytes) {w w' : W}
    → let ks = map (cache_key options.inner_cache_prefix) addresses in
      Decodes bincode
      → addresses ≢ []
      → length values ≡ length addresses
      → Written bincode (length inner.column_names) results values
      → store.execute_get ks w ≡ (ok (map some values), w')
      → geocode_cached bincode store inner options addresses w
        ≡ (ok (if options.output_keys then push_keys results ks else results), w')
geocode_cached-hits bincode store inner options addresses results values law ne l h found =
    geocode_cached-Holds bincode store inner options addresses results values ne l
      (Written-Holds bincode (length inner.column_names) results values law h) found

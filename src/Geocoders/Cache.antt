-- ===== src/Geocoders/Cache.antt =====
-- src/geocoders/cache/mod.rs and src/geocoders/cache/compression.rs: results of another geocoder,
-- cached in a key/value store.
pub mod Keys
pub mod Results
pub mod Laws
pub mod Hits
pub mod Slots
use geocode_csv.Base.{
  ℕ, zero, suc, Bool, not, ◌&&◌, Option, none, some, List, [], ◌∷◌, ◌++◌, map, length, replicate,
  get_elem?, set, ltb, ◌==◌, if◌then◌else◌,
}
use geocode_csv.Base.Text.{Text, codes, is_empty}
use geocode_csv.Base.Outcome
use geocode_csv.Base.Outcome.{
  Outcome, ok, err, panicked, expect, unknown_compression, wrong_number_of_values,
}
use geocode_csv.Base.Effect.{M, pure, lift, ◌>>=◌}
use geocode_csv.KeyValueStores.{Bytes, KeyValueStore}
use geocode_csv.Addresses.Address.{Address}
use geocode_csv.Geocoders.{Geocoder, Geocoded, contains_null_bytes}
use geocode_csv.Geocoders.Cache.Keys.{cache_key}

-- The library bincode, on the values that are cached: the columns of a match, or None.
pub record Bincode : Type 0 where
  pub encode : Option (List Text) → Outcome Bytes
  pub decode : Bytes → Outcome (Option (List Text))

-- `CacheCompressor`: `compress` and `decompress` append to their output.
abbrev pub compressor_id : ℕ
compressor_id = b'N'

unfoldable pub compress : Bytes → Bytes → Outcome Bytes
compress input output = ok (output ++ input)

unfoldable pub decompress : Bytes → Bytes → Outcome Bytes
decompress input output = ok (output ++ input)

-- `geocoded[i] = …`
unfoldable pub assign : {A : Type 0} → List A → ℕ → A → Outcome (List A)
assign l i v = if ltb i (length l) then ok (set l i v) else panicked

-- The variables that the loop over the store's results changes.
pub record Unpacked : Type 0 where
  pub geocoded : List (Option Geocoded)
  pub cache_misses : List Address
  pub cache_miss_offsets : List ℕ

unfoldable pub push_key : Option Geocoded → Text → Option Geocoded
push_key none k = none
push_key (some result) k = some (record { column_values = result.column_values ++ (k ∷ []) })

-- The loop over `geocoded.iter_mut().zip(keys.iter())`.
unfoldable pub push_keys : List (Option Geocoded) → List Text → List (Option Geocoded)
unfolding push_key
push_keys [] ks = []
push_keys (result ∷ results) [] = result ∷ results
push_keys (result ∷ results) (k ∷ ks) = push_key result k ∷ push_keys results ks

-- `retry.as_ref().map(|retry| &retry.column_values)`
abbrev pub values_of : Option Geocoded → Option (List Text)
values_of none = none
values_of (some retry) = some retry.column_values

module _ (bincode : Bincode) where
  -- A value that the store holds for a key, up to its decoding; `cache_hit[0]` may panic.
  unfoldable pub read_value : Bytes → Outcome (Option (List Text))
  unfolding decompress
  read_value [] = panicked
  read_value (id ∷ data') =
      let rest = Outcome.◌>>=◌ (decompress data' []) bincode.decode in
      if id == compressor_id then rest else err (unknown_compression id)

  -- The value that is stored for a result.
  unfoldable pub write_value : Option Geocoded → Outcome Bytes
  unfolding compress
  write_value retry =
      Outcome.◌>>=◌ (bincode.encode (values_of retry))
        λ encoded. compress encoded (compressor_id ∷ [])

  module _ (addresses : List Address) (columns : ℕ) where
    unfoldable pub add_miss : ℕ → Unpacked → Outcome Unpacked
    add_miss i u = Outcome.◌>>=◌ (expect (get_elem? addresses i)) λ address. ok (record u {
      cache_misses = u.cache_misses ++ (address ∷ []);
      cache_miss_offsets = u.cache_miss_offsets ++ (i ∷ []);
    })

    unfoldable pub record_found : ℕ → Geocoded → Unpacked → Outcome Unpacked
    unfolding assign
    record_found i candidate u =
        Outcome.◌>>=◌ (assign u.geocoded i (some candidate))
          λ geocoded. ok (record u { geocoded = geocoded })

    -- A hit: a cached failure, a match, or data that counts as a miss.
    unfoldable pub record_hit : ℕ → Option (List Text) → Unpacked → Outcome Unpacked
    unfolding add_miss record_found
    record_hit i none u = ok u
    record_hit i (some values) u =
        let candidate : Geocoded = record { column_values = values } in
        if not (length values == columns)
        then err (wrong_number_of_values (length values) columns)
        else if contains_null_bytes candidate
        then add_miss i u
        else record_found i candidate u

    unfoldable pub unpack_value : ℕ → Option Bytes → Unpacked → Outcome Unpacked
    unfolding add_miss read_value record_hit
    unpack_value i none u = add_miss i u
    unpack_value i (some cache_hit) u =
        Outcome.◌>>=◌ (read_value cache_hit) λ values. record_hit i values u

    -- The loop over `cache_results.iter().enumerate()`, from index `i`.
    unfoldable pub unpack_results : ℕ → List (Option Bytes) → Unpacked → Outcome Unpacked
    unfolding unpack_value
    unpack_results i [] u = ok u
    unpack_results i (cached_value ∷ cache_results) u =
        Outcome.◌>>=◌ (unpack_value i cached_value u) λ u'. unpack_results (suc i) cache_results u'

  -- The loop over the misses and their new results: what is to be stored, and the results.
  unfoldable pub store_retries :
      List Text
      → List ℕ
      → List (Option Geocoded)
      → List (Text × Bytes)
      → List (Option Geocoded)
      → Outcome (List (Text × Bytes) × List (Option Geocoded))
  unfolding write_value assign
  store_retries ks [] retries entries geocoded = ok (entries, geocoded)
  store_retries ks (i ∷ offsets) [] entries geocoded = ok (entries, geocoded)
  store_retries ks (i ∷ offsets) (retry ∷ retries) entries geocoded =
      Outcome.◌>>=◌ (write_value retry) λ compressed. Outcome.◌>>=◌ (expect (get_elem? ks i)) λ k.
        Outcome.◌>>=◌ (assign geocoded i retry) λ geocoded'.
          store_retries ks offsets retries (entries ++ ((k, compressed) ∷ [])) geocoded'

-- The settings of a `Cache`, its parts apart.
pub record Options : Type 0 where
  pub inner_cache_prefix : Text
  pub output_keys : Bool
  pub cache_hits_only : Bool

module _ {W : Type 0} (bincode : Bincode) (store : KeyValueStore W) (inner : Geocoder W)
    (options : Options) where
  -- What is done about the misses.
  unfoldable pub geocode_misses : List Text → Unpacked → M W (List (Option Geocoded))
  unfolding store_retries
  geocode_misses ks u =
      if not (is_empty u.cache_misses) && not options.cache_hits_only
      then (do
        retries ← inner.geocode_addresses u.cache_misses
        stored ← lift (store_retries bincode ks u.cache_miss_offsets retries [] u.geocoded)
        done ← store.execute_set stored.0
        pure stored.1)
      else pure u.geocoded

  unfoldable pub geocode_cached : List Address → M W (List (Option Geocoded))
  unfolding cache_key unpack_results geocode_misses push_keys
  geocode_cached addresses =
      let ks = map (cache_key options.inner_cache_prefix) addresses in
      let start : Unpacked = record {
        geocoded = replicate (length addresses) none;
        cache_misses = [];
        cache_miss_offsets = [];
      } in
      if is_empty ks then pure start.geocoded else (do
        cache_results ← store.execute_get ks
        u ←
            lift
              (unpack_results bincode addresses (length inner.column_names) 0 cache_results start)
        geocoded ← geocode_misses ks u
        pure (if options.output_keys then push_keys geocoded ks else geocoded))

  -- `Cache::new`
  unfoldable pub cache : Geocoder W
  unfolding geocode_cached
  cache = record {
    tag = codes "cache";
    configuration_key = inner.configuration_key;
    column_names =
        if options.output_keys
        then inner.column_names ++ (codes "cache_key" ∷ [])
        else inner.column_names;
    geocode_addresses = geocode_cached;
  }

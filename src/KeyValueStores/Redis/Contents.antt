-- ===== src/KeyValueStores/Redis/Contents.antt =====
-- src/key_value_stores/redis.rs: Redis, with the prefix of its keys, is a map.
use geocode_csv.Base.{
  ◌≡◌, refl, sym, ap, ◌∙◌, true, Option, List, [], ◌∷◌, ◌++◌, map, if◌then◌else◌, append_assoc,
  append-nil, ◌==◌, ==_iff, some,
}
use geocode_csv.Base.Text.{Text, text_eq}
use geocode_csv.Base.Outcome.{ok}
use geocode_csv.Base.Effect.Runs.{bind-both_ok}
use geocode_csv.KeyValueStores.{Bytes, prefix_key}
use geocode_csv.KeyValueStores.Contents.{put, overwrite, IsMap}
use geocode_csv.KeyValueStores.Redis.{
  RedisServer, redis, redis_get, redis_set, redis_add_gets, redis_add_sets, redis_add_set,
  add_gets-map,
}

-- A Redis server: taking a connection leaves its data as it is, a `GET` gives what it holds, and the
-- `SET`s of a pipeline are carried out one after the other.
pub record HasData {W : Type 0} (server : RedisServer W) (data' : W → Text → Option Bytes)
    : Type 0 where
  pub keeps : (w w' : W) → server.client w ≡ (ok tt, w') → data' w' ≡ data' w
  pub gets :
      (ks : List Text) (w w' : W) (found : List (Option Bytes))
      → server.query_get ks w ≡ (ok found, w')
      → (found ≡ map (data' w) ks) × (data' w' ≡ data' w)
  pub sets :
      (entries : List (Text × Bytes)) (w w' : W)
      → server.query_set entries w ≡ (ok tt, w')
      → data' w' ≡ overwrite (data' w) entries

text_eq-append : (p k j : Text) → text_eq (p ++ k) (p ++ j) ≡ text_eq k j
text_eq-append [] k j = refl
text_eq-append (c ∷ p) k j =
    let same : (c == c) ≡ true = (==_iff c c).1 refl in rw same (text_eq-append p k j)

module _ (key_prefix : Text) where
  -- What a client sees through the prefix.
  abbrev pub through : (Text → Option Bytes) → Text → Option Bytes
  through data' k = data' (prefix_key key_prefix k)

  put-through :
      (data' : Text → Option Bytes) (k : Text) (v : Bytes)
      → through (put data' (prefix_key key_prefix k) v) ≡ put (through data') k v
  unfolding prefix_key
  put-through data' k v = λ i j.
      ap (λ b. if b then some v else data' (key_prefix ++ j)) (text_eq-append key_prefix k j) i

  abbrev prefixed : Text × Bytes → Text × Bytes
  prefixed entry = (prefix_key key_prefix entry.0, entry.1)

  overwrite-through :
      (data' : Text → Option Bytes) (entries : List (Text × Bytes))
      → through (overwrite data' (map prefixed entries)) ≡ overwrite (through data') entries
  overwrite-through data' [] = refl
  overwrite-through data' (e ∷ entries) =
      overwrite-through (put data' (prefix_key key_prefix e.0) e.1) entries
      ∙ ap (λ c. overwrite c entries) (put-through data' e.0 e.1)

  map-through :
      (data' : Text → Option Bytes) (ks : List Text)
      → map data' (map (prefix_key key_prefix) ks) ≡ map (through data') ks
  map-through data' [] = refl
  map-through data' (k ∷ ks) = ap (λ l. data' (prefix_key key_prefix k) ∷ l) (map-through data' ks)

module _ {W : Type 0} (server : RedisServer W) (key_prefix : Text) where
  add_sets-map :
      (pipeline entries : List (Text × Bytes))
      → redis_add_sets server key_prefix pipeline entries
        ≡ pipeline ++ map (prefixed key_prefix) entries
  unfolding redis_add_sets redis_add_set
  add_sets-map pipeline [] = sym (append-nil pipeline)
  add_sets-map pipeline (e ∷ entries) =
      add_sets-map (pipeline ++ (prefixed key_prefix e ∷ [])) entries
      ∙ append_assoc pipeline (prefixed key_prefix e ∷ []) (map (prefixed key_prefix) entries)

  -- Redis is a map from keys to values, what a server with data holds for the keys with the prefix
  -- before them: a read that succeeds gives these values, and a write that succeeds changes them.
  pub redis-IsMap :
      (data' : W → Text → Option Bytes)
      → HasData server data'
      → IsMap (redis server key_prefix) (λ w. through key_prefix (data' w))
  unfolding redis redis_get redis_set
  redis-IsMap data' h = record {
    reads = λ ks w w' found run.
        let (u, v, c, q) =
          bind-both_ok (λ client. server.query_get (redis_add_gets server key_prefix [] ks))
            server.client w run in
        let (is, kept) = h.gets (redis_add_gets server key_prefix [] ks) v w' found q in
        (
          is
              ∙ ap (map (data' v)) (add_gets-map server key_prefix [] ks)
              ∙ map-through key_prefix (data' v) ks
              ∙ ap (λ d. map (through key_prefix d) ks) (h.keeps w v c),
          ap (through key_prefix) (kept ∙ h.keeps w v c),
        );
    writes = λ entries w w' run.
        let (u, v, c, q) =
          bind-both_ok (λ client. server.query_set (redis_add_sets server key_prefix [] entries))
            server.client w run in
        ap (through key_prefix) (
          h.sets (redis_add_sets server key_prefix [] entries) v w' q
          ∙ ap (overwrite (data' v)) (add_sets-map [] entries)
          ∙ ap (λ d. overwrite d (map (prefixed key_prefix) entries)) (h.keeps w v c))
        ∙ overwrite-through key_prefix (data' w) entries;
  }

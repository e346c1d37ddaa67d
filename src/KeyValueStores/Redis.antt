-- ===== src/KeyValueStores/Redis.antt =====
-- src/key_value_stores/redis.rs: Redis as a key/value store. The connection pool and the queries are
-- the libraries'.
pub mod Contents
use geocode_csv.Base.{
  ◌≡◌, ◌∙◌, Bool, Option, List, [], ◌∷◌, ◌++◌, length, length-map, map, All, All-append, sym,
  append-nil, append_assoc,
}
use geocode_csv.Base.Text.{Text, is_empty}
use geocode_csv.Base.Effect.{M, ◌>>=◌}
use geocode_csv.Base.Effect.Safe.{Safe, Safe-bind}
use geocode_csv.KeyValueStores.{Bytes, KeyValueStore, prefix_key, HasBytes, Stores}

-- `client` takes a connection from the pool; a pipeline of `GET` commands has an answer for each, one
-- of `SET` commands none.
pub record RedisServer (W : Type 0) : Type 0 where
  pub client : M W Unit
  pub query_get : List Text → M W (List (Option Bytes))
  pub query_set : List (Text × Bytes) → M W Unit

module _ {W : Type 0} (server : RedisServer W) (key_prefix : Text) where
  -- `add_get` and `add_set`, which extend the pipeline.
  unfoldable pub redis_add_get : List Text → Text → List Text
  unfolding prefix_key
  redis_add_get pipeline k = pipeline ++ (prefix_key key_prefix k ∷ [])

  unfoldable pub redis_add_set : List (Text × Bytes) → Text × Bytes → List (Text × Bytes)
  unfolding prefix_key
  redis_add_set pipeline (k, value) = pipeline ++ ((prefix_key key_prefix k, value) ∷ [])

  -- A row of calls of `add_get`, or of `add_set`, on a pipeline.
  unfoldable pub redis_add_gets : List Text → List Text → List Text
  unfolding redis_add_get
  redis_add_gets pipeline [] = pipeline
  redis_add_gets pipeline (k ∷ ks) = redis_add_gets (redis_add_get pipeline k) ks

  unfoldable pub redis_add_sets : List (Text × Bytes) → List (Text × Bytes) → List (Text × Bytes)
  unfolding redis_add_set
  redis_add_sets pipeline [] = pipeline
  redis_add_sets pipeline (e ∷ entries) = redis_add_sets (redis_add_set pipeline e) entries

  unfoldable pub redis_get : List Text → M W (List (Option Bytes))
  redis_get pipeline = do client ← server.client; server.query_get pipeline

  unfoldable pub redis_set : List (Text × Bytes) → M W Unit
  redis_set pipeline = do client ← server.client; server.query_set pipeline

  -- `Redis`
  unfoldable pub redis : KeyValueStore W
  unfolding redis_add_gets redis_add_sets redis_get redis_set
  redis = record {
    key_prefix = key_prefix;
    execute_get = λ ks. redis_get (redis_add_gets [] ks);
    execute_set = λ entries. redis_set (redis_add_sets [] entries);
  }

-- Each pipelined query has an answer for each command.
pub record Answers {W : Type 0} (Inv : W → Type 0) (server : RedisServer W) : Type 0 where
  pub connects : Safe Inv (λ done. Unit) server.client
  pub queries_get :
      (pipeline : List Text)
      → Safe Inv
          (λ values. (length values ≡ length pipeline) × All HasBytes values)
          (server.query_get pipeline)
  pub queries_set :
      (pipeline : List (Text × Bytes))
      → All (λ (e : Text × Bytes). is_empty e.1 ≡ Bool.false) pipeline
      → Safe Inv (λ done. Unit) (server.query_set pipeline)

module _ {W : Type 0} (server : RedisServer W) (key_prefix : Text) where
  pub add_gets-map :
      (pipeline ks : List Text)
      → redis_add_gets server key_prefix pipeline ks ≡ pipeline ++ map (prefix_key key_prefix) ks
  unfolding redis_add_gets redis_add_get
  add_gets-map pipeline [] = sym (append-nil pipeline)
  add_gets-map pipeline (k ∷ ks) =
      add_gets-map (pipeline ++ (prefix_key key_prefix k ∷ [])) ks
      ∙ append_assoc pipeline (prefix_key key_prefix k ∷ []) (map (prefix_key key_prefix) ks)

  add_sets-NonEmpty :
      (pipeline entries : List (Text × Bytes))
      → All (λ (e : Text × Bytes). is_empty e.1 ≡ Bool.false) pipeline
      → All (λ (e : Text × Bytes). is_empty e.1 ≡ Bool.false) entries
      → All
          (λ (e : Text × Bytes). is_empty e.1 ≡ Bool.false)
          (redis_add_sets server key_prefix pipeline entries)
  unfolding redis_add_sets redis_add_set
  add_sets-NonEmpty pipeline [] p h = p
  add_sets-NonEmpty pipeline ((k, v) ∷ entries) p (h, hs) =
      add_sets-NonEmpty (pipeline ++ ((prefix_key key_prefix k, v) ∷ [])) entries
        (All-append _ pipeline _ p (h, tt)) hs

  -- Redis is a store that a cache can rely on, if it answers each `GET` of a pipeline, none of them
  -- with an empty value, and a connection and the queries are safe.
  pub redis-Stores : {Inv : W → Type 0} → Answers Inv server → Stores Inv (redis server key_prefix)
  unfolding redis redis_get redis_set
  redis-Stores a = record {
    gets = λ ks. Safe-bind server.client _ a.connects λ c u.
        rw (← length-map (prefix_key key_prefix) ks, ← add_gets-map [] ks)
          (a.queries_get (redis_add_gets server key_prefix [] ks));
    sets = λ entries h.
        Safe-bind server.client _ a.connects
          λ c u. a.queries_set _ (add_sets-NonEmpty [] entries tt h);
  }

-- ===== src/KeyValueStores/Open.antt =====
-- src/key_value_stores/mod.rs: the store that a URL names.
use geocode_csv.Base.{Option, none, some, if◌then◌else◌, Bool-cases, inl, inr}
use geocode_csv.Base.Text.{Text, codes, text_eq}
use geocode_csv.Base.Outcome.{
  Outcome, ok, err, ok_or, unknown_name, unexpected_url, Ensures, Ensures-bind, Ensures-if, ◌>>=◌,
}
use geocode_csv.KeyValueStores.{KeyValueStore, Stores}
use geocode_csv.KeyValueStores.Redis.{RedisServer, redis, Answers, redis-Stores}
use geocode_csv.KeyValueStores.BigTable.{
  Url, BigTableConfig, BigTableServer, from_url, config_of, bigtable,
}
use geocode_csv.KeyValueStores.BigTable.Laws.{ServesRows, bigtable-Stores}

-- The libraries' connections.
pub record Connections (W : Type 0) : Type 0 where
  pub connect_redis : Url → Outcome (RedisServer W)
  pub connect_bigtable : BigTableConfig → Outcome (BigTableServer W)

module _ {W : Type 0} (connections : Connections W) where
  -- `Redis::new` and `BigTable::new`
  unfoldable pub new_redis : Url → Text → Outcome (KeyValueStore W)
  new_redis url key_prefix = do server ← connections.connect_redis url; ok (redis server key_prefix)

  unfoldable pub new_bigtable : Url → Text → Outcome (KeyValueStore W)
  unfolding from_url
  new_bigtable url key_prefix = do
    config ← from_url url
    server ← connections.connect_bigtable config
    ok (bigtable server key_prefix)

  unfoldable pub new_from_url : Url → Text → Outcome (KeyValueStore W)
  unfolding new_redis new_bigtable
  new_from_url url key_prefix =
      if text_eq url.scheme (codes "redis")
      then new_redis url key_prefix
      else if text_eq url.scheme (codes "bigtable")
      then new_bigtable url key_prefix
      else err (unknown_name url.scheme)

-- Connections that can be relied on.
pub record Connects {W : Type 0} (Inv : W → Type 0) (connections : Connections W) : Type 0 where
  pub redis_answers : (url : Url) → Ensures (Answers Inv) (connections.connect_redis url)
  pub bigtable_serves :
      (config : BigTableConfig) → Ensures (ServesRows Inv) (connections.connect_bigtable config)

from_url-total : (url : Url) → Ensures (λ config. Unit) (from_url url)
unfolding from_url
from_url-total url = elim (Bool-cases (text_eq url.scheme (codes "bigtable"))) [
  | inl e ↦ rw e (found (config_of url.host_str url.path_segments))
  | inr e ↦ rw e tt
]
  where
    found :
        (o : Option BigTableConfig) → Ensures (λ config. Unit) (ok_or o (unexpected_url url.scheme))
    found none = tt
    found (some config) = tt

module _ {W : Type 0} {Inv : W → Type 0} (connections : Connections W) where
  new_bigtable-Stores :
      (url : Url) (key_prefix : Text)
      → Connects Inv connections
      → Ensures (Stores Inv) (new_bigtable connections url key_prefix)
  unfolding new_bigtable
  new_bigtable-Stores url key_prefix c =
      Ensures-bind _ _ (from_url url) _ (from_url-total url) λ config u.
        Ensures-bind _ _ (connections.connect_bigtable config) _ (c.bigtable_serves config)
          λ server s. bigtable-Stores server key_prefix s

  -- A store that is opened is one that a cache can rely on, if the connections are.
  pub new_from_url-Stores :
      (url : Url) (key_prefix : Text)
      → Connects Inv connections
      → Ensures (Stores Inv) (new_from_url connections url key_prefix)
  unfolding new_from_url new_redis
  new_from_url-Stores url key_prefix c =
      Ensures-if _ (text_eq url.scheme (codes "redis")) _ _
        (Ensures-bind _ _ (connections.connect_redis url) _ (c.redis_answers url)
          λ server a. redis-Stores server key_prefix a)
        (Ensures-if _ (text_eq url.scheme (codes "bigtable")) _ _
          (new_bigtable-Stores url key_prefix c) tt)

-- ===== src/KeyValueStores.antt =====
-- src/key_value_stores/mod.rs: the interface of key/value stores, and what a cache relies on.
pub mod Contents
pub mod Redis
pub mod BigTable
pub mod Open
use geocode_csv.Base.{ℕ, ◌≡◌, Bool, Option, none, some, List, ◌++◌, length, All}
use geocode_csv.Base.Text.{Text, is_empty}
use geocode_csv.Base.Effect.{M}
use geocode_csv.Base.Effect.Safe.{Safe}

abbrev pub Bytes : Type 0
Bytes = List ℕ

-- The trait, with its two pipelines: `execute_get` is `execute` of a `PipelinedGet` to which the keys
-- were added in this order, `execute_set` that of a `PipelinedSet`.
pub record KeyValueStore (W : Type 0) : Type 0 where
  pub key_prefix : Text
  pub execute_get : List Text → M W (List (Option Bytes))
  pub execute_set : List (Text × Bytes) → M W Unit

-- `KeyValueStore::prefix_key`
unfoldable pub prefix_key : Text → Text → Text
prefix_key key_prefix key' = key_prefix ++ key'

-- Values that a cache stores are not empty.
abbrev pub HasBytes : Option Bytes → Type 0
HasBytes none = Unit
HasBytes (some value) = is_empty value ≡ Bool.false

-- What a cache relies on: there is a value or None for each key, no value is empty, and a store
-- stays that way if no empty value is put into it.
pub record Stores {W : Type 0} (Inv : W → Type 0) (store : KeyValueStore W) : Type 0 where
  pub gets :
      (ks : List Text)
      → Safe Inv
          (λ values. (length values ≡ length ks) × All HasBytes values)
          (store.execute_get ks)
  pub sets :
      (entries : List (Text × Bytes))
      → All (λ (e : Text × Bytes). is_empty e.1 ≡ Bool.false) entries
      → Safe Inv (λ done. Unit) (store.execute_set entries)

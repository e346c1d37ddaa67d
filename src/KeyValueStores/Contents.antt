-- ===== src/KeyValueStores/Contents.antt =====
-- src/key_value_stores/mod.rs: what a key/value store holds, as a function of the keys.
use geocode_csv.Base.{
  ◌≡◌, ◌≢◌, refl, Option, some, List, [], ◌∷◌, map, if◌then◌else◌, Bool-cases, inl, inr,
}
use geocode_csv.Base.Text.{Text, text_eq, text_eq_iff}
use geocode_csv.Base.Outcome.{ok}
use geocode_csv.KeyValueStores.{Bytes, KeyValueStore}

-- What a store holds after entries are put into it, one after the other.
abbrev pub put : (Text → Option Bytes) → Text → Bytes → Text → Option Bytes
put contents k v j = if text_eq k j then some v else contents j

abbrev pub overwrite : (Text → Option Bytes) → List (Text × Bytes) → Text → Option Bytes
overwrite contents [] = contents
overwrite contents (entry ∷ entries) = overwrite (put contents entry.0 entry.1) entries

pub put-other :
    (contents : Text → Option Bytes) (k j : Text) (v : Bytes)
    → k ≢ j
    → put contents k v j ≡ contents j
put-other contents k j v ne = elim (Bool-cases (text_eq k j)) [
  | inl e ↦ absurd (ne ((text_eq_iff k j).0 e))
  | inr e ↦ rw e refl
]

-- A store with contents: a read that succeeds gives what they are and keeps them, and a write that
-- succeeds puts its entries into them, one after the other.
pub record IsMap {W : Type 0} (store : KeyValueStore W) (contents : W → Text → Option Bytes)
    : Type 0 where
  pub reads :
      (ks : List Text) (w w' : W) (found : List (Option Bytes))
      → store.execute_get ks w ≡ (ok found, w')
      → (found ≡ map (contents w) ks) × (contents w' ≡ contents w)
  pub writes :
      (entries : List (Text × Bytes)) (w w' : W)
      → store.execute_set entries w ≡ (ok tt, w')
      → contents w' ≡ overwrite (contents w) entries

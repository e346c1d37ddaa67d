-- ===== src/Addresses/Spec/Prefixes.antt =====
-- src/addresses.rs: the prefixes of a spec, in one order whatever the order of the hash map.
use geocode_csv.Base.{
  suc, ◌≡◌, refl, ◌∙◌, ap, some, List, [], ◌∷◌, length, All, arith, Bool-cases, inl, inr,
}
use geocode_csv.Base.Text.{Text, text_leb, text_eq, text_eq_refl}
use geocode_csv.Base.Dict.{Dict, lookup, keys}
use geocode_csv.Addresses.Columns.{AddressColumnKeys}
use geocode_csv.Addresses.Spec.{AddressColumnSpec, insert_sorted, sort, prefix_count, prefixes, get}

module _ (P : Text → Type 0) where
  All-insert_sorted : (k : Text) (ks : List Text) → P k → All P ks → All P (insert_sorted k ks)
  unfolding insert_sorted
  All-insert_sorted k [] h hs = (h, tt)
  All-insert_sorted k (j ∷ js) h (hj, hs) = elim (Bool-cases (text_leb k j)) [
    | inl le ↦ rw le (h, (hj, hs))
    | inr gt ↦ rw gt (hj, All-insert_sorted k js h hs)
  ]

  pub All-sort : (ks : List Text) → All P ks → All P (sort ks)
  unfolding sort
  All-sort [] h = tt
  All-sort (k ∷ ks) (h, hs) = All-insert_sorted k (sort ks) h (All-sort ks hs)

length-insert_sorted : (k : Text) (ks : List Text) → length (insert_sorted k ks) ≡ suc (length ks)
unfolding insert_sorted
length-insert_sorted k [] = refl
length-insert_sorted k (j ∷ js) = ground (arith, length-insert_sorted k js)

length-sort : (ks : List Text) → length (sort ks) ≡ length ks
unfolding sort
length-sort [] = refl
length-sort (k ∷ ks) = length-insert_sorted k (sort ks) ∙ ap suc (length-sort ks)

length-keys : {V : Type 0} (m : Dict V) → length (keys m) ≡ length m
length-keys [] = refl
length-keys ((k, v) ∷ m) = ap suc (length-keys m)

pub length-prefixes :
    {K : Type 0} (spec : AddressColumnSpec K) → length (prefixes spec) ≡ prefix_count spec
unfolding prefixes prefix_count
length-prefixes spec = length-sort _ ∙ length-keys spec.address_columns_by_prefix

-- What holds of every entry holds of what a key of the map is looked up as.
module _ {V : Type 0} (P : V → Type 0) where
  abbrev pub Finds : Dict V → Text → Type 0
  Finds m k = (v : V) × (lookup k m ≡ some v) × P v

  abbrev pub Values : Dict V → Type 0
  Values [] = Unit
  Values ((k, v) ∷ m) = P v × Values m

  Finds-cons : (j : Text) (v : V) (m : Dict V) (k : Text) → P v → Finds m k → Finds ((j, v) ∷ m) k
  Finds-cons j v m k p (u, e, q) = elim (Bool-cases (text_eq j k)) [
    | inl same ↦ rw same (v, refl, p)
    | inr other ↦ rw other (u, e, q)
  ]

  All-Finds-cons :
      (j : Text) (v : V) (m : Dict V) (ks : List Text)
      → P v
      → All (Finds m) ks
      → All (Finds ((j, v) ∷ m)) ks
  All-Finds-cons j v m [] p h = tt
  All-Finds-cons j v m (k ∷ ks) p (h, hs) = (Finds-cons j v m k p h, All-Finds-cons j v m ks p hs)

  keys-Finds : (m : Dict V) → Values m → All (Finds m) (keys m)
  keys-Finds [] h = tt
  keys-Finds ((k, v) ∷ m) (h, hs) =
      (rw text_eq_refl (v, refl, h), All-Finds-cons k v m (keys m) h (keys-Finds m hs))

-- Each prefix is a key of the map: looking it up gives columns, with what holds of all columns.
pub get-prefixes :
    {K : Type 0} (P : AddressColumnKeys K → Type 0) (spec : AddressColumnSpec K)
    → Values P spec.address_columns_by_prefix
    → All (λ prefix. (c : AddressColumnKeys K) × (get spec prefix ≡ some c) × P c) (prefixes spec)
unfolding prefixes get
get-prefixes P spec h =
    All-sort _ (keys spec.address_columns_by_prefix) (keys-Finds P spec.address_columns_by_prefix h)

-- ===== src/KeyValueStores/BigTable/Laws.antt =====
-- src/key_value_stores/bigtable.rs: BigTable is a store that a cache can rely on.
use geocode_csv.Base.{
  ◌≡◌, ◌∙◌, false, Option, none, some, List, [], ◌∷◌, length-map, map, All, Bool-cases, inl, inr,
}
use geocode_csv.Base.Text.{Text, is_empty, into_bytes, text_eq}
use geocode_csv.Base.Effect.Safe.{Safe, Safe-bind, Safe-lift}
use geocode_csv.KeyValueStores.{Bytes, HasBytes, Stores}
use geocode_csv.KeyValueStores.BigTable.{
  RowCell, Entry, BigTableServer, entry_for, bigtable_get, bigtable_set, bigtable,
}
use geocode_csv.KeyValueStores.BigTable.Response.{
  last_value, latest, IsAnswer, unpack_response-latest,
}

abbrev pub RowHasBytes : Bytes × List RowCell → Type 0
RowHasBytes row = All (λ (c : RowCell). is_empty c.value ≡ false) row.1

-- The service answers with rows that were asked for, and holds no empty value if none is written.
pub record ServesRows {W : Type 0} (Inv : W → Type 0) (server : BigTableServer W) : Type 0 where
  pub reads :
      (ks : List Bytes)
      → Safe Inv (λ response. IsAnswer ks response × All RowHasBytes response) (server.read_rows ks)
  pub mutates :
      (entries : List Entry)
      → All (λ (e : Entry). is_empty e.cell.value ≡ false) entries
      → Safe Inv (λ done. Unit) (server.mutate_rows entries)

last_value-HasBytes :
    (cells : List RowCell) (old : Option Bytes)
    → All (λ (c : RowCell). is_empty c.value ≡ false) cells
    → HasBytes old
    → HasBytes (last_value cells old)
last_value-HasBytes [] old h o = o
last_value-HasBytes (c ∷ cells) old (h, hs) o = last_value-HasBytes cells (some c.value) hs h

latest-HasBytes :
    (response : List (Bytes × List RowCell)) (old : Option Bytes) (k : Bytes)
    → All RowHasBytes response
    → HasBytes old
    → HasBytes (latest response old k)
latest-HasBytes [] old k h o = o
latest-HasBytes ((row_key, cells) ∷ response) old k (h, hs) o =
    elim (Bool-cases (text_eq k row_key)) [
      | inl same ↦ rw same (latest-HasBytes response _ k hs (last_value-HasBytes cells old h o))
      | inr other ↦ rw other (latest-HasBytes response old k hs o)
    ]

map-latest :
    (response : List (Bytes × List RowCell)) (ks : List Bytes)
    → All RowHasBytes response
    → All HasBytes (map (latest response none) ks)
map-latest response [] h = tt
map-latest response (k ∷ ks) h = (latest-HasBytes response none k h tt, map-latest response ks h)

entries-NonEmpty :
    (entries : List (Text × Bytes))
    → All (λ (e : Text × Bytes). is_empty e.1 ≡ false) entries
    → All (λ (e : Entry). is_empty e.cell.value ≡ false) (map entry_for entries)
unfolding entry_for
entries-NonEmpty [] h = tt
entries-NonEmpty ((k, v) ∷ entries) (h, hs) = (h, entries-NonEmpty entries hs)

-- BigTable is a store that a cache can rely on, if the service answers with rows that were asked for
-- and with cells of the column that was asked for, none of them empty.
pub bigtable-Stores :
    {W : Type 0} {Inv : W → Type 0} (server : BigTableServer W) (key_prefix : Text)
    → ServesRows Inv server
    → Stores Inv (bigtable server key_prefix)
unfolding bigtable bigtable_get bigtable_set
bigtable-Stores server key_prefix s = record {
  gets = λ ks.
      Safe-bind (server.read_rows (map into_bytes ks)) _ (s.reads (map into_bytes ks)) λ response p.
        Safe-lift _ (
          rw (unpack_response-latest (map into_bytes ks) response p.0) (
            length-map (latest response none) (map into_bytes ks) ∙ length-map into_bytes ks,
            map-latest response (map into_bytes ks) p.1,
          ));
  sets = λ entries h. s.mutates (map entry_for entries) (entries-NonEmpty entries h);
}
